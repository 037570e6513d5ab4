-- ===== src/RangeQuery/RangeTracker/Outstanding.antt =====
-- Which ports a range query still waits for, over the operations of RangeTracker.cpp.
use pdesmas_cloud.Base.{
  ℕ, ◌≡◌, refl, List, [], ◌∷◌, none, some, ◌==◌, not, if◌then◌else◌, arith, keep, Option-cases, inl,
  inr,
}
use pdesmas_cloud.Base.NatMap.{NatMap, find, assign, insert, find-assign, find-insert, map_laws}
use pdesmas_cloud.Types.Point.{Point}
use pdesmas_cloud.Types.Direction.{Direction, here, up, left, right, direction_size, port, ports}
use pdesmas_cloud.RangeQuery.RangeTracker.{
  scanned, RqPortScanStatus, RangeTracker, create_entry, new_rq_port_scan_status, initial_status,
  get_scan_status, set_scan_status, outstanding_of, get_outstanding_ports, set_port_to_scanned,
  add_to_ssv_value_map, status_add_values, insert_all, get_collected_ssv_value_map,
}

outstanding_of-new :
    (ssvs : NatMap Point) (origin : Direction) (hops : ℕ)
    → outstanding_of (new_rq_port_scan_status origin hops ssvs) ports
      ≡ keep (λ d. not (port d == port origin)) ports
unfolding outstanding_of new_rq_port_scan_status initial_status get_scan_status find port
outstanding_of-new ssvs here hops = refl
outstanding_of-new ssvs up hops = refl
outstanding_of-new ssvs left hops = refl
outstanding_of-new ssvs right hops = refl
outstanding_of-new ssvs direction_size hops = refl

-- A query that is new to the tracker waits for all ports but the one that it came from.
pub get_outstanding_ports-create_entry :
    (id : ℕ) (ssvs : NatMap Point) (origin : Direction) (hops : ℕ) (r : RangeTracker)
    → find id r ≡ none
    → get_outstanding_ports id (create_entry id ssvs origin hops r)
      ≡ keep (λ d. not (port d == port origin)) ports
unfolding get_outstanding_ports create_entry
get_outstanding_ports-create_entry id ssvs origin hops r new =
    let q = new_rq_port_scan_status origin hops ssvs in
    let entry : find id (insert id q r) ≡ some q = grind map_laws in
    rw (create_entry, get_outstanding_ports, entry, outstanding_of-new ssvs origin hops)

outstanding_of-set :
    (d : Direction) (q : RqPortScanStatus) (ds : List Direction)
    → outstanding_of (set_scan_status d scanned q) ds
      ≡ keep (λ e. not (port e == port d)) (outstanding_of q ds)
unfolding outstanding_of set_scan_status get_scan_status
outstanding_of-set d q [] = refl
outstanding_of-set d q (e ∷ es) =
    ground (
      arith,
      outstanding_of-set d q es,
      find-assign (port d) (port e) scanned q.port_scan_status_map,
    )

-- Setting a port to scanned takes that port off those that the query waits for, and leaves the
-- ports of every other query as they are.
pub get_outstanding_ports-set_port_to_scanned :
    (id other : ℕ) (d : Direction) (r : RangeTracker)
    → get_outstanding_ports other (set_port_to_scanned id d r) ≡ (
        if id == other
        then keep (λ e. not (port e == port d)) (get_outstanding_ports other r)
        else get_outstanding_ports other r)
unfolding get_outstanding_ports set_port_to_scanned find
get_outstanding_ports-set_port_to_scanned id other d r = elim (Option-cases (find id r)) [
  | inl n ↦ rw (n, set_port_to_scanned, get_outstanding_ports) (ground arith)
  | inr (q, e) ↦
      rw
        (
          e,
          set_port_to_scanned,
          get_outstanding_ports,
          find-assign id other (set_scan_status d scanned q) r,
        )
        (ground (arith, outstanding_of-set d q ports))
]

find-insert_all :
    (ssv : ℕ) (vs m : NatMap Point)
    → find ssv (insert_all vs m) ≡ elim (find ssv m) [ some v ↦ some v | none ↦ find ssv vs ]
unfolding insert_all find
find-insert_all ssv [] m = ground arith
find-insert_all ssv ((s, v) ∷ vs) m =
    rw (find-insert_all ssv vs (insert s v m), find-insert s ssv v m) (ground arith)

-- Where the tracker knows a query, the values that come in from a port join those that the query
-- has collected: a variable that has a value keeps it, and all others get theirs.
pub get_collected_ssv_value_map-add_to_ssv_value_map :
    (id ssv : ℕ) (vs : NatMap Point) (r : RangeTracker) (q : RqPortScanStatus)
    → find id r ≡ some q
    → find ssv (get_collected_ssv_value_map id (add_to_ssv_value_map id vs r))
      ≡ elim (find ssv (get_collected_ssv_value_map id r)) [ some v ↦ some v | none ↦ find ssv vs ]
unfolding get_collected_ssv_value_map add_to_ssv_value_map status_add_values find
get_collected_ssv_value_map-add_to_ssv_value_map id ssv vs r q e =
    let entry : find id (assign id (status_add_values vs q) r) ≡ some (status_add_values vs q) =
      grind map_laws in
    rw (e, add_to_ssv_value_map, get_collected_ssv_value_map, entry)
      (find-insert_all ssv vs q.ssv_value_map)
