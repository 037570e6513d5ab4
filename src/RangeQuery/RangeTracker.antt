-- ===== src/RangeQuery/RangeTracker.antt =====
-- rangequery/RangeTracker.{h,cpp} and lp/RQPortScanStatus.{h,cpp}: the range queries that a CLP has
-- sent on, with the ports that are still to answer.
pub mod Outstanding
mod Tests
use pdesmas_cloud.Base.{
  ℕ, ◌+◌, ◌%◌, ◌^◌, List, [], ◌∷◌, Option, none, some, Bool, true, false, ◌==◌, if◌then◌else◌,
}
use pdesmas_cloud.Base.NatMap.{NatMap, find, assign, insert, erase}
use pdesmas_cloud.Types.Point.{Point}
use pdesmas_cloud.Types.Direction.{Direction, here, port, ports}

pub data ScanStatus : Type 0 where
  avoid_scan not_scanned scanned : ScanStatus

pub record RqPortScanStatus : Type 0 where
  pub origin_port : Direction
  pub number_of_hops : ℕ
  pub port_scan_status_map : NatMap ScanStatus
  pub ssv_value_map : NatMap Point

-- The loop of the constructor over the ports 0 to 3.
unfoldable pub initial_status : Direction → List Direction → NatMap ScanStatus
initial_status origin [] = []
initial_status origin (d ∷ ds) =
    let rest = initial_status origin ds in
    (port d, if port d == port origin then avoid_scan else not_scanned) ∷ rest

unfoldable pub new_rq_port_scan_status : Direction → ℕ → NatMap Point → RqPortScanStatus
new_rq_port_scan_status origin hops ssvs = record {
  origin_port = origin;
  number_of_hops = hops;
  port_scan_status_map = initial_status origin ports;
  ssv_value_map = ssvs;
}

unfoldable pub set_scan_status : Direction → ScanStatus → RqPortScanStatus → RqPortScanStatus
set_scan_status d st q = record q {
  port_scan_status_map = assign (port d) st q.port_scan_status_map;
}

unfoldable pub get_scan_status : Direction → RqPortScanStatus → ScanStatus
get_scan_status d q = elim (find (port d) q.port_scan_status_map) [
  | some st ↦ st
  | none ↦ avoid_scan
]

-- `insert` for each entry: a variable that is there keeps its value.
unfoldable pub insert_all : NatMap Point → NatMap Point → NatMap Point
insert_all [] m = m
insert_all ((ssv, v) ∷ vs) m = insert_all vs (insert ssv v m)

unfoldable pub status_add_values : NatMap Point → RqPortScanStatus → RqPortScanStatus
status_add_values vs q = record q { ssv_value_map = insert_all vs q.ssv_value_map }

unfoldable pub status_increase_hops : ℕ → RqPortScanStatus → RqPortScanStatus
status_increase_hops n q = record q { number_of_hops = (q.number_of_hops + n) % 2 ^ 32 }

-- `fRangeQueryPortStatus`.
abbrev pub RangeTracker : Type 0
RangeTracker = NatMap RqPortScanStatus

unfoldable pub has_entry : ℕ → RangeTracker → Bool
has_entry id r = elim (find id r) [ none ↦ false | some _ ↦ true ]

unfoldable pub create_entry : ℕ → NatMap Point → Direction → ℕ → RangeTracker → RangeTracker
create_entry id ssvs origin hops = insert id (new_rq_port_scan_status origin hops ssvs)

unfoldable pub delete_entry : ℕ → RangeTracker → RangeTracker × Direction
delete_entry id r = elim (find id r) [ none ↦ (r, here) | some q ↦ (erase id r, q.origin_port) ]

-- An operation on the entry, where there is one.
abbrev pub at_entry : ℕ → (RqPortScanStatus → RqPortScanStatus) → RangeTracker → RangeTracker
at_entry id f r = elim (find id r) [ none ↦ r | some q ↦ assign id (f q) r ]

unfoldable pub increase_number_of_hops : ℕ → ℕ → RangeTracker → RangeTracker
increase_number_of_hops id n = at_entry id (status_increase_hops n)

unfoldable pub get_number_of_hops : ℕ → RangeTracker → ℕ
get_number_of_hops id r = elim (find id r) [ none ↦ 0 | some q ↦ q.number_of_hops ]

-- The loop of `GetOutstandingPorts` over the ports 0 to 3.
unfoldable pub outstanding_of : RqPortScanStatus → List Direction → List Direction
outstanding_of q [] = []
outstanding_of q (d ∷ ds) =
    let rest = outstanding_of q ds in
    elim (get_scan_status d q) [ not_scanned ↦ d ∷ rest | avoid_scan ↦ rest | scanned ↦ rest ]

unfoldable pub get_outstanding_ports : ℕ → RangeTracker → List Direction
get_outstanding_ports id r = elim (find id r) [ none ↦ [] | some q ↦ outstanding_of q ports ]

unfoldable pub set_port_to_scanned : ℕ → Direction → RangeTracker → RangeTracker
set_port_to_scanned id d = at_entry id (set_scan_status d scanned)

unfoldable pub add_to_ssv_value_map : ℕ → NatMap Point → RangeTracker → RangeTracker
add_to_ssv_value_map id vs = at_entry id (status_add_values vs)

unfoldable pub get_collected_ssv_value_map : ℕ → RangeTracker → NatMap Point
get_collected_ssv_value_map id r = elim (find id r) [ none ↦ [] | some q ↦ q.ssv_value_map ]
