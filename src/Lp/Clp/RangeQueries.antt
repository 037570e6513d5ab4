-- ===== src/Lp/Clp/RangeQueries.antt =====
-- lp/Clp.cpp: the handlers of a range query and of its anti-message.
use pdesmas_cloud.Base.{
  ℕ, ◌+◌, ◌%◌, ◌^◌, List, [], ◌∷◌, Option, none, some, Bool, true, false, ltb, not, ◌||◌,
  if◌then◌else◌, ◌>>=◌,
}
use pdesmas_cloud.Lp.Clp.{Clp, table, set_table, leads_to_no_clp}
use pdesmas_cloud.Lp.LogicalProcess.{send_simulation}
use pdesmas_cloud.Lp.MessageQueue.{shared_state, other}
use pdesmas_cloud.Messages.SharedStateMessage.{RangeQueryMessage, range_query}
use pdesmas_cloud.Messages.LpMessage.{RangeQueryAntiMessage, range_query_anti}
use pdesmas_cloud.RangeQuery.RangeRoutingTable.{
  RangeRoutingTable, has_range_period, get_range_copy, add_range_query_info, table_block_status,
  delete_range_query_info,
}
use pdesmas_cloud.RangeQuery.RangeTracker.{
  has_entry, create_entry, delete_entry, increase_number_of_hops, get_number_of_hops,
  get_outstanding_ports, set_port_to_scanned, add_to_ssv_value_map, get_collected_ssv_value_map,
}
use pdesmas_cloud.Routing.Router.{get_lp_rank_by_direction, get_direction_by_lp_rank}
use pdesmas_cloud.State.SharedState.{range_read}
use pdesmas_cloud.Types.Direction.{Direction, here, same_direction, ports, white}
use pdesmas_cloud.Types.Range.{is_range_overlapping}

-- The new message as the handler changes it, with the CLP.
abbrev pub Querying : Type 0
Querying = Clp × RangeQueryMessage

abbrev pub addressed : ℕ → ℕ → RangeQueryMessage → RangeQueryMessage
addressed origin destination m = record m {
  base = record m.base {
    simulation = record m.base.simulation { origin = origin; destination = destination };
  };
}

-- A port that the query is not sent through: it counts as scanned, and what the message carries goes
-- to the tracker.
unfoldable pub scan : Direction → Querying → Querying
scan d (c, m) =
    let id = m.base.identifier in
    (
      record c {
        range_tracker =
            add_to_ssv_value_map id m.ssv_value_map (set_port_to_scanned id d c.range_tracker);
      },
      record m { ssv_value_map = [] },
    )

-- `AddRangeQueryInfo` at a port.
unfoldable pub note_query : Direction → Bool → RangeRoutingTable → Querying → Querying
note_query d blocked t (c, m) = (
  set_table d
      (add_range_query_info m.base.simulation.timestamp m.base.identifier m.range blocked
        m.base.original_agent t)
      c,
  m,
)

-- The query is read here or sent on, where the range behind the port overlaps.
unfoldable pub pass_through : Direction → Querying → Option Querying
pass_through here (c, m) = do
  d ← get_direction_by_lp_rank m.base.original_agent.rank c.router
  let (s, points) =
      range_read m.range d m.number_of_traverse_hops m.base.simulation.timestamp c.shared_state
  some (scan here (record c { shared_state = s }, record m { ssv_value_map = points }))
pass_through d (c, m) = do
  rank ← get_lp_rank_by_direction d c.router
  let sent = addressed c.lp.info.rank rank m
  some (record c { lp = send_simulation (shared_state (range_query sent)) c.lp }, sent)

-- One turn of the loop over the outstanding ports. A port without a period at the time stays as it
-- is, and so stays outstanding.
unfoldable pub visit : Direction → Direction → Querying → Option Querying
visit incoming d (c, m) =
    if same_direction d incoming || leads_to_no_clp d c then some (scan d (c, m)) else (do
      let t = m.base.simulation.timestamp
      at_port ← table d c
      if not (has_range_period t at_port) then some (c, m) else elim (get_range_copy t at_port) [
        | none ↦ some (scan d (note_query d true at_port (c, m)))
        | some r ↦
            if is_range_overlapping r m.range
            then pass_through d (note_query d false at_port (c, m))
            else some (scan d (note_query d true at_port (c, m)))
      ])

unfoldable pub visit_all : Direction → List Direction → Querying → Option Querying
visit_all incoming [] q = some q
visit_all incoming (d ∷ ds) q = do q' ← visit incoming d q; visit_all incoming ds q'

-- A query that this CLP has not seen.
unfoldable pub start_query : Querying → Option Querying
start_query (c, m) = do
  let id = m.base.identifier
  incoming ← get_direction_by_lp_rank m.base.original_agent.rank c.router
  let tracker = create_entry id m.ssv_value_map incoming m.base.number_of_hops c.range_tracker
  visit_all incoming (get_outstanding_ports id tracker) (
    record c { range_tracker = tracker },
    record m { base = record m.base { number_of_hops = 0 }; ssv_value_map = [] },
  )

-- The reply of a neighbour.
unfoldable pub take_reply : Querying → Option Querying
take_reply (c, m) = do
  let id = m.base.identifier
  d ← get_direction_by_lp_rank m.base.simulation.origin c.router
  some (
    record c {
      range_tracker = add_to_ssv_value_map id m.ssv_value_map (
          increase_number_of_hops id m.base.number_of_hops
            (set_port_to_scanned id d c.range_tracker));
    },
    m,
  )

-- The response, once no port is outstanding. The fields that the source leaves unset are 0.
unfoldable pub answer : Querying → Option Clp
answer (c, m) =
    let id = m.base.identifier in
    elim (get_outstanding_ports id c.range_tracker) [
      | d ∷ ds ↦ some c
      | [] ↦ do
        let hops = get_number_of_hops id c.range_tracker
        let points = get_collected_ssv_value_map id c.range_tracker
        let (tracker, d) = delete_entry id c.range_tracker
        rank ← get_lp_rank_by_direction d c.router
        let response : RangeQueryMessage = record {
          base = record {
            simulation = record {
              origin = c.lp.info.rank;
              destination = rank;
              timestamp = m.base.simulation.timestamp;
              mattern_colour = white;
            };
            number_of_hops = hops;
            identifier = id;
            original_agent = m.base.original_agent;
          };
          range = m.range;
          number_of_traverse_hops = 0;
          ssv_value_map = points;
        }
        some (record c {
          range_tracker = tracker;
          lp = send_simulation (shared_state (range_query response)) c.lp;
        })
    ]

-- `ProcessMessage(const RangeQueryMessage*)`.
unfoldable pub process_range_query : RangeQueryMessage → Clp → Option Clp
process_range_query m c = do
  let m' = record m { number_of_traverse_hops = (m.number_of_traverse_hops + 1) % 2 ^ 64 }
  q ←
      if has_entry m.base.identifier c.range_tracker
      then take_reply (c, m')
      else start_query (c, m')
  answer q

-- One port of `ProcessMessage(const RangeQueryAntiMessage*)`.
unfoldable pub cancel_at : RangeQueryAntiMessage → Direction → Clp → Option Clp
cancel_at m d c = do
  from ← get_direction_by_lp_rank m.base.original_agent.rank c.router
  at_port ← table d c
  let t = m.base.simulation.timestamp
  if same_direction d from || not (has_range_period t at_port) then some c else (do
    let deleted = set_table d (delete_range_query_info t m.identifier at_port) c
    if table_block_status t m.identifier at_port || same_direction d here then some deleted else (do
      rank ← get_lp_rank_by_direction d c.router
      let s = record m.base.simulation { origin = c.lp.info.rank; destination = rank }
      let sent = record m { base = record m.base { simulation = s } }
      some (record deleted { lp = send_simulation (other (range_query_anti sent)) deleted.lp })))

unfoldable pub cancel_at_all : RangeQueryAntiMessage → List Direction → Clp → Option Clp
cancel_at_all m [] c = some c
cancel_at_all m (d ∷ ds) c = do c' ← cancel_at m d c; cancel_at_all m ds c'

-- `ProcessMessage(const RangeQueryAntiMessage*)`.
unfoldable pub process_range_query_anti : RangeQueryAntiMessage → Clp → Option Clp
process_range_query_anti m c =
    if ltb m.base.simulation.timestamp c.lp.gvt then some c else cancel_at_all m ports c
