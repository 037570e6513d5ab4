-- ===== src/Lp/Clp/RangeUpdates.antt =====
-- lp/Clp.cpp: `SendRangeUpdates` and the handler of a range update.
use pdesmas_cloud.Base.{
  ℕ, ◌-◌, ◌^◌, List, [], ◌∷◌, Option, none, some, Bool, ◌&&◌, not, ◌||◌, if◌then◌else◌, ◌>>=◌,
}
use pdesmas_cloud.Base.Int.{pos}
use pdesmas_cloud.Lp.Clp.{
  Clp, table, set_table, leads_to_no_clp, is_leaf, is_root, new_tag, rollback_by_ru,
}
use pdesmas_cloud.Lp.LogicalProcess.{send_load_balancing}
use pdesmas_cloud.Lp.MessageQueue.{other}
use pdesmas_cloud.Lp.RollbackList.Sending.{send_rollbacks}
use pdesmas_cloud.Messages.LpMessage.{RangeUpdateMessage, range_update}
use pdesmas_cloud.RangeQuery.RangePeriod.{RangeUpdates}
use pdesmas_cloud.RangeQuery.RangeRoutingTable.{
  get_range_copy, clear_range_updates, process_range_update,
}
use pdesmas_cloud.Routing.Router.{get_lp_rank_by_direction, get_direction_by_lp_rank}
use pdesmas_cloud.Types.Direction.{Direction, up, left, right, same_direction, neighbours, ports}
use pdesmas_cloud.Types.Point.{Point}
use pdesmas_cloud.Types.Range.{Range, range_ne, min_max_of_two_ranges}

-- `Range(Point(INT_MAX, INT_MAX), Point(INT_MAX, INT_MAX))`, which stands for no range.
abbrev pub int_max_point : Point
int_max_point = record { x = pos (2 ^ 31 - 1); y = pos (2 ^ 31 - 1) }

abbrev pub no_range : Range
no_range = record { min_range_value = int_max_point; max_range_value = int_max_point }

-- `if (range) range->MinMaxofTwoRanges(stored) else range = new Range(stored)`.
unfoldable pub widen : Option Range → Range → Option Range
widen none stored = some stored
widen (some r) stored = some (min_max_of_two_ranges r stored)

-- The test for the remote ports, as it is written: it asks for a leaf and for the root at once.
unfoldable pub is_merged : Direction → Direction → Direction → Clp → Bool
is_merged port source remote c =
    not (same_direction remote port)
    && not (same_direction remote source)
    && (is_leaf c && not (same_direction remote left) && not (same_direction remote right))
    && (is_root c && not (same_direction remote up))

-- The loop over the remote ports, with the old range and the new one.
unfoldable pub merge_remote :
    ℕ
    → Direction
    → Direction
    → List Direction
    → Clp
    → Option Range × Option Range
    → Option (Option Range × Option Range)
merge_remote t port source [] c r = some r
merge_remote t port source (remote ∷ ds) c (old, new) = do
  stored ←
      if is_merged port source remote c
      then (elim (table remote c) [ none ↦ none | some r ↦ some (get_range_copy t r) ])
      else some none
  merge_remote t port source ds c
      (elim stored [ none ↦ (old, new) | some s ↦ (widen old s, widen new s) ])

-- The three cases for the range of the message.
unfoldable pub announced : Option Range → Option Range → Range
announced old none = no_range
announced none (some new) = new
announced (some old) (some new) = if range_ne old new then new else new

-- The loop over the ports, for one update.
unfoldable pub send_range_update : RangeUpdates → Direction → List Direction → Clp → Option Clp
send_range_update u source [] c = some c
send_range_update u source (port ∷ ds) c =
    if same_direction port source || leads_to_no_clp port c
    then send_range_update u source ds c
    else (do
      (old, new) ← merge_remote u.time port source ports c (u.old_range, u.new_range)
      rank ← get_lp_rank_by_direction port c.router
      send_range_update u source ds (record c {
        lp =
            send_load_balancing
              (other (
                range_update (record {
                  origin = c.lp.info.rank;
                  destination = rank;
                  timestamp = u.time;
                  range = announced old new;
                })))
              c.lp;
      }))

-- `SendRangeUpdates`.
unfoldable pub send_range_updates : List RangeUpdates → Direction → Clp → Option Clp
send_range_updates [] source c = some c
send_range_updates (u ∷ us) source c = do
  c' ← send_range_update u source neighbours c
  send_range_updates us source c'

-- The calls that end most handlers: the updates of a port's table are sent and cleared.
unfoldable pub flush_range_updates : Direction → Clp → Option Clp
flush_range_updates d c = do
  t ← table d c
  c' ← send_range_updates t.range_update_list d c
  t' ← table d c'
  some (set_table d (clear_range_updates t') c')

-- A rollback list that is empty sends nothing.
unfoldable pub process_range_update_message : ℕ → RangeUpdateMessage → Clp → Option Clp
process_range_update_message now m c = do
  d ← get_direction_by_lp_rank m.origin c.router
  t ← table d c
  let range : Option Range = if range_ne m.range no_range then some m.range else none
  let (t', rl) = process_range_update m.timestamp range (clear_range_updates t) []
  let changed = set_table d t' c
  flush_range_updates d (record changed {
    lp = send_rollbacks (new_tag 0 m.timestamp rollback_by_ru now) rl changed.lp;
  })
