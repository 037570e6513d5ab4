-- ===== src/Interface/SendList.antt =====
-- interface/HasSendList.{h,cpp}: the requests that an ALP has sent, oldest first, which it undoes
-- with anti-messages when an agent rolls back. A copy of a message is the message itself.
pub mod Rollback
mod Tests
use pdesmas_cloud.Base.{
  ℕ, List, [], ◌∷◌, ◌++◌, Bool, true, false, ltb, leb, ◌==◌, ◌&&◌, not, if◌then◌else◌,
}
use pdesmas_cloud.Lp.LpId.{LpId, lp_eq}
use pdesmas_cloud.Messages.SharedStateMessage.{
  AnySharedState, SingleReadMessage, WriteMessage, RangeQueryMessage, single_read, write,
  range_query, timestamp, original_agent, identifier,
}

-- The tests of the three cases: a read and a range query at the time go too, a write only behind.
unfoldable pub is_undone : ℕ → LpId → AnySharedState → Bool
is_undone t agent (single_read m) =
    lp_eq m.base.original_agent agent && leb t m.base.simulation.timestamp
is_undone t agent (write m) = lp_eq m.base.original_agent agent && ltb t m.base.simulation.timestamp
is_undone t agent (range_query m) =
    lp_eq m.base.original_agent agent && leb t m.base.simulation.timestamp

-- `RollbackSendList`: what stays on the list, and the result.
unfoldable pub rollback_send_list :
    ℕ → LpId → List AnySharedState → List AnySharedState × List AnySharedState
rollback_send_list t agent [] = ([], [])
rollback_send_list t agent (m ∷ ms) =
    let (kept, result) = rollback_send_list t agent ms in
    if is_undone t agent m then (kept, m ∷ result) else (m ∷ kept, result)

unfoldable pub clear_send_list : ℕ → List AnySharedState → List AnySharedState
clear_send_list t [] = []
clear_send_list t (m ∷ ms) =
    let rest = clear_send_list t ms in if ltb (timestamp m) t then rest else m ∷ rest

-- The three overloads.
unfoldable pub add_to_send_list : AnySharedState → List AnySharedState → List AnySharedState
add_to_send_list m ms = ms ++ m ∷ []

unfoldable pub remove_from_send_list : ℕ → List AnySharedState → List AnySharedState × Bool
remove_from_send_list id [] = ([], false)
remove_from_send_list id (m ∷ ms) =
    let (rest, found) = remove_from_send_list id ms in
    if identifier m == id then (ms, true) else (m ∷ rest, found)
