-- ===== src/Interface/SendList/Rollback.antt =====
-- What HasSendList.cpp undoes in a rollback, and what GVT lets it forget.
use pdesmas_cloud.Base.{ℕ, ◌≤◌, ◌≡◌, refl, List, [], ◌∷◌, Bool, true, not, keep, arith, All, ◌≢◌}
use pdesmas_cloud.Lp.LpId.{LpId}
use pdesmas_cloud.Messages.SharedStateMessage.{
  AnySharedState, single_read, write, range_query, timestamp, identifier,
}
use pdesmas_cloud.Interface.SendList.{
  is_undone, rollback_send_list, clear_send_list, add_to_send_list, remove_from_send_list,
}

-- A rollback splits the list by the test of each message and keeps the order on both sides.
pub rollback_send_list-keep :
    (t : ℕ) (agent : LpId) (ms : List AnySharedState)
    → rollback_send_list t agent ms
      ≡ (keep (λ m. not (is_undone t agent m)) ms, keep (is_undone t agent) ms)
unfolding rollback_send_list
rollback_send_list-keep t agent [] = refl
rollback_send_list-keep t agent (m ∷ ms) = ground (arith, rollback_send_list-keep t agent ms)

pub is_undone-le :
    (t : ℕ) (agent : LpId) (m : AnySharedState) → is_undone t agent m ≡ true → t ≤ timestamp m
unfolding is_undone
is_undone-le t agent (single_read m) e = ground arith
is_undone-le t agent (write m) e = ground arith
is_undone-le t agent (range_query m) e = ground arith

keep-clear_send_list :
    (g t : ℕ) (agent : LpId) (ms : List AnySharedState)
    → g ≤ t
    → keep (is_undone t agent) (clear_send_list g ms) ≡ keep (is_undone t agent) ms
unfolding clear_send_list
keep-clear_send_list g t agent [] le = refl
keep-clear_send_list g t agent (m ∷ ms) le =
    ground (arith, keep-clear_send_list g t agent ms le, is_undone-le t agent m)

-- Where the GVT is not past the time of a rollback, the messages that `ClearSendList` forgets are
-- none of those that the rollback undoes.
pub rollback_send_list-clear :
    (g t : ℕ) (agent : LpId) (ms : List AnySharedState)
    → g ≤ t
    → (rollback_send_list t agent (clear_send_list g ms)).1 ≡ (rollback_send_list t agent ms).1
rollback_send_list-clear g t agent ms le =
    rw (rollback_send_list-keep t agent (clear_send_list g ms), rollback_send_list-keep t agent ms)
      (keep-clear_send_list g t agent ms le)

keep-nothing :
    (p : AnySharedState → Bool) (ms : List AnySharedState) → keep p (keep (λ m. not (p m)) ms) ≡ []
keep-nothing p [] = refl
keep-nothing p (m ∷ ms) = ground (arith, keep-nothing p ms)

keep-again : (p : AnySharedState → Bool) (ms : List AnySharedState) → keep p (keep p ms) ≡ keep p ms
keep-again p [] = refl
keep-again p (m ∷ ms) = ground (arith, keep-again p ms)

-- A second rollback of the same agent to the same time undoes nothing and changes nothing.
pub rollback_send_list-again :
    (t : ℕ) (agent : LpId) (ms : List AnySharedState)
    → rollback_send_list t agent (rollback_send_list t agent ms).0
      ≡ ((rollback_send_list t agent ms).0, [])
rollback_send_list-again t agent ms = rw (
  rollback_send_list-keep t agent ms,
  rollback_send_list-keep t agent (keep (λ m. not (is_undone t agent m)) ms),
  keep-nothing (is_undone t agent) ms,
  keep-again (λ m. not (is_undone t agent m)) ms,
)

-- Where no message on the list has the identifier of a new one, `RemoveFromSendList` of that
-- identifier finds the new message and takes the list back to what it was.
pub remove_from_send_list-add :
    (m : AnySharedState) (ms : List AnySharedState)
    → All (λ n. identifier n ≢ identifier m) ms
    → remove_from_send_list (identifier m) (add_to_send_list m ms) ≡ (ms, true)
unfolding remove_from_send_list add_to_send_list
remove_from_send_list-add m [] fresh = ground arith
remove_from_send_list-add m (n ∷ ms) fresh = ground (arith, remove_from_send_list-add m ms fresh.1)
