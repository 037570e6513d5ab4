-- ===== src/State/StateVariable/Outcome.antt =====
-- StateVariable.cpp: a write, refused or not, behind a read.
use pdesmas_cloud.Base.{
  ℕ, ◌<◌, ◌≡◌, refl, sym, ap, ◌∙◌, ◌⊎◌, inl, inr, [], Option, some, long_max, Option-cases,
}
use pdesmas_cloud.Lp.LpId.{LpId}
use pdesmas_cloud.Lp.RollbackList.Covers.{Covers}
use pdesmas_cloud.State.SharedState.{History}
use pdesmas_cloud.State.StateVariable.{
  WriteStatus, write_success, write_failure, write_with_rollback, read_without_record,
}
use pdesmas_cloud.State.StateVariable
use pdesmas_cloud.State.StateVariable.Chain.{IsChain}
use pdesmas_cloud.State.StateVariable.Invariant.{read-IsChain}
use pdesmas_cloud.State.StateVariable.Reads.{read-read_without_record}
use pdesmas_cloud.State.StateVariable.Stragglers.{write-read}
use pdesmas_cloud.State.StateVariable.Writes.{value_at-write_with_rollback}
use pdesmas_cloud.State.StateVariable.Walk.{value_at, current, read_without_record-current}
use pdesmas_cloud.Types.Value.{AbstractValue}

pub value_at-read_without_record :
    (t : ℕ) (h : History) → (read_without_record t h).1 ≡ value_at t h
unfolding value_at
value_at-read_without_record t h =
    ap (λ (x : ℕ × Option AbstractValue). x.1) (read_without_record-current t h)
    ∙ elim (Option-cases (current t h)) [
      | inl n ↦ rw (value_at, n)
      | inr (w, there) ↦ rw (value_at, there)
    ]

status-cases : (s : WriteStatus) → (s ≡ write_success) ⊎ (s ≡ write_failure)
status-cases write_success = inl refl
status-cases write_failure = inr refl

-- A write behind a read, refused or not, against the value that was read.
pub write-outcome :
    (reader writer : LpId) (t s : ℕ) (v seen : Option AbstractValue) (h h' : History)
    → IsChain h
    → t < long_max
    → StateVariable.read reader t h ≡ some (h', seen)
    → (value_at t (write_with_rollback writer v s h' []).0 ≡ seen)
      ⊎ Covers reader t (write_with_rollback writer v s h' []).2
write-outcome reader writer t s v seen h h' chain bound e =
    elim (status-cases (write_with_rollback writer v s h' []).1) [
      | inl done ↦ write-read reader writer s t v seen h h' [] chain bound e done
      | inr refused ↦
          let (value, same) = read-read_without_record reader t t h h' seen e in
          inl (
            rw refused at (
              value_at-write_with_rollback t s writer v h' []
                (read-IsChain reader t h h' seen chain e) bound)
            ∙ sym (value_at-read_without_record t h')
            ∙ ap (λ x. x.1) same
            ∙ sym value)
    ]
