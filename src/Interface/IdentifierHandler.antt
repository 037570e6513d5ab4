-- ===== src/Interface/IdentifierHandler.antt =====
-- interface/IdentifierHandler.{h,cpp}: the source of message identifiers of one ALP. Every call is
-- made under the lock, so calls are one after the other.
mod Tests
use pdesmas_cloud.Base.{
  ℕ, zero, suc, ◌+◌, ◌-◌, ◌*◌, ◌%◌, ◌^◌, ◌≤◌, ◌<◌, ◌≡◌, ◌≢◌, ◌⊎◌, inl, inr, refl, ltb,
  if◌then◌else◌, ulong_max, arith, Bool-cases, sym, ◌∙◌,
}

pub record IdentifierHandler : Type 0 where
  pub initial_id : ℕ
  pub additional : ℕ
  pub last_id : ℕ

-- The constructor; the difference of the two ranks is an `unsigned int`.
unfoldable pub new_identifier_handler : ℕ → ℕ → ℕ → IdentifierHandler
new_identifier_handler rank number_of_clps number_of_alps =
    let initial = (rank + (2 ^ 32 - number_of_clps)) % 2 ^ 32 in
    record { initial_id = initial; additional = number_of_alps; last_id = initial }

unfoldable pub get_next_id : IdentifierHandler → IdentifierHandler × ℕ
get_next_id h =
    let t =
      if ltb (ulong_max - h.additional) h.last_id then h.initial_id else h.last_id + h.additional in
    (record h { last_id = t }, t)

unfoldable pub get_last_id : IdentifierHandler → ℕ
get_last_id h = h.last_id

-- The handler after a number of calls.
unfoldable pub after_calls : ℕ → IdentifierHandler → IdentifierHandler
after_calls zero h = h
after_calls (suc n) h = (get_next_id (after_calls n h)).0

-- The first identifier and a number of steps.
abbrev pub stepped : ℕ → ℕ → ℕ → ℕ
stepped d a zero = a
stepped d a (suc k) = stepped d a k + d

abbrev HasSteps : IdentifierHandler → IdentifierHandler → Type 0
HasSteps h h' =
    ((k : ℕ) × (h'.last_id ≡ stepped h.additional h.initial_id k))
    × (h'.initial_id ≡ h.initial_id)
    × (h'.additional ≡ h.additional)

get_next_id-HasSteps : (h h' : IdentifierHandler) → HasSteps h h' → HasSteps h (get_next_id h').0
unfolding get_next_id
get_next_id-HasSteps h h' ((k, e), i, a) =
    elim (Bool-cases (ltb (ulong_max - h'.additional) h'.last_id)) [
      | inl wraps ↦ ((zero, ground arith), i, a)
      | inr fits ↦ ((suc k, ground arith), i, a)
    ]

after_calls-HasSteps :
    (n : ℕ) (h : IdentifierHandler) → h.last_id ≡ h.initial_id → HasSteps h (after_calls n h)
unfolding after_calls
after_calls-HasSteps zero h e = ((zero, e), refl, refl)
after_calls-HasSteps (suc n) h e =
    get_next_id-HasSteps h (after_calls n h) (after_calls-HasSteps n h e)

stepped-le : (d a k : ℕ) → a ≤ stepped d a k
stepped-le d a zero = omega arith
stepped-le d a (suc k) = omega (arith, stepped-le d a k)

stepped_apart : (d a b k j : ℕ) → a < d → b < d → stepped d a k ≡ stepped d b j → a ≡ b
stepped_apart d a b zero zero la lb e = e
stepped_apart d a b (suc k) zero la lb e = omega arith
stepped_apart d a b zero (suc j) la lb e = omega arith
stepped_apart d a b (suc k) (suc j) la lb e = stepped_apart d a b k j la lb (omega arith)

-- Two ALPs of different rank, in a simulation of fewer than 2^32 processes where the ALPs have the
-- ranks behind those of the CLPs, never stand at the same identifier, however many calls each has
-- had and whether or not the count has gone round.
pub get_last_id-after_calls :
    (clps alps rank rank' n m : ℕ)
    → clps + alps < 2 ^ 32
    → clps ≤ rank
    → rank < clps + alps
    → clps ≤ rank'
    → rank' < clps + alps
    → rank ≢ rank'
    → get_last_id (after_calls n (new_identifier_handler rank clps alps))
      ≢ get_last_id (after_calls m (new_identifier_handler rank' clps alps))
unfolding get_last_id new_identifier_handler
get_last_id-after_calls clps alps rank rank' n m fits l u l' u' other same =
    let h = new_identifier_handler rank clps alps in
    let h' = new_identifier_handler rank' clps alps in
    let ((k, e), _, _) = after_calls-HasSteps n h refl in
    let ((j, e'), _, _) = after_calls-HasSteps m h' refl in
    let i : h.initial_id ≡ rank - clps = omega arith in
    let i' : h'.initial_id ≡ rank' - clps = omega arith in
    let meet : stepped alps h.initial_id k ≡ stepped alps h'.initial_id j = sym e ∙ same ∙ e' in
    let a : h.initial_id ≡ h'.initial_id =
      stepped_apart alps h.initial_id h'.initial_id k j (omega arith) (omega arith) meet in
    other (omega arith)
