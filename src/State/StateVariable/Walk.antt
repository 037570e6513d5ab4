-- ===== src/State/StateVariable/Walk.antt =====
-- What the walks of StateVariable.cpp find, and the period that is current at a time.
use pdesmas_cloud.Base.{
  ℕ, ◌≤◌, ◌<◌, ◌≡◌, refl, ap, inl, inr, List, [], ◌∷◌, ◌++◌, Option, none, some, leb, All,
  if◌then◌else◌, ulong_max, arith, Option-cases,
}
use pdesmas_cloud.State.WritePeriod.{WritePeriod}
use pdesmas_cloud.State.StateVariable.{Place, walk_back, close, read_without_record}

module _ {ℓ} {V : Type ℓ} where
  -- The last period that starts at `t` or before.
  unfoldable pub current : ℕ → List (WritePeriod V) → Option (WritePeriod V)
  current t [] = none
  current t (w ∷ ws) = elim (current t ws) [
    | some u ↦ some u
    | none ↦ if leb w.start_time t then some w else none
  ]

  -- The history seen as a function of time: the value of that period.
  unfoldable pub value_at : ℕ → List (WritePeriod V) → Option V
  unfolding current
  value_at t ws = elim (current t ws) [ some w ↦ w.value | none ↦ none ]

  abbrev pub or_else : Option (WritePeriod V) → Option (WritePeriod V) → Option (WritePeriod V)
  or_else (some w) o = some w
  or_else none o = o

  abbrev pub Later : ℕ → List (WritePeriod V) → Type 0
  Later t = All (λ w. t < w.start_time)

  pub walk_back-none : (t : ℕ) (ws : List (WritePeriod V)) → walk_back t ws ≡ none → Later t ws
  unfolding walk_back
  walk_back-none t [] e = tt
  walk_back-none t (w ∷ ws) e = elim (Option-cases (walk_back t ws)) [
    | inl n ↦ (ground arith, walk_back-none t ws n)
    | inr (p, s) ↦ ground arith
  ]

  pub walk_back-some :
      (t : ℕ) (ws : List (WritePeriod V)) (p : Place V)
      → walk_back t ws ≡ some p
      → (close p ≡ ws) × (p.period.start_time ≤ t) × Later t p.after
  unfolding walk_back
  walk_back-some t [] p e = cc
  walk_back-some t (w ∷ ws) p e = elim (Option-cases (walk_back t ws)) [
    | inl n ↦ ground (arith, walk_back-none t ws n)
    | inr (q, s) ↦ ground (arith, walk_back-some t ws q s)
  ]

  pub walk_back-Later : (t : ℕ) (ws : List (WritePeriod V)) → Later t ws → walk_back t ws ≡ none
  unfolding walk_back
  walk_back-Later t [] h = refl
  walk_back-Later t (w ∷ ws) h = ground (arith, walk_back-Later t ws h.1)

  pub walk_back-close :
      (t : ℕ) (xs : List (WritePeriod V)) (w : WritePeriod V) (ys : List (WritePeriod V))
      → w.start_time ≤ t
      → Later t ys
      → walk_back t (xs ++ w ∷ ys) ≡ some (record { before = xs; period = w; after = ys })
  unfolding walk_back
  walk_back-close t [] w ys h later = ground (arith, walk_back-Later t ys later)
  walk_back-close t (x ∷ xs) w ys h later = rw (walk_back-close t xs w ys h later, walk_back)

  pub current-append :
      (t : ℕ) (xs ys : List (WritePeriod V))
      → current t (xs ++ ys) ≡ or_else (current t ys) (current t xs)
  unfolding current
  current-append t [] ys = ground arith
  current-append t (x ∷ xs) ys = ground (arith, current-append t xs ys)

  pub current-Later : (t : ℕ) (ws : List (WritePeriod V)) → Later t ws → current t ws ≡ none
  unfolding current
  current-Later t [] h = refl
  current-Later t (w ∷ ws) h = ground (arith, current-Later t ws h.1)

  -- `ReadWithoutRecord` reads the current period.
  pub read_without_record-current :
      (t : ℕ) (ws : List (WritePeriod V))
      → read_without_record t ws
        ≡ elim (current t ws) [ some w ↦ (w.end_time, w.value) | none ↦ (ulong_max, none) ]
  unfolding read_without_record current
  read_without_record-current t ws = elim (Option-cases (walk_back t ws)) [
    | inl n ↦ ground (arith, current-Later t ws (walk_back-none t ws n))
    | inr (p, s) ↦
        let (closed, early, later) = walk_back-some t ws p s in
        ground (
          arith,
          current-append t p.before (p.period ∷ p.after),
          current-Later t p.after later,
          ap (current t) closed,
        )
  ]
