-- ===== src/State/StateVariable/Values.antt =====
-- The operations of StateVariable.cpp against the history as a function of time.
use pdesmas_cloud.Base.{
  ℕ, ◌≤◌, ◌<◌, ◌≡◌, ◌≢◌, refl, ◌∙◌, List, [], ◌∷◌, ◌++◌, Option, none, some, leb, ltb,
  if◌then◌else◌, long_max, arith, ◌&&◌,
}
use mathlib.Core.List.{append-nil}
use pdesmas_cloud.State.WritePeriod.{WritePeriod}
use pdesmas_cloud.State.StateVariable.{erase_period, set_last_end}
use pdesmas_cloud.State.StateVariable.Walk.{Later, current, value_at, current-append, current-Later}
use pdesmas_cloud.State.StateVariable.Chain.{IsChain, Meets}

module _ {V : Type 0} where
  abbrev value_of : Option (WritePeriod V) → Option V
  value_of none = none
  value_of (some w) = w.value

  -- Starts rise along a chain, so nothing is current before the first start.
  pub Later-of-chain :
      (t : ℕ) (w : WritePeriod V) (ws : List (WritePeriod V))
      → IsChain (w ∷ ws)
      → t < w.start_time
      → Later t (w ∷ ws)
  Later-of-chain t w [] h lt = (lt, tt)
  Later-of-chain t w (w' ∷ ws) h lt = (lt, Later-of-chain t w' ws h.1 (omega arith))

  -- From its start on, some period is current.
  current-ne-none :
      (t : ℕ) (w : WritePeriod V) (ws : List (WritePeriod V))
      → w.start_time ≤ t
      → current t (w ∷ ws) ≢ none
  unfolding current
  current-ne-none t w ws h = ground arith

  value_at-append :
      (t : ℕ) (xs ys : List (WritePeriod V))
      → value_at t (xs ++ ys) ≡ elim (current t ys) [ some w ↦ w.value | none ↦ value_at t xs ]
  unfolding value_at
  value_at-append t xs ys = ground (arith, current-append t xs ys)

  -- Where a new period is inserted behind `w`, the values from its start up to the next start are
  -- new, and no other.
  pub value_at-split :
      (s t e : ℕ) (v : Option V) (xs : List (WritePeriod V)) (w w' n : WritePeriod V)
      (ys : List (WritePeriod V))
      → IsChain ys
      → Meets w.start_time e ys
      → w.start_time ≤ t
      → (w'.start_time ≡ w.start_time) × (w'.value ≡ w.value)
      → (n.start_time ≡ t) × (n.value ≡ v)
      → Later t ys
      → s < long_max
      → value_at s (xs ++ w' ∷ n ∷ ys)
        ≡ (if leb t s && ltb s e then v else value_at s (xs ++ w ∷ ys))
  unfolding current value_at
  value_at-split s t e v xs w w' n [] h m early same new later bound =
      ground (arith, current-append s xs (w' ∷ n ∷ []), current-append s xs (w ∷ []))
  value_at-split s t e v xs w w' n (y ∷ ys) h m early same new later bound = ground (
    arith,
    current-append s xs (w' ∷ n ∷ y ∷ ys),
    current-append s xs (w ∷ y ∷ ys),
    λ (lt : s < y.start_time). current-Later s (y ∷ ys) (Later-of-chain s y ys h lt),
  )

  -- The value of the current period, if there is one.
  seen : ℕ → List (WritePeriod V) → Option (Option V)
  seen t [] = none
  seen t (w ∷ ws) = elim (seen t ws) [
    | some v ↦ some v
    | none ↦ if leb w.start_time t then some w.value else none
  ]

  seen-current :
      (t : ℕ) (ws : List (WritePeriod V))
      → seen t ws ≡ elim (current t ws) [ some w ↦ some w.value | none ↦ none ]
  unfolding seen current
  seen-current t [] = refl
  seen-current t (w ∷ ws) = ground (arith, seen-current t ws)

  value_at-seen :
      (t : ℕ) (xs ys : List (WritePeriod V)) → seen t xs ≡ seen t ys → value_at t xs ≡ value_at t ys
  unfolding value_at
  value_at-seen t xs ys h = ground (arith, seen-current t xs, seen-current t ys)

  seen-set_last_end : (s t : ℕ) (ws : List (WritePeriod V)) → seen s (set_last_end t ws) ≡ seen s ws
  unfolding set_last_end seen
  seen-set_last_end s t [] = refl
  seen-set_last_end s t (w ∷ []) = refl
  seen-set_last_end s t (w ∷ w' ∷ ws) = rw (seen-set_last_end s t (w' ∷ ws), seen)

  seen-append :
      (t : ℕ) (xs ys : List (WritePeriod V))
      → seen t (xs ++ ys) ≡ elim (seen t ys) [ some v ↦ some v | none ↦ seen t xs ]
  unfolding seen
  seen-append t [] ys = ground arith
  seen-append t (x ∷ xs) ys = ground (arith, seen-append t xs ys)

  -- What is set of the ends of periods does not change a value.
  seen-erase_period :
      (s : ℕ) (xs : List (WritePeriod V)) (w : WritePeriod V) (ys : List (WritePeriod V))
      → seen s (erase_period (record { before = xs; period = w; after = ys })) ≡ seen s (xs ++ ys)
  unfolding erase_period
  seen-erase_period s [] w ys = refl
  seen-erase_period s (x ∷ xs) w [] = seen-set_last_end s long_max (x ∷ xs) ∙ rw append-nil
  seen-erase_period s (x ∷ xs) w (y ∷ ys) = ground (
    arith,
    seen-append s (set_last_end w.end_time (x ∷ xs)) (y ∷ ys),
    seen-append s (x ∷ xs) (y ∷ ys),
    seen-set_last_end s w.end_time (x ∷ xs),
  )

  pub value_at-erase_period :
      (s : ℕ) (xs : List (WritePeriod V)) (w : WritePeriod V) (ys : List (WritePeriod V))
      → value_at s (erase_period (record { before = xs; period = w; after = ys }))
        ≡ value_at s (xs ++ ys)
  value_at-erase_period s xs w ys = value_at-seen s _ (xs ++ ys) (seen-erase_period s xs w ys)

  -- A period in the middle counts by its start and its value only.
  pub value_at-same :
      (s : ℕ) (xs : List (WritePeriod V)) (w w' : WritePeriod V) (ys : List (WritePeriod V))
      → w'.start_time ≡ w.start_time
      → w'.value ≡ w.value
      → value_at s (xs ++ w' ∷ ys) ≡ value_at s (xs ++ w ∷ ys)
  unfolding value_at current
  value_at-same s xs w w' ys e e' =
      ground (arith, current-append s xs (w ∷ ys), current-append s xs (w' ∷ ys))
