-- ===== src/State/SharedState/Box.antt =====
-- The range that SharedState.cpp recalculates, against the points of the hosted variables.
use pdesmas_cloud.Base.{
  ℕ, ◌≡◌, ◌⊎◌, inl, inr, [], ◌∷◌, Option, none, some, true, arith, All, Any, Option-cases, subst,
}
use pdesmas_cloud.Base.Int.{ltb_ℤ, ◌≤ℤ◌}
use pdesmas_cloud.Base.NatMap.{NatMap}
use pdesmas_cloud.State.StateVariable.{read_without_record}
use pdesmas_cloud.State.SharedState.{SharedState, History, range_from, recalculate_range}
use pdesmas_cloud.Types.Point.{Point, min, max, is_max, same_int, int_max}
use pdesmas_cloud.Types.Range.{Range}
use pdesmas_cloud.Types.Range.Overlap.{Contains}
use pdesmas_cloud.Types.Value.{point_of}

-- Both coordinates are less than INT_MAX.
abbrev pub IsBelow : Point → Type 0
IsBelow p = (ltb_ℤ p.x int_max ≡ true) × (ltb_ℤ p.y int_max ≡ true)

abbrev Join : Range → Point → Range
Join r p = record {
  min_range_value = min r.min_range_value p;
  max_range_value = max r.max_range_value p;
}

abbrev AreBelow : Range → Type 0
AreBelow r = IsBelow r.min_range_value × IsBelow r.max_range_value

min-IsBelow : (a b : Point) → IsBelow a → IsBelow b → IsBelow (min a b)
unfolding min is_max same_int
min-IsBelow a b h k = ground arith

max-IsBelow : (a b : Point) → IsBelow a → IsBelow b → IsBelow (max a b)
unfolding max is_max same_int
max-IsBelow a b h k = ground arith

min-le :
    (a b : Point)
    → IsBelow a
    → IsBelow b
    → ((min a b).x ≤ℤ a.x) × ((min a b).y ≤ℤ a.y) × ((min a b).x ≤ℤ b.x) × ((min a b).y ≤ℤ b.y)
unfolding min is_max same_int
min-le a b h k = ground arith

max-le :
    (a b : Point)
    → IsBelow a
    → IsBelow b
    → (a.x ≤ℤ (max a b).x) × (a.y ≤ℤ (max a b).y) × (b.x ≤ℤ (max a b).x) × (b.y ≤ℤ (max a b).y)
unfolding max is_max same_int
max-le a b h k = ground arith

-- The range that is found so far holds the point.
abbrev pub HoldsPoint : Option Range → Point → Type 0
HoldsPoint none p = ⊥
HoldsPoint (some r) p = Contains r p

-- The point is the value of some variable at the time, and no such point is at INT_MAX.
abbrev pub HasPoint : ℕ → Point → NatMap History → Type 0
HasPoint t p = Any (λ e. point_of (read_without_record t e.1).1 ≡ some p)

abbrev pub PointsBelow : ℕ → NatMap History → Type 0
PointsBelow t = All (λ e. (p : Point) → point_of (read_without_record t e.1).1 ≡ some p → IsBelow p)

Join-Contains :
    (r : Range) (q p : Point) → AreBelow r → IsBelow q → Contains r p → Contains (Join r q) p
Join-Contains r q p h k c =
    omega (arith, min-le r.min_range_value q h.0 k, max-le r.max_range_value q h.1 k)

Join-Contains_new : (r : Range) (q : Point) → AreBelow r → IsBelow q → Contains (Join r q) q
Join-Contains_new r q h k =
    omega (arith, min-le r.min_range_value q h.0 k, max-le r.max_range_value q h.1 k)

-- What is left to look for behind a history without a point, and behind one with a point.
skipped :
    (r : Range) (p : Point) (t : ℕ) (h : History) (m : NatMap History)
    → point_of (read_without_record t h).1 ≡ none
    → Contains r p ⊎ ((point_of (read_without_record t h).1 ≡ some p) ⊎ HasPoint t p m)
    → Contains r p ⊎ HasPoint t p m
skipped r p t h m n (inl c) = inl c
skipped r p t h m n (inr (inl e)) = cc
skipped r p t h m n (inr (inr later)) = inr later

joined :
    (r : Range) (q p : Point) (t : ℕ) (h : History) (m : NatMap History)
    → AreBelow r
    → IsBelow q
    → point_of (read_without_record t h).1 ≡ some q
    → Contains r p ⊎ ((point_of (read_without_record t h).1 ≡ some p) ⊎ HasPoint t p m)
    → Contains (Join r q) p ⊎ HasPoint t p m
joined r q p t h m below k e (inl c) = inl (Join-Contains r q p below k c)
joined r q p t h m below k e (inr (inl e')) =
    let same : q ≡ p = cc in inl (subst (Contains (Join r q)) same (Join-Contains_new r q below k))
joined r q p t h m below k e (inr (inr later)) = inr later

range_from-Contains :
    (t : ℕ) (m : NatMap History) (r : Range) (p : Point)
    → AreBelow r
    → PointsBelow t m
    → Contains r p ⊎ HasPoint t p m
    → HoldsPoint (range_from t (some r) m) p
unfolding range_from
range_from-Contains t [] r p below all (inl c) = c
range_from-Contains t [] r p below all (inr h) = absurd h.lower
range_from-Contains t ((ssv, h) ∷ m) r p below all c =
    elim (Option-cases (point_of (read_without_record t h).1)) [
      | inl n ↦
          let c' : Contains r p ⊎ HasPoint t p m = skipped r p t h m n c in
          rw (n, range_from) (range_from-Contains t m r p below all.1 c')
      | inr (q, e) ↦
          let k = all.0 q e in
          let below' : AreBelow (Join r q) = (
            min-IsBelow r.min_range_value q below.0 k,
            max-IsBelow r.max_range_value q below.1 k,
          ) in
          let c' : Contains (Join r q) p ⊎ HasPoint t p m = joined r q p t h m below k e c in
          rw (e, range_from) (range_from-Contains t m (Join r q) p below' all.1 c')
    ]

left_out :
    (t : ℕ) (p : Point) (h : History) (m : NatMap History)
    → point_of (read_without_record t h).1 ≡ none
    → (point_of (read_without_record t h).1 ≡ some p) ⊎ HasPoint t p m
    → HasPoint t p m
left_out t p h m n (inl e) = cc
left_out t p h m n (inr later) = later

started_at :
    (q p : Point) (t : ℕ) (h : History) (m : NatMap History)
    → point_of (read_without_record t h).1 ≡ some q
    → (point_of (read_without_record t h).1 ≡ some p) ⊎ HasPoint t p m
    → Contains (record { min_range_value = q; max_range_value = q }) p ⊎ HasPoint t p m
started_at q p t h m e (inl e') = let same : p ≡ q = cc in inl (rw same (omega arith))
started_at q p t h m e (inr later) = inr later

range_from-HoldsPoint :
    (t : ℕ) (m : NatMap History) (p : Point)
    → PointsBelow t m
    → HasPoint t p m
    → HoldsPoint (range_from t none m) p
unfolding range_from
range_from-HoldsPoint t [] p all has = absurd has.lower
range_from-HoldsPoint t ((ssv, h) ∷ m) p all has =
    elim (Option-cases (point_of (read_without_record t h).1)) [
      | inl n ↦ rw (n, range_from) (range_from-HoldsPoint t m p all.1 (left_out t p h m n has))
      | inr (q, e) ↦
          let k : IsBelow q = all.0 q e in
          let r : Range = record { min_range_value = q; max_range_value = q } in
          let c : Contains r p ⊎ HasPoint t p m = started_at q p t h m e has in
          rw (e, range_from) (range_from-Contains t m r p (k, k) all.1 c)
    ]

-- The range that is recalculated for a time holds the value at that time of every hosted variable
-- that has a point there, where no such point has a coordinate of INT_MAX or more.
pub recalculate_range-HoldsPoint :
    (t : ℕ) (p : Point) (s : SharedState)
    → PointsBelow t s.state_variable_map
    → HasPoint t p s.state_variable_map
    → HoldsPoint (recalculate_range t s) p
unfolding recalculate_range
recalculate_range-HoldsPoint t p s all has = range_from-HoldsPoint t s.state_variable_map p all has
