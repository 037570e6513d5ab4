-- ===== src/Base/NatMap.antt =====
-- `std::map` under keys that are unsigned numbers, as the list of its entries in iteration order.
use pdesmas_cloud.Base.Tests.{ltb, ◌==◌, if◌then◌else◌}
use Prim.Native.Nat.{ℕ}
use mathlib.Core.List.{List, [], ◌∷◌}
use mathlib.Core.Option.{Option, none, some}
use mathlib.Core.Path.{◌≡◌, refl}
use native.Mathlib.Omega.{arith}

module _ {ℓ} (V : Type ℓ) where
  abbrev pub NatMap : Type ℓ
  NatMap = List (ℕ × V)

module _ {ℓ} {V : Type ℓ} where
  -- `find`: `none` is `end()`.
  unfoldable pub find : ℕ → NatMap V → Option V
  find k [] = none
  find k ((j, v) ∷ m) = if j == k then some v else find k m

  -- `m[k] = v`.
  unfoldable pub assign : ℕ → V → NatMap V → NatMap V
  assign k v [] = (k, v) ∷ []
  assign k v ((j, w) ∷ m) =
      if ltb k j then (k, v) ∷ (j, w) ∷ m else if j == k then (k, v) ∷ m else (j, w) ∷ assign k v m

  -- `m.insert(make_pair(k, v))`: a key that is there keeps its value.
  unfoldable pub insert : ℕ → V → NatMap V → NatMap V
  unfolding find assign
  insert k v m = elim (find k m) [ none ↦ assign k v m | some _ ↦ m ]

  -- `m.erase(k)`: the keys of a map are distinct, so one entry goes at most.
  unfoldable pub erase : ℕ → NatMap V → NatMap V
  erase k [] = []
  erase k ((j, v) ∷ m) = if j == k then erase k m else (j, v) ∷ erase k m

  pub find-assign :
      (k j : ℕ) (v : V) (m : NatMap V)
      → find j (assign k v m) ≡ (if k == j then some v else find j m)
  unfolding find assign
  find-assign k j v [] = refl
  find-assign k j v ((i, w) ∷ m) = ground (arith, find-assign k j v m)

  pub find-insert :
      (k j : ℕ) (v : V) (m : NatMap V)
      → find j (insert k v m)
        ≡ (if k == j then elim (find k m) [ none ↦ some v | some w ↦ some w ] else find j m)
  unfolding insert
  find-insert k j v m = ground (arith, find-assign k j v m)

  pub find-erase :
      (k j : ℕ) (m : NatMap V) → find j (erase k m) ≡ (if k == j then none else find j m)
  unfolding find erase
  find-erase k j [] = ground arith
  find-erase k j ((i, w) ∷ m) = ground (arith, find-erase k j m)

-- What the operations of a map do to `find`.
pub ruleset map_laws = (arith, find-assign, find-insert, find-erase)
