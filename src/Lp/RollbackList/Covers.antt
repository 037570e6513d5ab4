-- ===== src/Lp/RollbackList/Covers.antt =====
-- What RollbackList.cpp keeps of a request to roll back.
use pdesmas_cloud.Base.{
  ℕ, ◌≤◌, ◌≡◌, ◌⊎◌, inl, inr, true, List, [], ◌∷◌, none, some, arith, refl, Option-cases, Any, map,
  ◌≢◌,
}
use pdesmas_cloud.Lp.LpId.{LpId, lp_lt, lp_equiv}
use pdesmas_cloud.Lp.RollbackList.{RollbackList, find, replace, insert_new, add_lp}

-- An entry under a key that the map takes for the agent's, and not after the time.
abbrev pub Covers : LpId → ℕ → RollbackList → Type 0
Covers lp t [] = ⊥
Covers lp t ((k, u) ∷ l) = ((lp_equiv k lp ≡ true) × (u ≤ t)) ⊎ Covers lp t l

lp_equiv_self : (a : LpId) → lp_equiv a a ≡ true
unfolding lp_equiv lp_lt
lp_equiv_self a = ground arith

insert_new-Covers_self : (lp : LpId) (t : ℕ) (l : RollbackList) → Covers lp t (insert_new lp t l)
unfolding insert_new
insert_new-Covers_self lp t [] = inl (lp_equiv_self lp, omega arith)
insert_new-Covers_self lp t ((k, u) ∷ l) =
    ground (arith, lp_equiv_self lp, insert_new-Covers_self lp t l)

insert_new-Covers :
    (lp a : LpId) (t s : ℕ) (l : RollbackList) → Covers a s l → Covers a s (insert_new lp t l)
unfolding insert_new
insert_new-Covers lp a t s [] c = absurd c
insert_new-Covers lp a t s ((k, u) ∷ l) c = ground (arith, insert_new-Covers lp a t s l)

replace-Covers_self :
    (lp : LpId) (t : ℕ) (l : RollbackList) → find lp l ≢ none → Covers lp t (replace lp t l)
unfolding replace find
replace-Covers_self lp t [] h = h refl
replace-Covers_self lp t ((k, u) ∷ l) h = ground (arith, replace-Covers_self lp t l)

replace-Covers :
    (lp a : LpId) (t s u : ℕ) (l : RollbackList)
    → find lp l ≡ some u
    → t ≤ u
    → Covers a s l
    → Covers a s (replace lp t l)
unfolding replace find
replace-Covers lp a t s u [] e le c = absurd c
replace-Covers lp a t s u ((k, w) ∷ l) e le c = ground (arith, replace-Covers lp a t s u l)

find-Covers : (lp : LpId) (t u : ℕ) (l : RollbackList) → find lp l ≡ some u → u ≤ t → Covers lp t l
unfolding find
find-Covers lp t u [] e h = cc
find-Covers lp t u ((k, w) ∷ l) e h = ground (arith, find-Covers lp t u l)

-- After `AddLp` the list has an entry under the key of the given agent, not after the given time.
pub add_lp-Covers_self : (lp : LpId) (t : ℕ) (l : RollbackList) → Covers lp t (add_lp lp t l)
unfolding add_lp
add_lp-Covers_self lp t l = elim (Option-cases (find lp l)) [
  | inl new ↦ rw (new, add_lp) (insert_new-Covers_self lp t l)
  | inr (u, old) ↦ ground (arith, replace-Covers_self lp t l (λ e. cc), find-Covers lp t u l)
]

-- Where the list has an entry under the key of an agent at a time or before, `AddLp` of any agent and
-- time leaves one, where the key of an agent is what the map takes for it.
pub add_lp-Covers :
    (lp a : LpId) (t s : ℕ) (l : RollbackList) → Covers a s l → Covers a s (add_lp lp t l)
unfolding add_lp
add_lp-Covers lp a t s l c = elim (Option-cases (find lp l)) [
  | inl new ↦ rw (new, add_lp) (insert_new-Covers lp a t s l c)
  | inr (u, old) ↦ ground (arith, replace-Covers lp a t s u l old)
]

-- Agents of one process are one key: `operator<` wants both fields to differ the same way.
lp_equiv_rank : (a b : LpId) → a.rank ≡ b.rank → lp_equiv a b ≡ true
unfolding lp_equiv lp_lt
lp_equiv_rank a b e = ground arith

-- Some entry stands under this rank.
abbrev pub HasRank : ℕ → RollbackList → Type 0
HasRank r = Any (λ e. e.0.rank ≡ r)

find_rank : (lp : LpId) (l : RollbackList) → HasRank lp.rank l → find lp l ≢ none
unfolding find
find_rank lp [] h = absurd h.lower
find_rank lp ((k, t) ∷ l) (inl e) = ground (arith, lp_equiv_rank k lp e)
find_rank lp ((k, t) ∷ l) (inr h) = ground (arith, find_rank lp l h)

-- The agents that are told to roll back.
abbrev pub agents : RollbackList → List LpId
agents = map (λ e. e.0)

agents-replace : (lp : LpId) (t : ℕ) (l : RollbackList) → agents (replace lp t l) ≡ agents l
unfolding replace
agents-replace lp t [] = refl
agents-replace lp t ((k, u) ∷ l) = ground (arith, agents-replace lp t l)

-- Where the list has an entry under the rank of an agent, `AddLp` of that agent leaves the agents
-- that are listed as they are, so that it adds no other agent of a process that is there.
pub agents-add_lp :
    (lp : LpId) (t : ℕ) (l : RollbackList) → HasRank lp.rank l → agents (add_lp lp t l) ≡ agents l
unfolding add_lp
agents-add_lp lp t l h = ground (arith, agents-replace lp t l, find_rank lp l h)
