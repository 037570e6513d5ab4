-- ===== src/Lp/GvtCalculator/Bounds.antt =====
-- The GVT that a round of GvtCalculator.cpp finds, against the times of the LPs of the ring.
use pdesmas_cloud.Base.{
  ℕ, zero, suc, ◌≤◌, ◌≡◌, refl, ◌∙◌, ◌↔◌, List, [], ◌∷◌, Option, none, some, false, arith, All,
  long_max, Option-cases, inl, inr,
}
use pdesmas_cloud.Messages.Gvt.{GvtControlMessage, set_message_count}
use pdesmas_cloud.Lp.GvtCalculator.{
  LpInfo, GvtCalculator, Effects, process_first_cut, process_second_cut, add_counts, lower_minimum,
  send_and_set_gvt, gvt_of,
}

-- An LP of the ring at the moment at which the control message is there.
pub record Station : Type 0 where
  pub lp : LpInfo
  pub lvt : ℕ
  pub calculator : GvtCalculator

-- The control message after the first cut at some LPs, and after the second one at some LPs that
-- have each received what they wait for.
unfoldable pub after_first_cut : List Station → GvtControlMessage → Option GvtControlMessage
after_first_cut [] m = some m
after_first_cut (s ∷ ss) m = elim (process_first_cut s.lp s.lvt m s.calculator).control [
  | none ↦ none
  | some m' ↦ after_first_cut ss m'
]

unfoldable pub after_second_cut : List Station → GvtControlMessage → Option GvtControlMessage
after_second_cut [] m = some m
after_second_cut (s ∷ ss) m = elim (process_second_cut s.lp s.lvt m s.calculator) [
  | none ↦ none
  | some e ↦ elim e.control [ none ↦ none | some m' ↦ after_second_cut ss m' ]
]

abbrev pub AllPass : List Station → Type 0
AllPass = All (λ s. s.calculator.is_gvt_starter ≡ false)

-- No LP of these is before a time, and none has sent a red message before it.
abbrev pub LvtsFrom : ℕ → List Station → Type 0
LvtsFrom b = All (λ s. b ≤ s.lvt)

abbrev pub RedsFrom : ℕ → List Station → Type 0
RedsFrom b = All (λ s. b ≤ s.calculator.red_time)

abbrev Same : GvtControlMessage → GvtControlMessage → Type 0
Same m m' =
    (m'.message_minimum_time ≡ m.message_minimum_time) × (m'.red_message_time ≡ m.red_message_time)

add_counts-Same : (n : ℕ) (g : GvtCalculator) (m : GvtControlMessage) → Same m (add_counts n g m)
unfolding add_counts set_message_count
add_counts-Same zero g m = (refl, refl)
add_counts-Same (suc n) g m = add_counts-Same n g m

-- What one LP that is not the starter does to the two times.
first_cut-pass :
    (s : Station) (m m' : GvtControlMessage)
    → s.calculator.is_gvt_starter ≡ false
    → (process_first_cut s.lp s.lvt m s.calculator).control ≡ some m'
    → ((b : ℕ) → (b ≤ m'.message_minimum_time) ↔ ((b ≤ m.message_minimum_time) × (b ≤ s.lvt)))
      × (m'.red_message_time ≡ m.red_message_time)
unfolding process_first_cut lower_minimum
first_cut-pass s m m' pass e =
    let (low, red) = add_counts-Same s.lp.size s.calculator (lower_minimum s.lvt m) in
    (λ b. ground arith, ground arith)

second_cut-pass :
    (s : Station) (m m' : GvtControlMessage) (e : Effects)
    → s.calculator.is_gvt_starter ≡ false
    → process_second_cut s.lp s.lvt m s.calculator ≡ some e
    → e.control ≡ some m'
    → ((b : ℕ) → (b ≤ m'.message_minimum_time) ↔ ((b ≤ m.message_minimum_time) × (b ≤ s.lvt)))
      × ((b : ℕ)
          → (b ≤ m'.red_message_time) ↔ ((b ≤ m.red_message_time) × (b ≤ s.calculator.red_time)))
unfolding process_second_cut lower_minimum set_message_count
second_cut-pass s m m' e pass done c = (λ b. ground arith, λ b. ground arith)

-- The times of the message after the cuts at some LPs, none of which is the starter.
pub after_first_cut-LvtsFrom :
    (ss : List Station) (m m' : GvtControlMessage)
    → AllPass ss
    → after_first_cut ss m ≡ some m'
    → ((b : ℕ) → (b ≤ m'.message_minimum_time) ↔ ((b ≤ m.message_minimum_time) × LvtsFrom b ss))
      × (m'.red_message_time ≡ m.red_message_time)
unfolding after_first_cut
after_first_cut-LvtsFrom [] m m' pass e = (λ b. ground arith, ground arith)
after_first_cut-LvtsFrom (s ∷ ss) m m' pass e =
    elim (Option-cases (process_first_cut s.lp s.lvt m s.calculator).control) [
      | inl n ↦ cc (rw (n, after_first_cut) at e)
      | inr (n, step) ↦
          let e' : after_first_cut ss n ≡ some m' = rw (step, after_first_cut) at e in
          let (low, red) = first_cut-pass s m n pass.0 step in
          let (low', red') = after_first_cut-LvtsFrom ss n m' pass.1 e' in
          (λ b. ground (arith, low b, low' b), red' ∙ red)
    ]

pub after_second_cut-LvtsFrom :
    (ss : List Station) (m m' : GvtControlMessage)
    → AllPass ss
    → after_second_cut ss m ≡ some m'
    → ((b : ℕ) → (b ≤ m'.message_minimum_time) ↔ ((b ≤ m.message_minimum_time) × LvtsFrom b ss))
      × ((b : ℕ) → (b ≤ m'.red_message_time) ↔ ((b ≤ m.red_message_time) × RedsFrom b ss))
unfolding after_second_cut
after_second_cut-LvtsFrom [] m m' pass e = (λ b. ground arith, λ b. ground arith)
after_second_cut-LvtsFrom (s ∷ ss) m m' pass e =
    elim (Option-cases (process_second_cut s.lp s.lvt m s.calculator)) [
      | inl n ↦ cc (rw (n, after_second_cut) at e)
      | inr (eff, done) ↦ elim (Option-cases eff.control) [
        | inl n ↦ cc (rw (done, n, after_second_cut) at e)
        | inr (n, step) ↦
            let e' : after_second_cut ss n ≡ some m' = rw (done, step, after_second_cut) at e in
            let (low, red) = second_cut-pass s m n eff pass.0 done step in
            let (low', red') = after_second_cut-LvtsFrom ss n m' pass.1 e' in
            (λ b. ground (arith, low b, low' b), λ b. ground (arith, red b, red' b))
      ]
    ]

-- A control message that starts with LONG_MAX as both its times passes LPs other than the starter
-- in the first cut; if the starter then sets a GVT, it is the least of LONG_MAX, the starter's LVT
-- and the LVTs of the LPs that were passed.
pub process_first_cut-LvtsFrom :
    (starter : Station) (ss : List Station) (m m' : GvtControlMessage) (v : ℕ)
    → AllPass ss
    → m.message_minimum_time ≡ long_max
    → m.red_message_time ≡ long_max
    → after_first_cut ss m ≡ some m'
    → (process_first_cut starter.lp starter.lvt m' starter.calculator).gvt ≡ some v
    → (b : ℕ) → (b ≤ v) ↔ ((b ≤ long_max) × (b ≤ starter.lvt) × LvtsFrom b ss)
unfolding process_first_cut send_and_set_gvt gvt_of lower_minimum
process_first_cut-LvtsFrom starter ss m m' v pass lo hi round done b =
    let (low, red) = after_first_cut-LvtsFrom ss m m' pass round in
    let (same, same') =
      add_counts-Same starter.lp.size starter.calculator (lower_minimum starter.lvt m') in
    ground (arith, low b)

-- A control message passes LPs other than the starter in the second cut; if the starter then sets
-- a GVT, it is the least of the two times that the message came with, the LVTs at this cut and the
-- earliest times of the red messages of all these LPs and the starter.
pub process_second_cut-LvtsFrom :
    (starter : Station) (ss : List Station) (m m' : GvtControlMessage) (e : Effects) (v : ℕ)
    → AllPass ss
    → after_second_cut ss m ≡ some m'
    → process_second_cut starter.lp starter.lvt m' starter.calculator ≡ some e
    → e.gvt ≡ some v
    → (b : ℕ)
    → (b ≤ v) ↔ (
        (b ≤ m.message_minimum_time)
        × (b ≤ m.red_message_time)
        × LvtsFrom b (starter ∷ ss)
        × RedsFrom b (starter ∷ ss))
unfolding process_second_cut send_and_set_gvt gvt_of lower_minimum set_message_count
process_second_cut-LvtsFrom starter ss m m' e v pass round done set b =
    let (low, red) = after_second_cut-LvtsFrom ss m m' pass round in ground (arith, low b, red b)
