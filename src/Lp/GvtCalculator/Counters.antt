-- ===== src/Lp/GvtCalculator/Counters.antt =====
-- The counters of white messages that Lp.cpp keeps while messages are sent and received, against
-- the messages that are on their way.
use pdesmas_cloud.Base.{
  ℕ, zero, suc, ltb, ◌+◌, ◌≡◌, List, [], ◌∷◌, ◌++◌, some, ◌==◌, if◌then◌else◌, arith,
}
use pdesmas_cloud.Base.Int.{ℤ, pos, negsuc, pos_part, neg_part, ◌+ℤ◌, to_int}
use pdesmas_cloud.Base.NatMap.{map_laws}
use pdesmas_cloud.Types.Direction.{white, red}
use pdesmas_cloud.Messages.SharedStateMessage.{SimulationMessage}
use pdesmas_cloud.Messages.Gvt.{GvtControlMessage, get_message_count, set_message_count}
use pdesmas_cloud.Lp.GvtCalculator.{
  LpInfo, GvtCalculator, counter_or, pre_process_send_message, pre_process_receive_message,
  new_gvt_calculator, add_counts, get_white_transient_message_counter,
}

-- The LPs of a ring with their calculators, the messages that were sent and not yet received, and the
-- messages that were ever sent without `PreProcessSendMessage`.
pub record Network : Type 0 where
  pub lps : List (LpInfo × GvtCalculator)
  pub in_flight : List SimulationMessage
  pub uncounted : List SimulationMessage

-- An LP sends a message, a CLP sends the anti-message of a range query, which the `Send` of Clp.cpp
-- neither colours nor counts, an LP receives a message that is for it, or a calculator changes in a
-- way that leaves its counters, as the two cuts do.
pub data Step : Network → Network → Type 0 where
  sends :
      (xs ys : List (LpInfo × GvtCalculator)) (lp : LpInfo) (g g' : GvtCalculator)
      (m m' : SimulationMessage) (ms us : List SimulationMessage)
      → pre_process_send_message lp m g ≡ some (g', m')
      → Step
          (record { lps = xs ++ (lp, g) ∷ ys; in_flight = ms; uncounted = us })
          (record { lps = xs ++ (lp, g') ∷ ys; in_flight = m' ∷ ms; uncounted = us })
  sends_uncounted :
      (lps : List (LpInfo × GvtCalculator)) (m : SimulationMessage) (ms us : List SimulationMessage)
      → Step
          (record { lps = lps; in_flight = ms; uncounted = us })
          (record { lps = lps; in_flight = m ∷ ms; uncounted = m ∷ us })
  receives :
      (xs ys : List (LpInfo × GvtCalculator)) (lp : LpInfo) (g : GvtCalculator)
      (m : SimulationMessage) (ms ns us : List SimulationMessage)
      → m.destination ≡ lp.rank
      → Step
          (record { lps = xs ++ (lp, g) ∷ ys; in_flight = ms ++ m ∷ ns; uncounted = us })
          (record {
            lps = xs ++ (lp, pre_process_receive_message lp m g) ∷ ys;
            in_flight = ms ++ ns;
            uncounted = us;
          })
  cuts :
      (xs ys : List (LpInfo × GvtCalculator)) (lp : LpInfo) (g g' : GvtCalculator)
      (ms us : List SimulationMessage)
      → g'.white_transient_message_counter ≡ g.white_transient_message_counter
      → Step
          (record { lps = xs ++ (lp, g) ∷ ys; in_flight = ms; uncounted = us })
          (record { lps = xs ++ (lp, g') ∷ ys; in_flight = ms; uncounted = us })

unfoldable pub fresh : List LpInfo → List (LpInfo × GvtCalculator)
fresh [] = []
fresh (lp ∷ lps) = (lp, new_gvt_calculator lp) ∷ fresh lps

pub data Reachable : Network → Type 0 where
  started :
      (lps : List LpInfo) → Reachable (record { lps = fresh lps; in_flight = []; uncounted = [] })
  stepped : {n n' : Network} → Reachable n → Step n n' → Reachable n'

-- The counter of one LP for a rank, 0 where it has no entry, and the two sums over all LPs.
abbrev pub counter : ℕ → GvtCalculator → ℤ
counter r g = counter_or (pos 0) r g.white_transient_message_counter

unfoldable pub sum_pos : ℕ → List (LpInfo × GvtCalculator) → ℕ
sum_pos r [] = 0
sum_pos r (l ∷ ls) = pos_part (counter r l.1) + sum_pos r ls

unfoldable pub sum_neg : ℕ → List (LpInfo × GvtCalculator) → ℕ
sum_neg r [] = 0
sum_neg r (l ∷ ls) = neg_part (counter r l.1) + sum_neg r ls

-- The white messages on their way to a rank.
unfoldable pub is_white_to : ℕ → SimulationMessage → ℕ
is_white_to r m = elim m.mattern_colour [ white ↦ if m.destination == r then 1 else 0 | red ↦ 0 ]

unfoldable pub whites : ℕ → List SimulationMessage → ℕ
whites r [] = 0
whites r (m ∷ ms) = is_white_to r m + whites r ms

-- The counters for a rank add up to the white messages on their way to it, less those that were ever
-- sent to it uncounted.
abbrev pub IsBalanced : ℕ → Network → Type 0
IsBalanced r n = sum_pos r n.lps + whites r n.uncounted ≡ sum_neg r n.lps + whites r n.in_flight

-- How far one counter is ahead of what it was.
abbrev MovesBy : ℕ → ℤ → ℤ → Type 0
MovesBy n a b = pos_part b + neg_part a ≡ neg_part b + pos_part a + n

find-set_message_count :
    (r k : ℕ) (n : ℤ) (m : GvtControlMessage)
    → get_message_count r (set_message_count k n m)
      ≡ (if k == r then to_int n else get_message_count r m)
unfolding get_message_count set_message_count
find-set_message_count r k n m = grind map_laws

-- For each rank below the size of the ring the first cut adds to the count of the message, as an
-- int, the LP's own counter, or -1 where the LP has no entry for the rank; the counts of other
-- ranks stay as they are.
pub get_message_count-add_counts :
    (n r : ℕ) (g : GvtCalculator) (m : GvtControlMessage)
    → get_message_count r (add_counts n g m) ≡ (
        if ltb r n
        then to_int
            (get_message_count r m +ℤ counter_or (negsuc 0) r g.white_transient_message_counter)
        else get_message_count r m)
unfolding add_counts get_white_transient_message_counter
get_message_count-add_counts zero r g m = ground arith
get_message_count-add_counts (suc n) r g m =
    let rest = add_counts n g m in
    let total = get_message_count n rest +ℤ get_white_transient_message_counter n g in
    rw (find-set_message_count r n total rest)
      (ground (arith, get_message_count-add_counts n r g m, get_message_count-add_counts n n g m))
