-- ===== src/Lp/GvtCalculator/Values.antt =====
-- To whom GvtCalculator.cpp sends a new GVT.
use pdesmas_cloud.Base.{
  ℕ, zero, suc, ◌+◌, ◌≡◌, List, [], ◌∷◌, ◌++◌, ltb, ◌==◌, ◌&&◌, not, if◌then◌else◌, arith,
}
use pdesmas_cloud.Messages.Gvt.{GvtControlMessage, GvtValueMessage}
use pdesmas_cloud.Lp.GvtCalculator.{LpInfo, GvtCalculator, gvt_values, gvt_of, send_and_set_gvt}

-- How many of the messages go to the rank with the value.
unfoldable pub count_to : ℕ → ℕ → List GvtValueMessage → ℕ
count_to r v [] = 0
count_to r v (m ∷ ms) = (if m.destination == r && m.gvt == v then 1 else 0) + count_to r v ms

count_to-append :
    (r v : ℕ) (ms ns : List GvtValueMessage)
    → count_to r v (ms ++ ns) ≡ count_to r v ms + count_to r v ns
unfolding count_to
count_to-append r v [] ns = omega arith
count_to-append r v (m ∷ ms) ns = omega (arith, count_to-append r v ms ns)

count_to-gvt_values :
    (r rank gvt n : ℕ)
    → count_to r gvt (gvt_values rank gvt n) ≡ (if ltb r n && not (r == rank) then 1 else 0)
unfolding gvt_values count_to
count_to-gvt_values r rank gvt zero = ground arith
count_to-gvt_values r rank gvt (suc n) = ground (
  arith,
  count_to-gvt_values r rank gvt n,
  count_to-append r gvt (gvt_values rank gvt n)
      (record { origin = rank; destination = n; gvt = gvt } ∷ []),
)

-- `SendAndSetGvt` sends the GVT that it sets once to each other rank of the ring, and to no rank
-- that is its own or not in the ring.
pub send_and_set_gvt-count_to :
    (lp : LpInfo) (m : GvtControlMessage) (g : GvtCalculator) (r : ℕ)
    → count_to r (gvt_of m) (send_and_set_gvt lp m g).values
      ≡ (if ltb r lp.size && not (r == lp.rank) then 1 else 0)
unfolding send_and_set_gvt
send_and_set_gvt-count_to lp m g r = count_to-gvt_values r lp.rank (gvt_of m) lp.size
