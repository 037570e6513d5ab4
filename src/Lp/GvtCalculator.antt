-- ===== src/Lp/GvtCalculator.antt =====
-- lp/GvtCalculator.{h,cpp} and the two PreProcess functions of lp/Lp.cpp: Mattern's computation of
-- the global virtual time (GVT), with a control message that goes round the ring of the logical
-- processes (LPs). What the calculator asks of its LP is an argument: rank, size, end time, and the
-- LVT at the moment of the call. What it makes the LP do is an `Effects`.
pub mod Bounds
pub mod Counters
pub mod Values
mod Tests
use pdesmas_cloud.Base.{
  ℕ, zero, suc, ◌+◌, ◌%◌, ◌^◌, List, [], ◌∷◌, ◌++◌, Option, none, some, Bool, true, false, ltb, leb,
  ◌==◌, ◌||◌, not, if◌then◌else◌, long_max, ulong_max,
}
use pdesmas_cloud.Base.NatMap.{NatMap, find, assign}
use pdesmas_cloud.Base.Int.{ℤ, pos, negsuc, ◌+ℤ◌, ltb_ℤ, leb_ℤ}
use pdesmas_cloud.Types.Direction.{MatternColour, white, red, MatternCut, first, second}
use pdesmas_cloud.Messages.SharedStateMessage.{SimulationMessage}
use pdesmas_cloud.Messages.Gvt.{
  GvtControlMessage, GvtValueMessage, get_message_count, set_message_count,
}

-- What the calculator reads of its LP.
pub record LpInfo : Type 0 where
  pub rank : ℕ
  pub size : ℕ
  pub end_time : ℕ

pub record GvtCalculator : Type 0 where
  pub next_lp_in_ring : ℕ
  pub is_gvt_starter : Bool
  pub colour : MatternColour
  pub red_time : ℕ
  pub is_accepting_requests : Bool
  pub white_transient_message_counter : NatMap ℤ

-- The calls on the LP: messages to send, `SetGvt`, and whether it waits at the MPI barrier.
pub record Effects : Type 0 where
  pub calculator : GvtCalculator
  pub control : Option GvtControlMessage
  pub values : List GvtValueMessage
  pub gvt : Option ℕ
  pub barrier : Bool

-- No call at all, and the sending of one control message.
abbrev pub silent : GvtCalculator → Effects
silent g = record { calculator = g; control = none; values = []; gvt = none; barrier = false }

abbrev pub passing : GvtCalculator → GvtControlMessage → Effects
passing g m = record { calculator = g; control = some m; values = []; gvt = none; barrier = false }

unfoldable pub new_gvt_calculator : LpInfo → GvtCalculator
new_gvt_calculator lp = record {
  next_lp_in_ring = (lp.rank + 1) % lp.size;
  is_gvt_starter = lp.rank == 0;
  colour = white;
  red_time = ulong_max;
  is_accepting_requests = true;
  white_transient_message_counter = [];
}

-- `fWhiteTransientMessageCounter[rank] += n`, and the reading of it, -1 where there is no entry.
unfoldable pub counter_or : ℤ → ℕ → NatMap ℤ → ℤ
counter_or default rank m = elim (find rank m) [ none ↦ default | some n ↦ n ]

unfoldable pub add_to_counter : ℤ → ℕ → GvtCalculator → GvtCalculator
add_to_counter n rank g = record g {
  white_transient_message_counter =
      assign rank (counter_or (pos 0) rank g.white_transient_message_counter +ℤ n)
        g.white_transient_message_counter;
}

unfoldable pub get_white_transient_message_counter : ℕ → GvtCalculator → ℤ
get_white_transient_message_counter rank g =
    counter_or (negsuc 0) rank g.white_transient_message_counter

unfoldable pub increment_white_transient_message_counter : ℕ → GvtCalculator → GvtCalculator
increment_white_transient_message_counter = add_to_counter (pos 1)

unfoldable pub decrement_white_transient_message_counter : ℕ → GvtCalculator → GvtCalculator
decrement_white_transient_message_counter = add_to_counter (negsuc 0)

-- `Lp::PreProcessSendMessage`: the stamped message. `none` is a failed assertion.
unfoldable pub pre_process_send_message :
    LpInfo → SimulationMessage → GvtCalculator → Option (GvtCalculator × SimulationMessage)
pre_process_send_message lp m g =
    let stamped = record m { mattern_colour = g.colour } in
    elim g.colour [
      | white ↦
          if m.destination == lp.rank
          then none
          else if ltb_ℤ (pos 0) (get_white_transient_message_counter lp.rank g)
          then none
          else some (increment_white_transient_message_counter m.destination g, stamped)
      | red ↦ some (
        record g { red_time = if ltb m.timestamp g.red_time then m.timestamp else g.red_time },
        stamped,
      )
    ]

-- `Lp::PreProcessReceiveMessage`.
unfoldable pub pre_process_receive_message :
    LpInfo → SimulationMessage → GvtCalculator → GvtCalculator
pre_process_receive_message lp m g = elim m.mattern_colour [
  | white ↦ decrement_white_transient_message_counter lp.rank g
  | red ↦ g
]

-- The loop that gives each of the ranks below a number a count of 0, lowest first.
unfoldable pub zero_counts : ℕ → GvtControlMessage → GvtControlMessage
zero_counts zero m = m
zero_counts (suc n) m = set_message_count n (pos 0) (zero_counts n m)

-- `ProcessMessage(const GvtRequestMessage*)`.
unfoldable pub process_request : LpInfo → GvtCalculator → Effects
process_request lp g =
    if not g.is_gvt_starter
    then silent g
    else if not g.is_accepting_requests
    then silent g
    else passing (record g { is_accepting_requests = false; colour = white })
        (zero_counts lp.size (record {
          origin = lp.rank;
          destination = g.next_lp_in_ring;
          message_minimum_time = long_max;
          red_message_time = long_max;
          mattern_cut = first;
          message_count = [];
        }))

-- `ProcessMessage(const GvtValueMessage*)`.
unfoldable pub process_value : LpInfo → GvtValueMessage → GvtCalculator → Effects
process_value lp m g = if g.is_gvt_starter then silent g else record {
  calculator = record g { colour = white };
  control = none;
  values = [];
  gvt = some m.gvt;
  barrier = leb lp.end_time m.gvt;
}

-- The loop of `SendAndSetGvt` over the ranks below a number, lowest first.
unfoldable pub gvt_values : ℕ → ℕ → ℕ → List GvtValueMessage
gvt_values rank gvt zero = []
gvt_values rank gvt (suc n) =
    let rest = gvt_values rank gvt n in
    if n == rank then rest else rest ++ record { origin = rank; destination = n; gvt = gvt } ∷ []

unfoldable pub gvt_of : GvtControlMessage → ℕ
gvt_of m =
    if ltb m.message_minimum_time m.red_message_time
    then m.message_minimum_time
    else m.red_message_time

unfoldable pub send_and_set_gvt : LpInfo → GvtControlMessage → GvtCalculator → Effects
send_and_set_gvt lp m g = record {
  calculator = record g { is_accepting_requests = true };
  control = none;
  values = gvt_values lp.rank (gvt_of m) lp.size;
  gvt = some (gvt_of m);
  barrier = leb lp.end_time (gvt_of m);
}

-- `if (fLp->GetLvt() < message minimum time) set it`.
unfoldable pub lower_minimum : ℕ → GvtControlMessage → GvtControlMessage
lower_minimum lvt m = record m {
  message_minimum_time = if ltb lvt m.message_minimum_time then lvt else m.message_minimum_time;
}

-- The loop that adds the local counts to those of the message, over the ranks below a number.
unfoldable pub add_counts : ℕ → GvtCalculator → GvtControlMessage → GvtControlMessage
add_counts zero g m = m
add_counts (suc n) g m =
    let rest = add_counts n g m in
    set_message_count n (get_message_count n rest +ℤ get_white_transient_message_counter n g) rest

-- `hasWhiteTransientsRemaining`.
unfoldable pub has_white_transients : NatMap ℤ → GvtControlMessage → Bool
has_white_transients [] m = false
has_white_transients ((rank, n) ∷ l) m =
    ltb_ℤ (pos 0) (get_message_count rank m) || has_white_transients l m

unfoldable pub process_first_cut : LpInfo → ℕ → GvtControlMessage → GvtCalculator → Effects
process_first_cut lp lvt m g =
    let m' = add_counts lp.size g (lower_minimum lvt m) in
    let g' = record g { colour = red; red_time = long_max } in
    if g.is_gvt_starter
    then (if has_white_transients g.white_transient_message_counter m'
        then passing g' (record m' { mattern_cut = second; destination = g.next_lp_in_ring })
        else send_and_set_gvt lp m' (record g' { colour = white }))
    else passing g' (record m' { destination = g.next_lp_in_ring })

-- `none`: white messages to this LP are on their way, and the loop goes on receiving.
unfoldable pub process_second_cut : LpInfo → ℕ → GvtControlMessage → GvtCalculator → Option Effects
process_second_cut lp lvt m g =
    if ltb_ℤ (pos 0) (get_message_count lp.rank m +ℤ get_white_transient_message_counter lp.rank g)
    then none
    else (let low = lower_minimum lvt m in
        let m' = set_message_count lp.rank (pos 0) (record low {
          red_message_time =
              if ltb g.red_time low.red_message_time then g.red_time else low.red_message_time;
        }) in
        let g' = record g { colour = white } in
        some (
          if g.is_gvt_starter
          then send_and_set_gvt lp m' g'
          else passing g' (record m' { destination = g.next_lp_in_ring })))

-- `ProcessMessage(const GvtControlMessage*)`.
unfoldable pub process_control : LpInfo → ℕ → GvtControlMessage → GvtCalculator → Option Effects
process_control lp lvt m g = elim m.mattern_cut [
  | first ↦ some (process_first_cut lp lvt m g)
  | second ↦ process_second_cut lp lvt m g
]
