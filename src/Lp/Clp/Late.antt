-- ===== src/Lp/Clp/Late.antt =====
-- Clp.cpp: anti-messages from before GVT that a CLP receives.
use pdesmas_cloud.Base.{
  ℕ, suc, ◌≤◌, ◌<◌, ◌≡◌, sym, ap, subst, ◌∙◌, List, [], ◌∷◌, ◌++◌, none, some, true, ltb, arith,
  All, length, length-append, Option-cases, ◌>>=◌, inl, inr,
}
use mathlib.Core.List.{append_assoc, append-nil}
use pdesmas_cloud.Lp.Clp.{Clp}
use pdesmas_cloud.Lp.Clp.Handlers.{process_single_read_anti, process_write_anti}
use pdesmas_cloud.Lp.Clp.Migration.{set_gvt}
use pdesmas_cloud.Lp.Clp.Past.{set_gvt-gvt}
use pdesmas_cloud.Lp.Clp.RangeQueries.{process_range_query_anti}
use pdesmas_cloud.Lp.Clp.Traffic.{process_other, counted, forward}
use pdesmas_cloud.Lp.GvtCalculator.{GvtCalculator}
use pdesmas_cloud.Lp.LogicalProcess.{handled, or_fatal, account, send_simulation}
use pdesmas_cloud.Lp.MessageQueue.{queue_message}
use pdesmas_cloud.Messages.SharedStateMessage.{SimulationMessage}
use pdesmas_cloud.Messages.LpMessage.{
  AbstractMessage, OtherMessage, SingleReadAntiMessage, WriteAntiMessage, RangeQueryAntiMessage,
  single_read_anti, write_anti, range_query_anti,
}
use pdesmas_cloud.Routing.Router.{route_single_read_anti, route_write_anti, next_to_ssv}

-- The anti-messages whose time is before a time.
pub data IsLate (t : ℕ) : OtherMessage → Type 0 where
  late_read :
      (m : SingleReadAntiMessage) → m.base.simulation.timestamp < t → IsLate t (single_read_anti m)
  late_write : (m : WriteAntiMessage) → m.base.simulation.timestamp < t → IsLate t (write_anti m)
  late_query :
      (m : RangeQueryAntiMessage) → m.base.simulation.timestamp < t → IsLate t (range_query_anti m)

-- A CLP with another GVT calculator and more messages at the end of the send queue.
abbrev pub aside : GvtCalculator → List AbstractMessage → Clp → Clp
aside g q c = record c {
  lp = record c.lp { gvt_calculator = g; send_message_queue = c.lp.send_message_queue ++ q };
}

-- What a late anti-message comes to.
abbrev Aside : ℕ → Clp → Clp → Type 0
Aside n c c' =
    (g : GvtCalculator) × (q : List AbstractMessage) × (c' ≡ aside g q c) × (length q ≤ n)

counted-Aside :
    (s : SimulationMessage) (c c' : Clp) → handled (counted s c) ≡ handled c' → Aside 1 c c'
unfolding account
counted-Aside s c c' e =
    let same : counted s c ≡ c' = cc in
    (
      (counted s c).lp.gvt_calculator,
      [],
      sym same
          ∙ ap
              (λ l. record (counted s c) {
                lp = record (counted s c).lp { send_message_queue = l };
              })
              (sym (append-nil c.lp.send_message_queue)),
      omega arith,
    )

forward-Aside :
    (m : AbstractMessage) (s : SimulationMessage) (c c' : Clp)
    → or_fatal (forward m (counted s c)) ≡ handled c'
    → Aside 1 c c'
unfolding account send_simulation queue_message
forward-Aside m s c c' e = ((counted s c).lp.gvt_calculator, m ∷ [], ground arith, omega arith)

read_anti-Aside :
    (clock : ℕ → ℕ) (m : SingleReadAntiMessage) (c c' : Clp)
    → m.base.simulation.timestamp < c.lp.gvt
    → process_other clock (single_read_anti m) c ≡ handled c'
    → Aside 1 c c'
unfolding process_other process_single_read_anti route_single_read_anti account
read_anti-Aside clock m c c' late e =
    let old : ltb m.base.simulation.timestamp c.lp.gvt ≡ true = ground arith in
    elim (Option-cases (next_to_ssv m.ssv_id c.router)) [
      | inl n ↦ cc (rw (process_other, route_single_read_anti, n, ◌>>=◌) at e)
      | inr (none, to) ↦ counted-Aside m.base.simulation c c' (
          rw (process_other, route_single_read_anti, to, ◌>>=◌, process_single_read_anti, old) at e)
      | inr (some rank, to) ↦
          forward-Aside _ m.base.simulation c c'
            (rw (process_other, route_single_read_anti, to, ◌>>=◌) at e)
    ]

write_anti-Aside :
    (clock : ℕ → ℕ) (m : WriteAntiMessage) (c c' : Clp)
    → m.base.simulation.timestamp < c.lp.gvt
    → process_other clock (write_anti m) c ≡ handled c'
    → Aside 1 c c'
unfolding process_other process_write_anti route_write_anti account
write_anti-Aside clock m c c' late e =
    let old : ltb m.base.simulation.timestamp c.lp.gvt ≡ true = ground arith in
    elim (Option-cases (next_to_ssv m.ssv_id c.router)) [
      | inl n ↦ cc (rw (process_other, route_write_anti, n, ◌>>=◌) at e)
      | inr (none, to) ↦
          counted-Aside m.base.simulation c c'
            (rw (process_other, route_write_anti, to, ◌>>=◌, process_write_anti, old) at e)
      | inr (some rank, to) ↦
          forward-Aside _ m.base.simulation c c'
            (rw (process_other, route_write_anti, to, ◌>>=◌) at e)
    ]

query_anti-Aside :
    (clock : ℕ → ℕ) (m : RangeQueryAntiMessage) (c c' : Clp)
    → m.base.simulation.timestamp < c.lp.gvt
    → process_other clock (range_query_anti m) c ≡ handled c'
    → Aside 1 c c'
unfolding process_other process_range_query_anti account
query_anti-Aside clock m c c' late e =
    let old : ltb m.base.simulation.timestamp c.lp.gvt ≡ true = ground arith in
    counted-Aside m.base.simulation c c' (rw (process_other, process_range_query_anti, old) at e)

IsLate-Aside :
    (clock : ℕ → ℕ) (m : OtherMessage) (c c' : Clp)
    → IsLate c.lp.gvt m
    → process_other clock m c ≡ handled c'
    → Aside 1 c c'
IsLate-Aside clock _ c c' (late_read m late) e = read_anti-Aside clock m c c' late e
IsLate-Aside clock _ c c' (late_write m late) e = write_anti-Aside clock m c c' late e
IsLate-Aside clock _ c c' (late_query m late) e = query_anti-Aside clock m c c' late e

-- Messages that are received one after the other, the last one at the head of the list.
pub data Receives (clock : ℕ → ℕ) (c : Clp) : List OtherMessage → Clp → Type 0 where
  done : Receives clock c [] c
  next :
      {ms : List OtherMessage} {b c' : Clp} (m : OtherMessage)
      → Receives clock c ms b
      → process_other clock m b ≡ handled c'
      → Receives clock c (m ∷ ms) c'

Aside-step : (n : ℕ) (a b c : Clp) → Aside n a b → Aside 1 b c → Aside (suc n) a c
Aside-step n a b c (g, q, e, short) (g', q', e', short') = (
  g',
  q ++ q',
  e'
      ∙ ap (aside g' q') e
      ∙ ap (λ l. record a { lp = record a.lp { gvt_calculator = g'; send_message_queue = l } })
          (append_assoc a.lp.send_message_queue q q'),
  omega (arith, length-append q q'),
)

Receives-Aside :
    (clock : ℕ → ℕ) (c c' : Clp) (ms : List OtherMessage)
    → Receives clock c ms c'
    → All (IsLate c.lp.gvt) ms
    → Aside (length ms) c c'
Receives-Aside clock c _ _ done late = (
  c.lp.gvt_calculator,
  [],
  ap (λ l. record c { lp = record c.lp { send_message_queue = l } })
      (sym (append-nil c.lp.send_message_queue)),
  omega arith,
)
Receives-Aside clock c _ _ (next {ms} {b} {c'} m before e) late =
    let (g, q, frame, short) = Receives-Aside clock c b ms before late.1 in
    let same : b.lp.gvt ≡ c.lp.gvt = ap (λ (x : Clp). x.lp.gvt) frame in
    Aside-step (length ms) c b c' (g, q, frame, short)
      (IsLate-Aside clock m b c' (subst (λ t. IsLate t m) (sym same) late.0) e)

-- However many anti-messages of reads, writes and range queries from before a GVT a CLP receives behind
-- the `SetGvt` of it, and in whatever order, where none of them is fatal, as one for a variable that the
-- router does not know is: they change the GVT calculator, which counts them, and put at most one
-- message each at the end of the send queue, and nothing else of the CLP changes - not its variables,
-- nor its range tables, nor its router, nor its other queues.
pub set_gvt-Receives :
    (now : ℕ → ℕ) (clock : ℕ → ℕ) (gvt : ℕ) (ms : List OtherMessage) (c b c' : Clp)
    → set_gvt now gvt c ≡ some b
    → All (IsLate gvt) ms
    → Receives clock b ms c'
    → (g : GvtCalculator) × (q : List AbstractMessage) × (c' ≡ record b {
      lp = record b.lp { gvt_calculator = g; send_message_queue = b.lp.send_message_queue ++ q };
    })
      × (length q ≤ length ms)
set_gvt-Receives now clock gvt ms c b c' e late r =
    Receives-Aside clock b c' ms r
      (subst (λ t. All (IsLate t) ms) (sym (set_gvt-gvt now gvt c b e)) late)
