-- ===== src/Lp/LogicalProcess.antt =====
-- lp/Lp.{h,cpp} and the three `SendToLp` of messages/*.cpp: what an ALP and a CLP share. The queues
-- are those between the threads of the process; the signal to the sending thread is not state here.
use pdesmas_cloud.Base.{
  ℕ, List, [], ◌∷◌, ◌++◌, Option, none, some, Bool, true, leb, ◌&&◌, ◌>>=◌, map,
}
use pdesmas_cloud.Lp.GvtCalculator.{
  LpInfo, GvtCalculator, Effects, pre_process_send_message, pre_process_receive_message,
}
use pdesmas_cloud.Lp.MessageQueue.{other, queue_message}
use pdesmas_cloud.Messages.SharedStateMessage.{
  AnySharedState, SimulationMessage, single_read, write, range_query,
}
use pdesmas_cloud.Messages.LpMessage.{
  AbstractMessage, OtherMessage, single_read_response, write_response, rollback, single_read_anti,
  write_anti, range_query_anti, state_migration, range_update, end_message, gvt_request,
  gvt_control, gvt_value,
}

pub record LogicalProcess : Type 0 where
  pub info : LpInfo
  pub number_of_clps : ℕ
  pub start_time : ℕ
  pub gvt : ℕ
  pub end_messages_received : List Bool
  pub gvt_calculator : GvtCalculator
  pub receive_message_queue : List AbstractMessage
  pub send_message_queue : List AbstractMessage
  pub send_control_message_queue : List AbstractMessage
  pub receive_load_balancing_message_queue : List AbstractMessage
  pub send_load_balancing_message_queue : List AbstractMessage

-- The `SendToLp` of SimulationMessage, ControlMessage and LoadBalancingMessage.
unfoldable pub send_simulation : AbstractMessage → LogicalProcess → LogicalProcess
send_simulation m lp = record lp { send_message_queue = queue_message m lp.send_message_queue }

unfoldable pub send_control : AbstractMessage → LogicalProcess → LogicalProcess
send_control m lp = record lp {
  send_control_message_queue = queue_message m lp.send_control_message_queue;
}

unfoldable pub send_load_balancing : AbstractMessage → LogicalProcess → LogicalProcess
send_load_balancing m lp = record lp {
  send_load_balancing_message_queue = queue_message m lp.send_load_balancing_message_queue;
}

-- The calls that the GVT calculator makes on its LP, `SetGvt` and the barrier apart.
unfoldable pub send_all_control : List AbstractMessage → LogicalProcess → LogicalProcess
send_all_control [] lp = lp
send_all_control (m ∷ ms) lp = send_all_control ms (send_control m lp)

unfoldable pub queue_effects : Effects → LogicalProcess → LogicalProcess
queue_effects e lp =
    let control : List AbstractMessage = elim e.control [
      | none ↦ []
      | some m ↦ other (gvt_control m) ∷ []
    ] in
    send_all_control (control ++ map (λ v. other (gvt_value v)) e.values)
      (record lp { gvt_calculator = e.calculator })

-- `Lp::PreProcessSendMessage` of a message, which it stamps; `none` is a failed assertion.
unfoldable pub stamp :
    SimulationMessage → LogicalProcess → Option (LogicalProcess × SimulationMessage)
stamp m lp = do
  (g, stamped) ← pre_process_send_message lp.info m lp.gvt_calculator
  some (record lp { gvt_calculator = g }, stamped)

-- `Lp::PreProcessReceiveMessage`.
unfoldable pub account : SimulationMessage → LogicalProcess → LogicalProcess
account m lp = record lp {
  gvt_calculator = pre_process_receive_message lp.info m lp.gvt_calculator;
}

-- The part of a request that the two PreProcess functions read and write.
abbrev pub simulation_of : AnySharedState → SimulationMessage
simulation_of (single_read m) = m.base.simulation
simulation_of (write m) = m.base.simulation
simulation_of (range_query m) = m.base.simulation

abbrev pub with_simulation : SimulationMessage → AnySharedState → AnySharedState
with_simulation s (single_read m) =
    single_read (record m { base = record m.base { simulation = s } })
with_simulation s (write m) = write (record m { base = record m.base { simulation = s } })
with_simulation s (range_query m) =
    range_query (record m { base = record m.base { simulation = s } })

-- The same of the other simulation messages; the rest have no colour and no timestamp.
abbrev pub other_simulation : OtherMessage → Option SimulationMessage
other_simulation (single_read_response m) = some m.base.simulation
other_simulation (write_response m) = some m.base.simulation
other_simulation (rollback m) = some m.simulation
other_simulation (single_read_anti m) = some m.base.simulation
other_simulation (write_anti m) = some m.base.simulation
other_simulation (range_query_anti m) = some m.base.simulation
other_simulation (state_migration m) = none
other_simulation (range_update m) = none
other_simulation (end_message m) = none
other_simulation (gvt_request m) = none
other_simulation (gvt_control m) = none
other_simulation (gvt_value m) = none

abbrev pub with_other_simulation : SimulationMessage → OtherMessage → OtherMessage
with_other_simulation s (single_read_response m) =
    single_read_response (record m { base = record m.base { simulation = s } })
with_other_simulation s (write_response m) =
    write_response (record m { base = record m.base { simulation = s } })
with_other_simulation s (rollback m) = rollback (record m { simulation = s })
with_other_simulation s (single_read_anti m) =
    single_read_anti (record m { base = record m.base { simulation = s } })
with_other_simulation s (write_anti m) =
    write_anti (record m { base = record m.base { simulation = s } })
with_other_simulation s (range_query_anti m) =
    range_query_anti (record m { base = record m.base { simulation = s } })
with_other_simulation s m = m

-- A stamped message of one of the other classes; one without a colour stays as it is.
unfoldable pub stamp_other : OtherMessage → LogicalProcess → Option (LogicalProcess × OtherMessage)
stamp_other m lp = elim (other_simulation m) [
  | none ↦ some (lp, m)
  | some s ↦ do (lp', stamped) ← stamp s lp; some (lp', with_other_simulation stamped m)
]

unfoldable pub all_end_messages_received : List Bool → Bool
all_end_messages_received [] = true
all_end_messages_received (b ∷ bs) = b && all_end_messages_received bs

unfoldable pub termination_condition : LogicalProcess → Bool
termination_condition lp = leb lp.info.end_time lp.gvt

-- What came of a message: handled, fatal, or a second cut that waits for white messages, which the
-- process goes on to receive.
pub data Received {ℓ} (S : Type ℓ) : Type ℓ where
  handled : S → Received S
  waiting : S → Received S
  fatal : Received S

abbrev pub or_fatal {ℓ} : {S : Type ℓ} → Option S → Received S
or_fatal none = fatal
or_fatal (some s) = handled s
