-- ===== src/Lp/Alp/Events.antt =====
-- Alp.cpp: what can happen to an ALP between two of its messages.
use pdesmas_cloud.Base.{ℕ, ◌≡◌, Option, some, Bool}
use pdesmas_cloud.Lp.Alp.{
  Alp, set_agent_lvt, set_gvt, do_self_restart, add_agent, get_new_message_id, get_cancel_flag,
  get_response_message, trigger_self_restart, start_all_agents, finalise,
}
use pdesmas_cloud.Lp.Alp.Rollback.{process_rollback}
use pdesmas_cloud.Lp.Alp.Traffic.{send, hand_over, process_write_response}
use pdesmas_cloud.Lp.LogicalProcess.{LogicalProcess}
use pdesmas_cloud.Messages.LpMessage.{AbstractMessage, RollbackMessage, WriteResponseMessage}

-- An agent sets its time, the part of an LP changes (a queue, the GVT calculator), the ALP sends, a
-- read or a range query is answered, a write is, a rollback comes, GVT is set, agents restart; what the
-- agents call on the ALP; the start of all agents and the end.
pub data Event : Type 0 where
  sets_time : ℕ → ℕ → Event
  works : LogicalProcess → Event
  sends : Option AbstractMessage → Event
  is_answered : ℕ → ℕ → AbstractMessage → Event
  write_is_answered : WriteResponseMessage → Event
  rolls_back : RollbackMessage → Bool → Event
  takes_gvt : ℕ → Event
  restarts : Event
  adds_agent : ℕ → Event
  takes_id : Event
  reads_flag : ℕ → Event
  takes_response : ℕ → Option AbstractMessage → Event
  wants_restart : ℕ → Event
  starts_agents : Event
  ends : Event

-- That an event leads from a state to a state.
abbrev pub Happens : Event → Alp → Alp → Type 0
Happens (sets_time agent t) a b = set_agent_lvt agent t a ≡ some b
Happens (works lp) a b = record a { lp = lp } ≡ b
Happens (sends m) a b = send a ≡ some (b, m)
Happens (is_answered agent id m) a b = hand_over agent id m a ≡ some b
Happens (write_is_answered r) a b = process_write_response r a ≡ some b
Happens (rolls_back m done) a b = process_rollback m a ≡ some (b, done)
Happens (takes_gvt gvt) a b = set_gvt gvt a ≡ b
Happens restarts a b = do_self_restart a ≡ some b
Happens (adds_agent agent) a b = (add_agent agent a).0 ≡ b
Happens takes_id a b = (get_new_message_id a).0 ≡ b
Happens (reads_flag agent) a b = (get_cancel_flag agent a).0 ≡ b
Happens (takes_response agent m) a b = get_response_message agent a ≡ some (b, m)
Happens (wants_restart agent) a b = trigger_self_restart agent a ≡ b
Happens starts_agents a b = start_all_agents a ≡ b
Happens ends a b = finalise a ≡ b

-- A run of events that a predicate allows.
pub data Run (Allows : Event → Type 0) (a : Alp) : Alp → Type 0 where
  nothing : Run Allows a a
  then : {b c : Alp} (e : Event) → Run Allows a b → Allows e → Happens e b c → Run Allows a c
