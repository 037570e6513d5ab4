-- ===== src/Messages/LpMessage.antt =====
-- messages/*.h: the messages that are not the request of an agent, and the message of any class. A
-- base class is a field `base`, as in SharedStateMessage.
use pdesmas_cloud.Base.{ℕ, Option}
use pdesmas_cloud.Base.NatMap.{NatMap}
use pdesmas_cloud.Lp.LpId.{LpId}
use pdesmas_cloud.Lp.MessageQueue.{Queued}
use pdesmas_cloud.Lp.RollbackTag.{RollbackTag}
use pdesmas_cloud.Messages.SharedStateMessage.{SimulationMessage}
use pdesmas_cloud.Messages.Gvt.{GvtControlMessage, GvtValueMessage}
use pdesmas_cloud.State.SsvId.{SsvId}
use pdesmas_cloud.State.SharedState.{History}
use pdesmas_cloud.State.StateVariable.{WriteStatus}
use pdesmas_cloud.Types.Range.{Range}
use pdesmas_cloud.Types.Value.{AbstractValue}

pub record ResponseMessage : Type 0 where
  pub simulation : SimulationMessage
  pub identifier : ℕ
  pub original_agent : LpId

pub record SingleReadResponseMessage : Type 0 where
  pub base : ResponseMessage
  pub value : Option AbstractValue

pub record WriteResponseMessage : Type 0 where
  pub base : ResponseMessage
  pub write_status : WriteStatus

pub record RollbackMessage : Type 0 where
  pub simulation : SimulationMessage
  pub rollback_tag : RollbackTag
  pub original_agent : LpId

pub record AntiMessage : Type 0 where
  pub simulation : SimulationMessage
  pub number_of_hops : ℕ
  pub rollback_tag : RollbackTag
  pub original_agent : LpId

pub record SingleReadAntiMessage : Type 0 where
  pub base : AntiMessage
  pub ssv_id : SsvId

pub record WriteAntiMessage : Type 0 where
  pub base : AntiMessage
  pub ssv_id : SsvId

pub record RangeQueryAntiMessage : Type 0 where
  pub base : AntiMessage
  pub range : Range
  pub identifier : ℕ

pub record StateMigrationMessage : Type 0 where
  pub origin : ℕ
  pub destination : ℕ
  pub state_variable_map : NatMap History

pub record RangeUpdateMessage : Type 0 where
  pub origin : ℕ
  pub destination : ℕ
  pub timestamp : ℕ
  pub range : Range

pub record EndMessage : Type 0 where
  pub origin : ℕ
  pub destination : ℕ
  pub sender_alp : ℕ

pub record GvtRequestMessage : Type 0 where
  pub origin : ℕ
  pub destination : ℕ

-- An `AbstractMessage*` of another class than the three requests, `GetType` as the constructor.
pub data OtherMessage : Type 0 where
  single_read_response : SingleReadResponseMessage → OtherMessage
  write_response : WriteResponseMessage → OtherMessage
  rollback : RollbackMessage → OtherMessage
  single_read_anti : SingleReadAntiMessage → OtherMessage
  write_anti : WriteAntiMessage → OtherMessage
  range_query_anti : RangeQueryAntiMessage → OtherMessage
  state_migration : StateMigrationMessage → OtherMessage
  range_update : RangeUpdateMessage → OtherMessage
  end_message : EndMessage → OtherMessage
  gvt_request : GvtRequestMessage → OtherMessage
  gvt_control : GvtControlMessage → OtherMessage
  gvt_value : GvtValueMessage → OtherMessage

abbrev pub AbstractMessage : Type 0
AbstractMessage = Queued OtherMessage
