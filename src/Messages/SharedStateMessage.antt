-- ===== src/Messages/SharedStateMessage.antt =====
-- messages/SharedStateMessage.h and the classes below it: the requests of an agent that go to the
-- CLP of a variable, or round the tree for a range, as an ALP keeps and queues them.
use pdesmas_cloud.Base.{ℕ, Option}
use pdesmas_cloud.Base.NatMap.{NatMap}
use pdesmas_cloud.Lp.LpId.{LpId}
use pdesmas_cloud.State.SsvId.{SsvId}
use pdesmas_cloud.Types.Point.{Point}
use pdesmas_cloud.Types.Range.{Range}
use pdesmas_cloud.Types.Value.{AbstractValue}
use pdesmas_cloud.Types.Direction.{MatternColour}

-- AbstractMessage and SimulationMessage.
pub record SimulationMessage : Type 0 where
  pub origin : ℕ
  pub destination : ℕ
  pub timestamp : ℕ
  pub mattern_colour : MatternColour

pub record SharedStateMessage : Type 0 where
  pub simulation : SimulationMessage
  pub number_of_hops : ℕ
  pub identifier : ℕ
  pub original_agent : LpId

pub record SingleReadMessage : Type 0 where
  pub base : SharedStateMessage
  pub ssv_id : SsvId

pub record WriteMessage : Type 0 where
  pub base : SharedStateMessage
  pub ssv_id : SsvId
  pub value : Option AbstractValue

pub record RangeQueryMessage : Type 0 where
  pub base : SharedStateMessage
  pub range : Range
  pub number_of_traverse_hops : ℕ
  pub ssv_value_map : NatMap Point

-- A `SharedStateMessage*`, with `GetType` as the constructor.
pub data AnySharedState : Type 0 where
  single_read : SingleReadMessage → AnySharedState
  write : WriteMessage → AnySharedState
  range_query : RangeQueryMessage → AnySharedState

-- The fields that the three classes share.
abbrev pub shared : AnySharedState → SharedStateMessage
shared (single_read m) = m.base
shared (write m) = m.base
shared (range_query m) = m.base

abbrev pub timestamp : AnySharedState → ℕ
timestamp m = (shared m).simulation.timestamp

abbrev pub original_agent : AnySharedState → LpId
original_agent m = (shared m).original_agent

abbrev pub identifier : AnySharedState → ℕ
identifier m = (shared m).identifier
