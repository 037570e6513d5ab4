-- ===== src/Messages/Gvt.antt =====
-- messages/GvtControlMessage.h, GvtValueMessage.h and content/HasMessageCount.cpp: the messages of
-- the GVT rounds.
use pdesmas_cloud.Base.{ℕ, none, some}
use pdesmas_cloud.Base.NatMap.{NatMap, find, assign}
use pdesmas_cloud.Base.Int.{ℤ, negsuc, to_int}
use pdesmas_cloud.Types.Direction.{MatternCut}

pub record GvtControlMessage : Type 0 where
  pub origin : ℕ
  pub destination : ℕ
  pub message_minimum_time : ℕ
  pub red_message_time : ℕ
  pub mattern_cut : MatternCut
  pub message_count : NatMap ℤ

pub record GvtValueMessage : Type 0 where
  pub origin : ℕ
  pub destination : ℕ
  pub gvt : ℕ

-- `HasMessageCount`.
unfoldable pub get_message_count : ℕ → GvtControlMessage → ℤ
get_message_count rank m = elim (find rank m.message_count) [ some n ↦ n | none ↦ negsuc 0 ]

unfoldable pub set_message_count : ℕ → ℤ → GvtControlMessage → GvtControlMessage
set_message_count rank n m = record m { message_count = assign rank (to_int n) m.message_count }
