-- ===== src/Messages.antt =====
-- image/cluster/project/{src,include}/messages: what the logical processes send each other. The
-- content classes (HasTimestamp and so on) are fields; the text format is not modelled.
pub mod SharedStateMessage
pub mod Gvt
pub mod LpMessage
