-- ===== src/Interface.antt =====
-- image/cluster/project/{src,include}/interface: what an ALP keeps for its agents.
pub mod SendList
pub mod IdentifierHandler
pub mod AgentLvt
pub mod RollbackTagList
