-- ===== src/State.antt =====
-- image/cluster/project/{src,include}/state: the shared state that a CLP keeps.
pub mod WritePeriod
pub mod SsvId
pub mod StateVariable
pub mod PrivateVariableStorage
pub mod SharedState
