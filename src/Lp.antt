-- ===== src/Lp.antt =====
-- image/cluster/project/{src,include}/lp: the logical processes and what they are made of.
pub mod LpId
pub mod AccessCostCalculator
pub mod GvtCalculator
pub mod MessageQueue
pub mod RollbackTag
pub mod RollbackList
pub mod LogicalProcess
pub mod Alp
pub mod Clp
