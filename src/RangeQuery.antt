-- ===== src/RangeQuery.antt =====
-- image/cluster/project/{src,include}/rangequery and lp/RQPortScanStatus: the ranges of the values
-- behind each port of a CLP over time, and the range queries that went through.
pub mod RangePeriod
pub mod RangeRoutingTable
pub mod RangeTracker
