-- ===== src/Types.antt =====
-- image/cluster/project/{src,include}/types: points, ranges, values and directions.
pub mod Point
pub mod Range
pub mod Value
pub mod Direction
