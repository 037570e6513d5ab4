-- ===== src/Routing.antt =====
-- image/cluster/project/{src,include}/routing: which neighbour in the tree a CLP hands a message to.
pub mod ForwardingTable
pub mod RouteTable
pub mod Router
