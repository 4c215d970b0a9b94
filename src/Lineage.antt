-- ===== src/Lineage.antt =====
-- internal/lineage: the graph of what stands before and behind an entity.
pub mod Graph
pub mod Nodes
pub mod Links
pub mod Service
pub mod Builder
pub mod Grown
pub mod Order
pub mod Drawn
pub mod Sound
pub mod Graphs
pub mod Keys
pub mod Expected
pub mod Around
pub mod Located
pub mod Exact
pub mod Complete
pub mod Raised
