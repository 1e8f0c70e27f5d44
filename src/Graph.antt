-- ===== src/Graph.antt =====
-- embedded/graph/crud: operations on the graph.
pub mod Keys
pub mod Context
pub mod Outcome
pub mod Returns
pub mod Docs
pub mod OpStack
pub mod Link
pub mod Vertex
pub mod Cascade
pub mod High
mod Tests
