-- ===== src/Tx.antt =====
-- embedded/graph/tx: transactions on the graph.
pub mod Traverse
pub mod Helper
pub mod Types
pub mod Objects
pub mod Requests
pub mod Outcome
pub mod Isolation
pub mod Merge
pub mod Clone
pub mod Session
mod Tests
