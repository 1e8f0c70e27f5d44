-- ===== src/Jpgql.antt =====
-- embedded/graph/jpgql: queries on the links of the graph.
pub mod Filter
pub mod Links
pub mod Query
pub mod Search
mod Tests
