-- ===== src/Tx/Tests.antt =====
-- Runs of embedded/graph/tx.
mod Walk
mod Handling
