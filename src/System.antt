-- ===== src/System.antt =====
-- statefun/system/system.go: integers as bytes, maps, the mutex per key, the growing channel.
pub mod Bytes
pub mod Maps
pub mod Channel
pub mod KeyMutex
mod Tests
