-- ===== src/Cache.antt =====
-- statefun/cache/cache.go: the cache between stateful functions and the NATS key/value bucket.
pub mod Value
pub mod Key
pub mod Record
pub mod Level
pub mod Store
pub mod Sync
pub mod Garbage
mod Tests
pub mod Pattern
pub mod Subscribe
