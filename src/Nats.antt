-- ===== src/Nats.antt =====
-- embedded/nats/kv/kv.go: the creation of the key/value bucket.
pub mod Version
pub mod Stream
mod Tests
