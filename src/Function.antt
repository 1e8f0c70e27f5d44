-- ===== src/Function.antt =====
-- statefun/function_type.go: a function type with a channel and a goroutine for each id.
pub mod Config
pub mod Handlers
pub mod Runs
pub mod Routines
pub mod Keeps
pub mod Names
pub mod Pending
pub mod Accepted
pub mod Order
pub mod Slots
pub mod Live
pub mod Sound
pub mod Safe
pub mod Stuck
pub mod Reply
pub mod ObjectLock
mod Tests
