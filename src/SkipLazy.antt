-- ===== src/SkipLazy.antt =====
-- structs_bench/ds/skiplist_lazy/skiplist.h: the lazy skip list, run by one thread at a time.
pub mod State
pub mod Search
pub mod Change
pub mod Ops
pub mod Random
pub mod Shape
pub mod Locks
pub mod Unlocks
pub mod Serves
pub mod Laws
pub mod Insertion
pub mod New
pub mod Client
pub mod Plain
pub mod Validate
mod Tests
