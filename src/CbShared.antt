-- ===== src/CbShared.antt =====
-- structs_bench/ds/cbtree-concurrent/cbtree_impl.h and structs_bench/ds/cbtree-concurrent-fair/cbtree_impl.h:
-- the counting tree under a reader-writer lock, shared by any number of threads.
pub mod RwLock
pub mod State
pub mod Steps
pub mod Locked
pub mod Linear
pub mod Safety
pub mod Settled
mod Tests
