-- ===== src/SpinLock.antt =====
-- structs_bench/common/locks_impl.h: the spin lock of the nodes, taken by any number of threads.
pub mod Steps
pub mod Safety
mod Tests
