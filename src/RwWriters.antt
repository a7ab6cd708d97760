-- ===== src/RwWriters.antt =====
-- structs_bench/common/rwlock.h: the reader-writer lock that favours writers, which RWLOCK_FAVOR_WRITERS
-- asks for, taken by `n` threads.
pub mod Steps
pub mod Safety
mod Tests
