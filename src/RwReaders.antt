-- ===== src/RwReaders.antt =====
-- structs_bench/common/rwlock.h: the reader-writer lock that favours readers, as it is compiled where no
-- other is asked for, taken by `n` threads.
pub mod Steps
pub mod Safety
mod Tests
