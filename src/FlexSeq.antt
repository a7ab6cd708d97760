-- ===== src/FlexSeq.antt =====
-- structs_bench/ds/flexlist_seq/flexlist.h: the sequential splay list.
pub mod State
pub mod Find
pub mod Update
pub mod Ops
pub mod View
pub mod New
pub mod Laws
pub mod Calls
pub mod Insertion
pub mod Client
pub mod Refinement
pub mod Tests
