-- ===== src/CbTree.antt =====
-- structs_bench/ds/cbtree/cbtree_impl.h: the sequential counting-based self-adjusting tree.
-- A pointer into the tree is the list of turns that lead to it from the root (`true` for left), and a
-- function that relinks nodes below a pointer returns the new subtree; the caller puts it in place.
-- Keys are numbers, of which the code uses only the order (`std::less`).
pub mod Tree
pub mod Rotate
pub mod Search
pub mod Walk
pub mod Entries
pub mod Ops
pub mod Lookup
pub mod Insert
pub mod Weights
pub mod Laws
pub mod NoRestructure
pub mod Client
pub mod Adapter
mod Tests
