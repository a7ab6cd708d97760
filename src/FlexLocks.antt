-- ===== src/FlexLocks.antt =====
-- The splay list with a lock in each node, ds/flexlist_locks/flexlist.h of structs_bench. Shared has the
-- state and what works on one node, Find the search, Walk the loop along a level, Update the two
-- updates, Ops the public operations and Report the checks of a whole list.
pub mod Shared
pub mod Find
pub mod Walk
pub mod Update
pub mod Ops
pub mod Report
pub mod Held
pub mod Search
pub mod Branches
pub mod Falls
pub mod Rounds
pub mod Levels
pub mod Agrees
pub mod SameUpdate
pub mod Inserting
pub mod Placing
pub mod Serves
pub mod Calls
pub mod Changes
pub mod Client
pub mod Refinement
mod Tests
