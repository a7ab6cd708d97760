-- ===== src/Lib.antt =====
-- The self-adjusting structures of structs_bench/ds.
--
-- CbTree models structs_bench/ds/cbtree/cbtree_impl.h, a binary search tree that rotates frequently read nodes
-- upwards. Tree has the nodes and the key tests (greater, less, equal, get_child), Rotate the two
-- rotations and the tests for them, Search the loop of search, Ops the class with insertIfAbsent, find
-- and search_no_restructure. A pointer is the list of turns from the root. The floating-point tests are
-- multiplied out by 2^rotation_eps, which is exact for weights that a double holds exactly. Weights are
-- signed integers without the wrap-around of long long, but the narrowing to int in the rotations is
-- modelled. The loop has one unit of fuel for each node of the tree, which is enough because every
-- round shortens the way to the key (CbTree/Walk/Depth). Adapter has structs_bench/ds/cbtree/adapter.h,
-- the interface of the benchmarks, where an operation may abort the program; whether the program is built
-- with asserts, which both Makefiles turn off by -DNDEBUG unless told otherwise, is an argument.
--
-- CbShared models structs_bench/ds/cbtree-concurrent/cbtree_impl.h and structs_bench/ds/cbtree-concurrent-fair/cbtree_impl.h, the same
-- tree shared by threads, as a step relation. State has the members of the class and the places where a
-- thread may stand, Steps the steps: each access to the lock is one, and each critical section takes
-- two, one that reads the tree and one that writes the result of the search of CbTree. The lock is a
-- library of another project, and so a parameter: RwLock says what it promises. The test for the
-- searches that may rotate, by which the two sources differ, is a parameter too, and so is the number
-- of threads. Values are natural numbers. A call is settled at the write of the critical section that
-- decides its reply. Locked has who holds the lock, Linear the calls settled so far against a map,
-- Safety and Settled what holds in every state that is reached. The searches are taken to read and
-- write memory in order; the counters of one thread are not accessed by another.
--
-- FlexSeq models structs_bench/ds/flexlist_seq/flexlist.h, the sequential splay list: a skip list in which frequently
-- read keys rise. State has the nodes, the list, updateZeroLevel, getHits and createNode; Find has find;
-- Update has update, with one definition for each branch of its inner loop; Ops has the constructor and
-- the public operations, on a list with any number of levels that the constructor sets to 30; New, Laws, Calls and Insertion have their theorems, and
-- Client and Refinement run sequences of calls against a map. A pointer is the number of a node in the
-- order of allocation, and a read through NULL ends a run as `stuck`. A run ends as `sunk` where update
-- would move zeroLevel below 0, which the source does not guard against. Counters of hits are signed
-- and unbounded. The loops have fuel: 31 rounds to write out the links of one node, which has at most
-- 30 levels above 0; key + 1 rounds along a level, as the keys along the links grow; 30 rounds for the
-- levels and for a node that rises; one round for the retry loop of insertIfAbsent, which nothing can
-- disturb in sequential code. View says what the links stand for: a node's links below its own zero
-- level are those at that level. Its children treat the writes one by one: Lowering, Risen, Fallen,
-- Moves, Steps, Inserted and Inserting; Search treats find, and Rising, Falling, Level, Round and
-- Updating the loops of update from the inside out.
--
-- FlexLocks models structs_bench/ds/flexlist_locks/flexlist.h, the splay list with a lock in each node, and the
-- spin lock that it takes, run by one thread at a time: calls of several threads follow one another.
-- Shared has the state, Find the search, Walk the loop of both updates along a level, Update the loops
-- over the levels, update, insert and updateWithInsert, Ops the constructor and the public operations,
-- Report validate and the two lists of pairs. The nodes and what works on one of them without locks
-- (updateZeroLevel, getHits, rising, falling) are the same text as in the sequential list and are those of
-- FlexSeq, with 44 levels; the member MAX_LEVEL is the field `highest` there. The loop along a level is
-- written out twice in the source, with one difference in how an access is counted, and once here, with
-- that as an argument. A lock that is held is waited for in vain, so that such a run is stuck, as is one
-- that fails the assertion in insert. Values are pointers, written as numbers. The fuel is that of FlexSeq, one
-- round for each retry of a compare-and-swap, which nobody disturbs, and as many rounds as there are
-- nodes for the reports. curAccess is an int: the model is exact for fewer than 2^31 accesses, for which
-- the counters of a node do not overflow and no shift is by more than 31. Held says which locks are held
-- before and after the small operations, Search treats find, Branches and Falls set the branches of the loop
-- against those without locks, Rounds, Levels, Inserting and Placing treat the updates from the inside out, Agrees and SameUpdate set
-- update against the one without locks, Serves
-- puts the list against a map, Calls and Changes have each operation, and Client and Refinement sequences of them.
--
-- SkipLazy models structs_bench/ds/skiplist_lazy/skiplist.h, the lazy skip list, and the spin lock of
-- structs_bench/common/locks_impl.h, run by one thread at a time. State has the nodes, the list, the lock and
-- createNode; Random has PaddedRandom; Search the public contains and find and the private find with
-- preds and succs; Change insertIfAbsent, with one definition for each of its loops, and erase; Ops the
-- constructor, validate and the readers. A pointer is again the number of a node, and a value is a
-- number, as NULL is returned for one. A lock that is held is waited for in vain when no other thread
-- runs, and so is a node that is not fully linked: such a run is stuck. The loops have fuel: key + 1
-- rounds along a level; one round for each retry loop, which only another thread could make go round;
-- more rounds for validate than there are steps along level 0, a number that it takes as an argument. A
-- key is written as the number one above it (stored), so that minKey - 1, the key of head, is a number for
-- the smallest key 0 too; keys below 0 are not modelled. The calls of Client and Plain have the keys of
-- the source. Shape says what the links stand for, Locks which locks are held, Serves puts both
-- together with the map that the list holds; Laws and Insertion have each operation
-- against that map, and Client and Plain sequences of calls.
--
-- SpinLock models structs_bench/common/locks_impl.h again, as a step relation for any number of threads: Steps has the
-- accesses to the lock, Safety what holds in every state that is reached. A thread gives the lock back
-- only where it holds it, as its callers do.
--
-- RwReaders and RwWriters model the two reader-writer locks that structs_bench/common/rwlock.h writes out,
-- the one that favours readers, with upgradeLock, and the one that favours writers, as step relations
-- for any number of threads, an access to the word of the lock at a time. The words, a size_t and
-- a long long, are the number of their 64 bits, with the wrap-around of additions and subtractions; the
-- number of threads is bounded so that no carry reaches the top bit. A thread gives back
-- only what it holds.
--
-- Base has the shared names, the store of nodes, sums over threads, signed integers and lists of entries in key order.
--
-- Not modelled: printing, the reclamation library, the vendored range-query and multi-word libraries,
-- the benchmark drivers, the variants of the lock-based splay list, and several threads at work on a
-- skip list or a splay list.
pub mod Base
pub mod CbTree
pub mod CbShared
pub mod FlexSeq
pub mod SkipLazy
pub mod RwReaders
pub mod RwWriters
pub mod SpinLock
pub mod FlexLocks
