-- ===== src/FlexLocks/Shared.antt =====
-- The nodes and their locks, and the small operations on them.
use splaylist.Base.{ℕ, Bool, true, false, ltb, if◌then◌else◌}
use splaylist.Base.Run.{Run, done, stuck, ◌>>=◌}
use splaylist.FlexSeq.State.{FlexList, Node, upd, lower_to}
use splaylist.FlexSeq.State

-- `MAX_LEVEL`
abbrev pub max_level : ℕ
max_level = 44

-- `list` has the nodes, without the fields below, and the members of the class that all threads use.
-- Its own `path_lengths` and `update_counter` are not used: each thread has an entry in the two here.
-- Values are pointers, written as numbers. `curAccess` is an int: the model is exact for fewer than
-- 2 ^ 31 accesses.
pub record LockList : Type 0 where
  pub list : FlexList ℕ
  pub lock : ℕ → Bool
  pub contains : ℕ → ℕ
  pub path_lengths : ℕ → ℕ
  pub update_counter : ℕ → ℕ

-- A step that no lock and no thread's counter takes part in.
abbrev pub on_list : (FlexList ℕ → FlexList ℕ) → LockList → LockList
on_list f s = record s { list = f s.list }

abbrev pub run_list : (FlexList ℕ → Run (FlexList ℕ)) → LockList → Run LockList
run_list f s = do l ← f s.list; done (record s { list = l })

-- `acquireLock`. One thread is at work, and nobody else gives a lock back that it waits for.
unfoldable pub acquire_lock : ℕ → LockList → Run LockList
acquire_lock p s = if s.lock p then stuck else done (record s { lock = upd s.lock p true })

unfoldable pub release_lock : ℕ → LockList → LockList
release_lock p s = record s { lock = upd s.lock p false }

-- `p->next[h]`, which must not be NULL where it is read further
abbrev pub read_next : ℕ → ℕ → LockList → Run ℕ
read_next p h s = splaylist.FlexSeq.State.read_next p h s.list

-- `if (p->zeroLevel > h) { ... }`: the node is lowered to level `h` under its lock.
unfoldable pub lower_locked : ℕ → ℕ → LockList → Run LockList
unfolding acquire_lock release_lock lower_to
lower_locked p h s =
    let under_lock : Run LockList = do
      s₁ ← acquire_lock p s
      s₂ ← run_list (lower_to p h) s₁
      done (release_lock p s₂)
    in if ltb h (s.list.nodes p).zero_level then under_lock else done s

-- A node with no links, at the next free address.
unfoldable pub create_node : ℕ → ℕ → ℕ → LockList → LockList
create_node h key value s = record s {
  list = splaylist.FlexSeq.State.create_node h key value s.list;
  lock = upd s.lock s.list.size false;
  contains = upd s.contains s.list.size 0;
}
