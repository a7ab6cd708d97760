-- ===== src/SkipLazy/State.antt =====
-- The nodes, the list, and the small operations on them.
use splaylist.Base.{ℕ, ◌+◌, Bool, true, false, Option, none, some, ◌==◌, if◌then◌else◌}
use splaylist.Base.Memory.{upd}
use splaylist.Base.Run.{Run, done, stuck}

-- `MAX_LEVEL`
abbrev pub max_level : ℕ
max_level = 25

-- The value that `return NULL` gives.
abbrev pub null : ℕ
null = 0

-- How a key is written: one above what it is in the source, so that -1, which the key of `head` is where
-- `minKey` is 0, is a number too. Every key of a node and of an operation is written so.
abbrev pub stored : ℕ → ℕ
stored key = key + 1

-- `struct Node`, with a function of the pointer for each field. A pointer is the number of a node in
-- the order of allocation; `none` in a link is NULL.
pub record Nodes : Type 0 where
  pub key : ℕ → ℕ
  pub value : ℕ → ℕ
  pub mark : ℕ → Bool
  pub fully_linked : ℕ → Bool
  pub lock : ℕ → Bool
  pub top_level : ℕ → ℕ
  pub next : ℕ → ℕ → Option ℕ

-- `class SkipList`; `sum_lengths` and `seed` have an entry for each thread, and the first `size` nodes
-- are allocated.
pub record SkipList : Type 0 where
  pub nodes : Nodes
  pub size : ℕ
  pub real_max_lvl : ℕ
  pub sum_lengths : ℕ → ℕ
  pub seed : ℕ → ℕ
  pub no_value : ℕ

abbrev pub head : ℕ
head = 0

abbrev pub tail : ℕ
tail = 1

-- `p->next[h]`, which must not be NULL where it is read further
abbrev pub read_next : ℕ → ℕ → SkipList → Run ℕ
read_next p h s = elim (s.nodes.next p h) [ none ↦ stuck | some q ↦ done q ]

abbrev pub set_next : ℕ → ℕ → Option ℕ → SkipList → SkipList
set_next p h q s = record s {
  nodes = record (s.nodes) { next = upd s.nodes.next p (upd (s.nodes.next p) h q) };
}

abbrev pub set_value : ℕ → ℕ → SkipList → SkipList
set_value p v s = record s { nodes = record (s.nodes) { value = upd s.nodes.value p v } }

abbrev pub set_lock : ℕ → Bool → SkipList → SkipList
set_lock p b s = record s { nodes = record (s.nodes) { lock = upd s.nodes.lock p b } }

-- `acquireLock`. With one thread at work nobody else gives a lock back, so a lock that is held is
-- waited for in vain.
unfoldable pub acquire_lock : ℕ → SkipList → Run SkipList
acquire_lock p s = if s.nodes.lock p then stuck else done (set_lock p true s)

-- `releaseLock`
unfoldable pub release_lock : ℕ → SkipList → SkipList
release_lock p s = set_lock p false s

-- `__sync_bool_compare_and_swap(&(p->value), old, v)`
unfoldable pub swap_value : ℕ → ℕ → ℕ → SkipList → Bool × SkipList
swap_value p old v s = if s.nodes.value p == old then (true, set_value p v s) else (false, s)

-- A node at the next free address. Its links are what the memory held before.
unfoldable pub create_node : ℕ → ℕ → ℕ → SkipList → SkipList
create_node h key value s = record s {
  size = s.size + 1;
  nodes = record (s.nodes) {
    top_level = upd s.nodes.top_level s.size h;
    key = upd s.nodes.key s.size key;
    value = upd s.nodes.value s.size value;
    fully_linked = upd s.nodes.fully_linked s.size false;
    mark = upd s.nodes.mark s.size false;
    lock = upd s.nodes.lock s.size false;
  };
}

-- `sumLengths[tid].value++`
abbrev pub count_step : ℕ → SkipList → SkipList
count_step tid s = record s { sum_lengths = upd s.sum_lengths tid (s.sum_lengths tid + 1) }
