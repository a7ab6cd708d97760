-- ===== src/CbShared/State.antt =====
-- The members of the class, and where a thread stands in its operations.
use splaylist.Base.{
  ℕ, ◌+◌, Bool, true, false, ◌&&◌, Option, none, some, List, [], ◌∷◌, ◌==◌, if◌then◌else◌,
}
use splaylist.Base.Memory.{upd}
use splaylist.CbTree.Tree.{Tree, new_node}
use splaylist.CbTree.Ops.{CbTree}
use splaylist.CbTree.Client.{Call, find_key, insert_key}

-- `class CBTree` without its lock; `length` and `nops` have an entry for each thread. Values are
-- numbers, as insertIfAbsent compares them.
pub record Shared : Type 0 where
  pub root : Tree ℕ
  pub max_key : ℕ
  pub no_value : ℕ
  pub length : ℕ → ℕ
  pub nops : ℕ → ℕ
  pub cops : ℕ

-- The constructor; `old_cops` is what the memory holds, as it does not set `cops`.
unfoldable pub new_shared : ℕ → ℕ → ℕ → Shared
unfolding new_node
new_shared max_key no_value old_cops = record {
  root = new_node max_key no_value;
  max_key = max_key;
  no_value = no_value;
  length = λ tid. 0;
  nops = λ tid. 0;
  cops = old_cops;
}

-- `getLength`
unfoldable pub length_of : ℕ → Shared → ℕ
length_of tid s = s.length tid

-- The searches are those of the sequential tree, with the counter of the thread, on the tree `root`.
abbrev pub seen_at : ℕ → Tree ℕ → Shared → CbTree ℕ
seen_at tid root s = record {
  root = root;
  max_key = s.max_key;
  no_value = s.no_value;
  length = s.length tid;
}

abbrev pub seen_by : ℕ → Shared → CbTree ℕ
seen_by tid s = seen_at tid s.root s

-- What a search that may rotate leaves, and what one leaves that does not.
abbrev pub put : ℕ → CbTree ℕ → Shared → Shared
put tid t s = record s { root = t.root; length = upd s.length tid t.length }

abbrev pub put_length : ℕ → CbTree ℕ → Shared → Shared
put_length tid t s = record s { length = upd s.length tid t.length }

-- `nops[tid].value++`
abbrev pub count_op : ℕ → Shared → Shared
count_op tid s = record s { nops = upd s.nops tid (s.nops tid + 1) }

-- `nops[tid].value = 0`
abbrev pub reset_ops : ℕ → Shared → Shared
reset_ops tid s = record s { nops = upd s.nops tid 0 }

-- `tid == 1 && nops[tid].value == cops`, the test for a search that may rotate
unfoldable pub one_restructures : ℕ → Shared → Bool
one_restructures tid s = tid == 1 && s.nops tid == s.cops

-- The same test of the fair variant: `nops[tid].value == cops`
unfoldable pub each_restructures : ℕ → Shared → Bool
each_restructures tid s = s.nops tid == s.cops

unfoldable pub set_cops : ℕ → Shared → Shared
set_cops n s = record s { cops = n }

-- A `find` is a call of its own, or the first part of an insertion of a value.
pub data Goal : Type 0 where
  reads : Goal
  inserts : (value : ℕ) → Goal

-- Where a thread stands, with the local variables that are live there. In a critical section `root` is
-- the tree as the section found it.
pub data Pc : Type 0 where
  idle : Pc
  entered : (goal : Goal) (key : ℕ) → Pc  -- before the test in `find`
  wants_exclusive : (goal : Goal) (key : ℕ) → Pc
  restructuring : (goal : Goal) (key : ℕ) → Pc
  splaying : (goal : Goal) (key : ℕ) (root : Tree ℕ) → Pc
  restructured : (goal : Goal) (key value : ℕ) → Pc
  resets : (goal : Goal) (key value : ℕ) → Pc  -- the lock given back, before `nops` is reset
  wants_shared : (goal : Goal) (key : ℕ) → Pc
  reading : (goal : Goal) (key : ℕ) → Pc
  walking : (goal : Goal) (key : ℕ) (root : Tree ℕ) → Pc
  has_read : (goal : Goal) (key value : ℕ) → Pc
  found : (goal : Goal) (key value : ℕ) → Pc  -- after `find`
  wants_insert : (key value : ℕ) → Pc
  inserting : (key value : ℕ) → Pc
  placing : (key value : ℕ) (root : Tree ℕ) → Pc
  inserted : (key value result : ℕ) → Pc

-- The thread holds the lock exclusively, or shared.
abbrev pub is_writer : Pc → Bool
is_writer (restructuring g k) = true
is_writer (splaying g k u) = true
is_writer (restructured g k v) = true
is_writer (inserting k v) = true
is_writer (placing k v u) = true
is_writer (inserted k x v) = true
is_writer p = false

abbrev pub is_reader : Pc → Bool
is_reader (reading g k) = true
is_reader (walking g k u) = true
is_reader (has_read g k v) = true
is_reader p = false

-- The thread waits for the lock.
abbrev pub is_waiting : Pc → Bool
is_waiting (wants_exclusive g k) = true
is_waiting (wants_shared g k) = true
is_waiting (wants_insert k x) = true
is_waiting p = false

-- The tree that a critical section works on.
abbrev pub snapshot : Pc → Option (Tree ℕ)
snapshot (splaying g k u) = some u
snapshot (walking g k u) = some u
snapshot (placing k v u) = some u
snapshot p = none

-- A call that has taken its effect, with what it returns.
pub record Event : Type 0 where
  pub call : Call ℕ
  pub reply : ℕ

-- A search that found `v` settles a call of `find`, and an insertion unless `v` is `no_value`.
abbrev pub settled : ℕ → Goal → ℕ → ℕ → List Event
settled no_value reads key v = record { call = find_key key; reply = v } ∷ []
settled no_value (inserts x) key v =
    if v == no_value then [] else record { call = insert_key key x; reply = v } ∷ []
