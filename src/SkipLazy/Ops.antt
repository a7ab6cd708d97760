-- ===== src/SkipLazy/Ops.antt =====
-- The constructor, `validate` and the readers.
use splaylist.Base.{
  ℕ, zero, suc, ◌+◌, ◌-◌, Bool, true, false, ◌||◌, Option, none, some, List, [], ◌∷◌, ltb, ◌==◌,
  if◌then◌else◌,
}
use splaylist.Base.Run.{Run, done, stuck, ◌>>=◌}
use splaylist.SkipLazy.State.{
  SkipList, Nodes, max_level, head, tail, stored, read_next, set_next, create_node,
}

-- `head->next[i] = tail; tail->next[i] = NULL;` for `n` levels from `i` on
unfoldable pub link_ends : ℕ → ℕ → SkipList → SkipList
link_ends zero i s = s
link_ends (suc n) i s = link_ends n (i + 1) (set_next tail i none (set_next head i (some tail) s))

-- The constructor, in the memory `empty`, for `minKey` and `maxKey` from 0; `lengths` and `seeds` are what the entries of the threads hold
-- that it does not set up.
unfoldable pub new_list : ℕ → ℕ → ℕ → ℕ → (ℕ → ℕ) → (ℕ → ℕ) → Nodes → SkipList
unfolding link_ends create_node
new_list num_threads no_value min_key max_key lengths seeds empty =
    let s₀ : SkipList = record {
      nodes = empty;
      size = 0;
      real_max_lvl = 1;
      sum_lengths = λ i. if ltb i num_threads then 0 else lengths i;
      seed = λ i. if ltb i num_threads then i + 1 else seeds i;
      no_value = no_value;
    } in
    link_ends (max_level + 1) 0 (
      create_node max_level (stored max_key + 1) 0
        (create_node max_level (stored min_key - 1) 0 s₀))

-- `keys.find(key) != keys.end()`
unfoldable pub mem_key : ℕ → List ℕ → Bool
mem_key k [] = false
mem_key k (x ∷ xs) = x == k || mem_key k xs

-- The loop of `validate`; `prev_key` is one below `first` throughout. A round for each unit of fuel.
unfoldable pub validate_loop : ℕ → ℕ → List ℕ → ℕ → SkipList → Run Bool
unfolding mem_key
validate_loop zero first keys p s = stuck
validate_loop (suc fuel) first keys p s =
    let key = s.nodes.key p in
    let rest : Run Bool = do q ← read_next p 0 s; validate_loop fuel first (key ∷ keys) q s
    in if p == tail
      then done true
      else if mem_key key keys || ltb key first
      then done false
      else rest

-- The number of rounds is that of the steps to `tail` and one more, or greater.
unfoldable pub validate : ℕ → SkipList → Run Bool
unfolding validate_loop
validate fuel s = validate_loop fuel (s.nodes.key head) [] head s

unfoldable pub get_root : SkipList → Option ℕ
get_root s = s.nodes.next head 0

unfoldable pub get_paths_length : ℕ → SkipList → ℕ
get_paths_length tid s = s.sum_lengths tid

unfoldable pub get_height : SkipList → ℕ
get_height s = s.real_max_lvl
