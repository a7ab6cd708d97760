-- ===== src/FlexSeq/Ops.antt =====
-- The public operations of `class FlexList`.
use splaylist.Base.{
  ℕ, zero, suc, ◌+◌, ◌-◌, Bool, true, false, Option, none, some, ◌==◌, if◌then◌else◌,
}
use splaylist.Base.Run.{Run, done, stuck, ◌>>=◌}
use splaylist.FlexSeq.State.{FlexList, Node, max_level, head, tail, set_next, create_node, upd}
use splaylist.FlexSeq.Find.{find}
use splaylist.FlexSeq.Update.{links_to, update}

module _ {ℓ} {V : Type ℓ} where
  -- `head` and `tail` with the smallest and the greatest key, and `highest` levels. `zero_value` is the
  -- value 0 that the constructor writes there, and `empty` the memory before.
  unfoldable pub build_list : ℕ → ℕ → V → V → ℕ → ℕ → (ℕ → Node V) → FlexList V
  build_list highest update_num no_value zero_value min_key max_key empty =
      let z = highest - 1 in
      let s₀ : FlexList V = record {
        nodes = empty;
        size = 0;
        highest = highest;
        zero_level = z;
        update_num = update_num;
        path_lengths = 0;
        update_counter = 0;
        sum_lengths = 0;
        access_counter = 0;
        no_value = no_value;
      } in
      let s₁ = create_node z max_key zero_value (create_node z min_key zero_value s₀) in
      let ends = λ (p : ℕ). record (s₁.nodes p) { top_level = highest } in
      set_next head highest (some tail) (
        set_next head z (some tail)
          (record s₁ { nodes = upd (upd s₁.nodes head (ends head)) tail (ends tail) }))

  -- The constructor
  unfoldable pub new_list : V → V → ℕ → ℕ → (ℕ → Node V) → FlexList V
  unfolding build_list
  new_list no_value zero_value min_key max_key empty =
      build_list max_level 1 no_value zero_value min_key max_key empty

  -- What a successful look-up does afterwards.
  unfoldable pub count_update : ℕ → FlexList V → Run (FlexList V)
  count_update key s =
      let s₁ = record s { update_counter = s.update_counter + 1 } in
      if s₁.update_counter == s₁.update_num
      then (do s₂ ← update key s₁; done (record s₂ { update_counter = 0 }))
      else done s₁

  unfoldable pub contains : ℕ → FlexList V → Run (Bool × FlexList V)
  contains key s = do
    (found, pred, succ, s₁) ← find key s
    if found then (do s₂ ← count_update key s₁; done (true, s₂)) else done (false, s₁)

  -- `p->value` for a pointer that may be NULL
  abbrev pub value_at : Option ℕ → FlexList V → Run V
  value_at none s = stuck
  value_at (some p) s = done (s.nodes p).value

  unfoldable pub qfind : ℕ → FlexList V → Run (V × FlexList V)
  qfind key s = do
    (found, pred, succ, s₁) ← find key s
    if found
        then (do v ← value_at succ s₁; s₂ ← count_update key s₁; done (v, s₂))
        else done (s₁.no_value, s₁)

  -- A round of the `while (true)` loop for each unit of fuel. A new node whose place was taken goes to
  -- `retire`, which leaves the memory as it is.
  unfoldable pub insert_loop : ℕ → ℕ → V → FlexList V → Run (V × FlexList V)
  insert_loop zero key value s = stuck
  insert_loop (suc fuel) key value s = do
    (found, pred, succ, s₁) ← find key s
    let z = (s₁.nodes pred).zero_level
    let new_node = s₁.size
    let s₂ = set_next new_node z succ (create_node z key value s₁)
    let linked : Run (V × FlexList V) = do
      s₃ ← update key (set_next pred z (some new_node) s₂)
      done (s₃.no_value, s₃)
    let again = insert_loop fuel key value s₂
    let present : Run (V × FlexList V) = do v ← value_at succ s₁; done (v, s₁)
    if found
        then present
        else if (elim succ [ none ↦ false | some q ↦ links_to pred z q s₂ ])
        then linked
        else again

  unfoldable pub insert_if_absent : ℕ → V → FlexList V → Run (V × FlexList V)
  insert_if_absent key value s = insert_loop 1 key value s

  unfoldable pub set_cops : ℕ → FlexList V → FlexList V
  set_cops cops s = record s { update_num = cops }

  unfoldable pub get_height : FlexList V → ℕ
  get_height s = s.highest - 1 - s.zero_level

  unfoldable pub get_root : FlexList V → Option ℕ
  get_root s = (s.nodes head).next 0

  unfoldable pub get_paths_length : FlexList V → ℕ
  get_paths_length s = s.path_lengths

  unfoldable pub validate : FlexList V → Bool
  validate s = true
