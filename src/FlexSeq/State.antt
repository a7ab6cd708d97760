-- ===== src/FlexSeq/State.antt =====
-- The nodes, the list, and the small operations on them.
use splaylist.Base.{ℕ, zero, suc, ◌+◌, ◌-◌, Option, none, some, ltb, if◌then◌else◌}
use splaylist.Base.Int.{ℤ, pos, ◌+ℤ◌}
pub use splaylist.Base.Memory.{upd}
use splaylist.Base.Run.{Run, done, stuck}

-- `MAX_LEVEL` of this list
abbrev pub max_level : ℕ
max_level = 30

-- A pointer is the number of a node in the order of allocation; `none` in a link is NULL. The
-- counters are signed and do not wrap here; signed overflow has no meaning in the source.
pub record Node {ℓ} (V : Type ℓ) : Type ℓ where
  pub key : ℕ
  pub value : V
  pub zero_level : ℕ
  pub top_level : ℕ
  pub selfhits : ℤ
  pub next : ℕ → Option ℕ
  pub hits : ℕ → ℤ

-- `highest` is the constant MAX_LEVEL, which the lists of the repository choose differently.
-- `path_lengths` is the member `sumLengths`, and `sum_lengths` the member of that name. `nodes` is the
-- memory, of which the first `size` nodes are allocated. The members `init` and `recordManager` serve
-- the reclamation library.
pub record FlexList {ℓ} (V : Type ℓ) : Type ℓ where
  pub nodes : ℕ → Node V
  pub size : ℕ
  pub highest : ℕ
  pub zero_level : ℕ
  pub update_num : ℕ
  pub path_lengths : ℕ
  pub update_counter : ℕ
  pub sum_lengths : ℕ
  pub access_counter : ℕ
  pub no_value : V

abbrev pub head : ℕ
head = 0

abbrev pub tail : ℕ
tail = 1

module _ {ℓ} {V : Type ℓ} where
  -- `*p = n`
  abbrev pub put : ℕ → Node V → FlexList V → FlexList V
  put p n s = record s { nodes = upd s.nodes p n }

  -- `p->next[h]`, which must not be NULL where it is read further
  abbrev pub read_next : ℕ → ℕ → FlexList V → Run ℕ
  read_next p h s = elim ((s.nodes p).next h) [ none ↦ stuck | some q ↦ done q ]

  unfoldable pub set_next : ℕ → ℕ → Option ℕ → FlexList V → FlexList V
  set_next p h q s = put p (record (s.nodes p) { next = upd (s.nodes p).next h q }) s

  unfoldable pub set_hits : ℕ → ℕ → ℤ → FlexList V → FlexList V
  set_hits p h c s = put p (record (s.nodes p) { hits = upd (s.nodes p).hits h c }) s

  unfoldable pub set_top_level : ℕ → ℕ → FlexList V → FlexList V
  set_top_level p h s = put p (record (s.nodes p) { top_level = h }) s

  -- A node gets its link at one level below, unless it has all that the list uses.
  unfoldable pub update_zero_level : ℕ → FlexList V → FlexList V
  update_zero_level curr s =
      let n = s.nodes curr in
      if ltb s.zero_level n.zero_level
      then put curr
          (record n {
            hits = upd n.hits (n.zero_level - 1) (pos 0);
            next = upd n.next (n.zero_level - 1) (n.next n.zero_level);
            zero_level = n.zero_level - 1;
          })
          s
      else s

  -- `while (p->zeroLevel > h) updateZeroLevel(p);`
  unfoldable pub lower : ℕ → ℕ → ℕ → FlexList V → Run (FlexList V)
  unfolding update_zero_level
  lower zero p h s = stuck
  lower (suc fuel) p h s =
      let rest = lower fuel p h (update_zero_level p s) in
      if ltb h (s.nodes p).zero_level then rest else done s

  -- No node has more than `highest` levels to go through.
  unfoldable pub lower_to : ℕ → ℕ → FlexList V → Run (FlexList V)
  unfolding lower
  lower_to p h s = lower (s.highest + 1) p h s

  unfoldable pub get_hits : ℕ → ℕ → FlexList V → ℤ
  get_hits curr h s =
      if ltb h (s.nodes curr).zero_level
      then (s.nodes curr).selfhits
      else (s.nodes curr).selfhits +ℤ (s.nodes curr).hits h

  -- A node with no links, at the next free address.
  unfoldable pub create_node : ℕ → ℕ → V → FlexList V → FlexList V
  create_node h key value s = record s {
    size = s.size + 1;
    nodes = upd s.nodes s.size (record {
      key = key;
      value = value;
      zero_level = h;
      top_level = h;
      selfhits = pos 0;
      next = λ i. none;
      hits = λ i. pos 0;
    });
  }
