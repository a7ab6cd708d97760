-- ===== src/CbTree/Ops.antt =====
-- The public operations of `class CBTree` over the loop, and the walk that leaves the tree alone.
use mathlib.Core.Option
use splaylist.Base.{ℕ, zero, suc, ◌+◌, true, false, Option, none, some, if◌then◌else◌}
use splaylist.CbTree.Tree.{
  Tree, leaf, node, new_node, is_null, bump, set_child, less, equal, get_child, size, subtree_at,
  modify_at,
}
use splaylist.CbTree.Search.{Found, search_loop}

-- `less` is that of the default comparator. The member `length` counts rounds.
pub record CbTree {ℓ} (V : Type ℓ) : Type ℓ where
  pub root : Tree V
  pub max_key : ℕ
  pub no_value : V
  pub length : ℕ

infixl 5 ◌>>=◌
abbrev pub ◌>>=◌ {ℓ κ} : {A : Type ℓ} {B : Type κ} → Option A → (A → Option B) → Option B
none >>= f = none
some a >>= f = f a

module _ {ℓ} {V : Type ℓ} where
  -- The constructor leaves `length` as the memory has it, `old_length`.
  unfoldable pub new_tree : ℕ → V → ℕ → CbTree V
  unfolding new_node
  new_tree max_key no_value old_length = record {
    root = new_node max_key no_value;
    max_key = max_key;
    no_value = no_value;
    length = old_length;
  }

  -- The loop from the root.
  unfoldable pub search : ℕ → CbTree V → ℕ → Option (CbTree V × Found V)
  unfolding search_loop size
  search rotation_eps t key =
      Option.map (λ r. (record t { root = r.tree; length = t.length + r.rounds }, r))
        (search_loop (size t.root) rotation_eps key true t.root)

  -- `p->value`; `none` is a null pointer.
  abbrev pub value_of : Tree V → Option V
  value_of leaf = none
  value_of (node l k v w r) = some v

  -- Hangs a new node, counted once, below its parent.
  unfoldable pub attach : ℕ → V → Tree V → Tree V
  unfolding less bump new_node
  attach key val parent_node =
      if less key parent_node
      then set_child true parent_node (bump (new_node key val))
      else set_child false parent_node (bump (new_node key val))

  unfoldable pub insert_if_absent : ℕ → CbTree V → ℕ → V → Option (CbTree V × V)
  unfolding search attach
  insert_if_absent rotation_eps t key val = do
    (t', r) ← search rotation_eps t key
    if r.hit
        then Option.map (λ v. (t', v)) (value_of (subtree_at r.place t'.root))
        else some (record t' { root = modify_at r.place (attach key val) t'.root }, t'.no_value)

  unfoldable pub find : ℕ → CbTree V → ℕ → Option (CbTree V × V)
  unfolding search
  find rotation_eps t x = do
    (t', r) ← search rotation_eps t x
    if r.hit
        then Option.map (λ v. (t', v)) (value_of (subtree_at r.place t'.root))
        else some (t', t'.no_value)

  unfoldable pub get_length : CbTree V → ℕ
  get_length t = t.length

  -- `search_no_restructure`, on fuel like `search_loop`: it returns the value found, and the rounds.
  unfoldable pub search_no_restructure_loop : ℕ → ℕ → Tree V → Option (Option V × ℕ)
  unfolding get_child equal
  search_no_restructure_loop zero key z = none
  search_no_restructure_loop (suc fuel) key z =
      let y = (get_child z key false).0 in
      let x = (get_child y key false).0 in
      let rest = Option.map (λ (v, n). (v, n + 1)) (search_no_restructure_loop fuel key x) in
      if is_null z
      then none
      else if is_null y
      then some ((if equal key z then value_of z else none), 1)
      else if is_null x
      then some ((if equal key y then value_of y else none), 1)
      else rest

  unfoldable pub search_no_restructure : CbTree V → ℕ → Option (CbTree V × Option V)
  unfolding search_no_restructure_loop size
  search_no_restructure t key =
      Option.map (λ (v, n). (record t { length = t.length + n }, v))
        (search_no_restructure_loop (size t.root) key t.root)
