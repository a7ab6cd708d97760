-- ===== src/CbTree/Tree.antt =====
-- `struct CBTreeNode` and the static helpers of `class CBTree` that compare keys and find a child.
use splaylist.Base.{ℕ, suc, ◌+◌, Bool, true, false, not, ◌&&◌, List, [], ◌∷◌, ltb, if◌then◌else◌}
use splaylist.Base.Int.{ℤ, pos, ◌+ℤ◌, ◌-ℤ◌}

-- A null pointer is `leaf`. The field `parent` of the source is set to null and never read.
pub data Tree {ℓ} (V : Type ℓ) : Type ℓ where
  leaf : Tree V
  node : (left : Tree V) (key : ℕ) (value : V) (w : ℤ) (right : Tree V) → Tree V

module _ {ℓ} {V : Type ℓ} where
  -- A fresh node: no children, and weight 0.
  unfoldable pub new_node : ℕ → V → Tree V
  new_node key value = node leaf key value (pos 0) leaf

  -- `t == nullptr ? 0 : t->w`
  abbrev pub weight : Tree V → ℤ
  weight leaf = pos 0
  weight (node l k v w r) = w

  -- The accesses of the node itself, `c()`.
  unfoldable pub own_count : Tree V → ℤ
  own_count leaf = pos 0
  own_count (node l k v w r) = w -ℤ weight l -ℤ weight r

  abbrev pub is_null : Tree V → Bool
  is_null leaf = true
  is_null (node l k v w r) = false

  -- `t->w++`
  unfoldable pub bump : Tree V → Tree V
  bump leaf = leaf
  bump (node l k v w r) = node l k v (w +ℤ pos 1) r

  abbrev pub left : Tree V → Tree V
  left leaf = leaf
  left (node l k v w r) = l

  abbrev pub right : Tree V → Tree V
  right leaf = leaf
  right (node l k v w r) = r

  -- Writes the left or right child pointer.
  abbrev pub set_child : Bool → Tree V → Tree V → Tree V
  set_child move_left leaf c = leaf
  set_child true (node l k v w r) c = node c k v w r
  set_child false (node l k v w r) c = node l k v w c

  unfoldable pub greater : ℕ → Tree V → Bool
  greater key leaf = false
  greater key (node l k v w r) = ltb k key

  unfoldable pub less : ℕ → Tree V → Bool
  less key leaf = true
  less key (node l k v w r) = ltb key k

  unfoldable pub equal : ℕ → Tree V → Bool
  equal key leaf = false
  equal key (node l k v w r) = not (ltb key k) && not (ltb k key)

  -- The child towards `key`, and the new value of the flag `move_left`, which keeps its old value at
  -- a node with that key. The callers pass no null node.
  unfoldable pub get_child : Tree V → ℕ → Bool → Tree V × Bool
  unfolding less greater
  get_child t key move_left =
      if less key t
      then (left t, true)
      else if greater key t
      then (right t, false)
      else (leaf, move_left)

  -- The number of nodes.
  unfoldable pub size : Tree V → ℕ
  size leaf = 0
  size (node l k v w r) = suc (size l + size r)

  -- What a pointer leads to.
  abbrev pub subtree_at : List Bool → Tree V → Tree V
  subtree_at [] t = t
  subtree_at (d ∷ p) leaf = leaf
  subtree_at (true ∷ p) (node l k v w r) = subtree_at p l
  subtree_at (false ∷ p) (node l k v w r) = subtree_at p r

  -- A write through a pointer.
  abbrev pub modify_at : List Bool → (Tree V → Tree V) → Tree V → Tree V
  modify_at [] f t = f t
  modify_at (d ∷ p) f leaf = leaf
  modify_at (true ∷ p) f (node l k v w r) = node (modify_at p f l) k v w r
  modify_at (false ∷ p) f (node l k v w r) = node l k v w (modify_at p f r)
