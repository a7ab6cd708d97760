-- ===== src/CbTree/Walk/Depth.antt =====
-- The length of the way that a search takes, which every round shortens.
use splaylist.Base.{ℕ, suc, ◌≤◌, ◌<◌, ◌≡◌, refl, Bool, true, false, not, arith, ltb, if◌then◌else◌}
use splaylist.CbTree.Tree.{Tree, leaf, node, is_null, size}
use splaylist.CbTree.Search.{rotate, rotate_double}
use splaylist.CbTree.Walk.{child, Towards}

module _ {ℓ} {V : Type ℓ} where
  -- The nodes on the way of the search, which bounds its rounds.
  unfoldable pub depth : ℕ → Tree V → ℕ
  depth key leaf = 0
  depth key (node l k v w r) =
      let below_left = suc (depth key l) in
      let below_right = suc (depth key r) in
      if ltb key k then below_left else if ltb k key then below_right else 1

  pub depth-le-size : (key : ℕ) (t : Tree V) → depth key t ≤ size t
  unfolding depth size
  depth-le-size key leaf = omega arith
  depth-le-size key (node l k v w r) = ground (arith, depth-le-size key l, depth-le-size key r)

  pub depth_pos : (key : ℕ) (t : Tree V) → is_null t ≡ false → 0 < depth key t
  unfolding depth
  depth_pos key leaf n = cc
  depth_pos key (node l k v w r) n = ground arith

  pub depth-Towards :
      (key : ℕ) (d : Bool) (z : Tree V)
      → Towards key d z
      → depth key z ≡ suc (depth key (child d z))
  unfolding depth
  depth-Towards key d leaf e = elim e [ ]
  depth-Towards key true (node l k v w r) e = ground arith
  depth-Towards key false (node l k v w r) e = ground arith

  pub depth-rotate :
      (key : ℕ) (d : Bool) (z : Tree V)
      → Towards key d z
      → Towards key d (child d z)
      → (suc (depth key (rotate d z)) ≡ depth key z) × (is_null (rotate d z) ≡ false)
  unfolding depth rotate
  depth-rotate key d leaf h h' = elim h [ ]
  depth-rotate key true (node leaf k v w r) h h' = elim h' [ ]
  depth-rotate key true (node (node a yk yv yw b) k v w r) h h' = (ground arith, refl)
  depth-rotate key false (node l k v w leaf) h h' = elim h' [ ]
  depth-rotate key false (node l k v w (node a yk yv yw b)) h h' = (ground arith, refl)

  pub depth-rotate_double :
      (key : ℕ) (d : Bool) (z : Tree V)
      → Towards key d z
      → Towards key (not d) (child d z)
      → is_null (child (not d) (child d z)) ≡ false
      → (suc (depth key (rotate_double d z)) ≤ depth key z) × (is_null (rotate_double d z) ≡ false)
  unfolding depth rotate_double
  depth-rotate_double key d leaf h h' n = elim h [ ]
  depth-rotate_double key true (node leaf k v w r) h h' n = elim h' [ ]
  depth-rotate_double key true (node (node a yk yv yw leaf) k v w r) h h' n = cc
  depth-rotate_double key true (node (node a yk yv yw (node b xk xv xw c)) k v w r) h h' n =
      (ground arith, refl)
  depth-rotate_double key false (node l k v w leaf) h h' n = elim h' [ ]
  depth-rotate_double key false (node l k v w (node leaf yk yv yw c)) h h' n = cc
  depth-rotate_double key false (node l k v w (node (node b xk xv xw c) yk yv yw a)) h h' n =
      (ground arith, refl)
