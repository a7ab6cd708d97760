-- ===== src/CbTree/Weights.antt =====
-- The counters. Every weight is the sum of the accesses of the nodes below.
pub mod Rotation
pub mod Access
pub mod Insert
pub mod Laws
use splaylist.Base.{ap, ℕ, ◌+◌, ◌^◌, ◌≤◌, ◌<◌, ◌≡◌, refl, List, [], ◌∷◌, ◌++◌, arith}
use splaylist.Base.Int.{
  ℤ, pos, pos_part, neg_part, ◌+ℤ◌, ◌-ℤ◌, int_laws, to_int, to_int_small, eq_of_parts,
}
use splaylist.CbTree.Tree.{Tree, leaf, node, weight, own_count}

-- The new weight of the node that goes down: `c` accesses of its own, and the subtrees `b` and `r`.
pub demoted_weight :
    (y x b : ℤ) (c r : ℕ)
    → y ≡ pos (pos_part x + c + r)
    → x ≡ pos (pos_part x)
    → b ≡ pos (pos_part b)
    → pos_part b ≤ pos_part x
    → pos_part y < 2 ^ 31
    → to_int (y -ℤ x +ℤ b) ≡ pos (pos_part b + c + r)
demoted_weight y x b c r hy hx hb small bound =
    let e : y -ℤ x +ℤ b ≡ pos (pos_part b + c + r) =
      eq_of_parts _ _
        (omega (int_laws, ap pos_part hy, ap neg_part hy, ap neg_part hx, ap neg_part hb)) in
    rw e (to_int_small (pos (pos_part b + c + r)) (omega (arith, ap pos_part hy)) (omega arith))

module _ {ℓ} {V : Type ℓ} where
  -- Every weight is that of the two subtrees and a number of accesses of the node itself.
  abbrev pub IsWeighted : Tree V → Type 0
  IsWeighted leaf = Unit
  IsWeighted (node l k v w r) =
      ((c : ℕ) × (w ≡ pos (pos_part (weight l) + c + pos_part (weight r))))
      × IsWeighted l
      × IsWeighted r

  pub weight_nonneg : (t : Tree V) → IsWeighted t → weight t ≡ pos (pos_part (weight t))
  weight_nonneg leaf h = refl
  weight_nonneg (node l k v w r) h = ground arith

  -- The accesses of each node, in the order of the keys.
  abbrev pub counts : Tree V → List (ℕ × ℤ)
  counts leaf = []
  counts (node l k v w r) = counts l ++ (k, own_count (node l k v w r)) ∷ counts r
