-- ===== src/CbTree/Walk.antt =====
-- Where a round of `search_loop` turns, and what it leaves where it ends.
pub mod Steps
pub mod Depth
pub mod Induction
use splaylist.Base.{
  ℕ, zero, suc, ◌+◌, ◌≤◌, ◌<◌, ◌≡◌, refl, Bool, true, false, not, Option, none, some, List, [], ◌∷◌,
  trichotomy, Bool-cases, ◌⊎◌, inl, inr, arith, ltb, if◌then◌else◌,
}
use mathlib.Core.Option
use splaylist.CbTree.Tree.{
  Tree, leaf, node, is_null, bump, left, right, set_child, less, greater, equal, get_child,
}
use splaylist.CbTree.Search.{Found, rotate, rotate_double, count_round, put_back, search_loop}
use splaylist.CbTree.Rotate.{
  rotate_right, rotate_left, check_single_rotation, check_double_rotation,
}

module _ {ℓ} {V : Type ℓ} where
  abbrev pub child : Bool → Tree V → Tree V
  child true t = left t
  child false t = right t

  -- The search for `key` turns in direction `d` at the root of the tree.
  abbrev pub Towards : ℕ → Bool → Tree V → Type 0
  Towards key d leaf = ⊥
  Towards key true (node l k v w r) = key < k
  Towards key false (node l k v w r) = k < key

  -- The search for `key` ends at the root of the tree: it holds the key, or lacks the child.
  abbrev pub Ends : ℕ → Tree V → Type 0
  Ends key leaf = ⊥
  Ends key (node l k v w r) =
      (key ≡ k) ⊎ (key < k) × (is_null l ≡ true) ⊎ (k < key) × (is_null r ≡ true)

  -- The results of the rounds that end the search.
  abbrev pub at_root : ℕ → Tree V → Found V
  at_root key z = record { tree = bump z; hit = equal key z; place = []; rounds = 1 }

  abbrev pub at_child : ℕ → Bool → Tree V → Found V
  at_child key d z = record {
    tree = set_child d (bump z) (bump (child d z));
    hit = equal key (child d z);
    place = d ∷ [];
    rounds = 1;
  }

  pub get_child-Ends :
      (key : ℕ) (z : Tree V) → Ends key z → is_null (get_child z key false).0 ≡ true
  unfolding get_child
  get_child-Ends key leaf e = elim e [ ]
  get_child-Ends key (node l k v w r) e = ground arith

  pub get_child-Towards :
      (key : ℕ) (d b : Bool) (z : Tree V) → Towards key d z → get_child z key b ≡ (child d z, d)
  unfolding get_child
  get_child-Towards key d b leaf e = elim e [ ]
  get_child-Towards key true b (node l k v w r) e = ground arith
  get_child-Towards key false b (node l k v w r) e = ground arith

  pub Towards-is_null : (key : ℕ) (d : Bool) (z : Tree V) → Towards key d z → is_null z ≡ false
  Towards-is_null key d leaf e = elim e [ ]
  Towards-is_null key true (node l k v w r) e = refl
  Towards-is_null key false (node l k v w r) e = refl

  pub Ends-is_null : (key : ℕ) (z : Tree V) → Ends key z → is_null z ≡ false
  Ends-is_null key leaf e = elim e [ ]
  Ends-is_null key (node l k v w r) e = refl

  pub turn-cases :
      (key : ℕ) (z : Tree V)
      → is_null z ≡ false
      → Ends key z ⊎ ((d : Bool) × Towards key d z × (is_null (child d z) ≡ false))
  turn-cases key leaf n = cc
  turn-cases key (node l k v w r) n = elim (trichotomy key k) [
    | inl lt ↦ elim (Bool-cases (is_null l)) [
      | inl e ↦ inl (inr (inl (lt, e)))
      | inr e ↦ inr (true, lt, e)
    ]
    | inr (inl eq) ↦ inl (inl eq)
    | inr (inr gt) ↦ elim (Bool-cases (is_null r)) [
      | inl e ↦ inl (inr (inr (gt, e)))
      | inr e ↦ inr (false, gt, e)
    ]
  ]
