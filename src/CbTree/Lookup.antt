-- ===== src/CbTree/Lookup.antt =====
-- The loop finds a key exactly when an entry has it, and leads to the node with its value.
use mathlib.Core.Option
use splaylist.Base.{
  ℕ, ◌≡◌, refl, Bool, true, false, Option, none, some, List, [], ◌∷◌, inl, inr, arith,
  if◌then◌else◌,
}
use splaylist.Base.Entries
use splaylist.Base.Entries.{IsSorted, lookup}
use splaylist.CbTree.Tree.{Tree, leaf, node, bump, set_child, equal, subtree_at}
use splaylist.CbTree.Search.{Found, put_back}
use splaylist.CbTree.Walk.{child, Towards, Ends}
use splaylist.CbTree.Walk.Induction.{IsKept}
use splaylist.CbTree.Entries.{entries, entries-rotate, entries-rotate_double}
use splaylist.CbTree.Ops.{value_of}

module _ {ℓ} {V : Type ℓ} where
  -- What the caller reads from the result: on a hit the value of the node, `none` outside for a null
  -- pointer; on a miss, no value.
  abbrev pub found_value : Found V → Option (Option V)
  found_value r =
      if r.hit then Option.map some (value_of (subtree_at r.place r.tree)) else some none

  pub lookup-child :
      (key : ℕ) (d : Bool) (z : Tree V)
      → Towards key d z
      → IsSorted (entries z)
      → (lookup key (entries z) ≡ lookup key (entries (child d z))) × IsSorted (entries (child d z))
  lookup-child key d leaf h s = elim h [ ]
  lookup-child key true (node l k v w r) h s = (
    Entries.lookup_left key (entries l) k v (entries r) s h,
    (Entries.IsSorted-split (entries l) k v (entries r) s).0,
  )
  lookup-child key false (node l k v w r) h s = (
    Entries.lookup_right key (entries l) k v (entries r) s h,
    (Entries.IsSorted-split (entries l) k v (entries r) s).3,
  )

  -- Where the search ends, the root holds the key or nobody does.
  pub lookup-Ends :
      (key : ℕ) (z : Tree V)
      → Ends key z
      → IsSorted (entries z)
      → (if equal key z then Option.map some (value_of z) else some none)
        ≡ some (lookup key (entries z))
  unfolding equal lookup
  lookup-Ends key leaf h s = elim h [ ]
  lookup-Ends key (node l k v w r) (inl e) s =
      rw (Entries.lookup_middle key (entries l) k v (entries r) s e) (ground arith)
  lookup-Ends key (node leaf k v w r) (inr (inl (h, n))) s =
      rw (Entries.lookup_left key [] k v (entries r) s h) (ground arith)
  lookup-Ends key (node (node _ _ _ _ _) k v w r) (inr (inl (h, n))) s = cc
  lookup-Ends key (node l k v w leaf) (inr (inr (h, n))) s =
      rw (Entries.lookup_right key (entries l) k v [] s h) (ground arith)
  lookup-Ends key (node l k v w (node _ _ _ _ _)) (inr (inr (h, n))) s = cc

  value_of-bump : (z : Tree V) → value_of (bump z) ≡ value_of z
  unfolding bump
  value_of-bump leaf = refl
  value_of-bump (node l k v w r) = refl

  subtree_at-set_child :
      (key : ℕ) (d : Bool) (p : List Bool) (z c : Tree V)
      → Towards key d z
      → subtree_at (d ∷ p) (set_child d (bump z) c) ≡ subtree_at p c
  unfolding bump
  subtree_at-set_child key d p leaf c h = elim h [ ]
  subtree_at-set_child key true p (node l k v w r) c h = refl
  subtree_at-set_child key false p (node l k v w r) c h = refl

  pub lookup-IsKept :
      (key : ℕ)
      → IsKept key (λ z r. IsSorted (entries z) → found_value r ≡ some (lookup key (entries z)))
  unfolding put_back
  lookup-IsKept key = record {
    root_end = λ z h s. rw value_of-bump (lookup-Ends key z h s);
    child_end = λ d z h k s.
        rw
          (
            subtree_at-set_child key d [] z (bump (child d z)) h,
            value_of-bump,
            (lookup-child key d z h s).0,
          )
          (lookup-Ends key (child d z) k (lookup-child key d z h s).1);
    rotated = λ d z r h k p. rw entries-rotate at p;
    rotated_double = λ d z r h k n p. rw entries-rotate_double at p;
    below = λ d₁ d₂ z r h k p s.
        let (e₁, s₁) = lookup-child key d₁ z h s in
        let (e₂, s₂) = lookup-child key d₂ (child d₁ z) k s₁ in
        rw
          (
            e₁,
            e₂,
            subtree_at-set_child key d₁ (d₂ ∷ r.place) z (set_child d₂ (bump (child d₁ z)) r.tree)
                h,
            subtree_at-set_child key d₂ r.place (child d₁ z) r.tree k,
          )
          (p s₂);
  }
