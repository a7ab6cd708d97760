-- ===== src/CbTree/Insert.antt =====
-- A miss leads to the node below which the new entry belongs.
use splaylist.Base.{ℕ, ◌≡◌, refl, Bool, true, false, List, [], ◌∷◌, inl, inr, arith}
use splaylist.Base.Entries
use splaylist.Base.Entries.{IsSorted, insert_entry}
use splaylist.CbTree.Tree.{Tree, leaf, node, bump, set_child, equal, modify_at}
use splaylist.CbTree.Search.{put_back}
use splaylist.CbTree.Walk.{child, Towards, Ends}
use splaylist.CbTree.Walk.Induction.{IsKept}
use splaylist.CbTree.Entries.{entries, entries-rotate, entries-rotate_double}
use splaylist.CbTree.Ops.{attach}

module _ {ℓ} {V : Type ℓ} where
  insert-child :
      (key : ℕ) (value : V) (d : Bool) (z c : Tree V)
      → Towards key d z
      → IsSorted (entries z)
      → entries c ≡ insert_entry key value (entries (child d z))
      → entries (set_child d (bump z) c) ≡ insert_entry key value (entries z)
  unfolding bump
  insert-child key value d leaf c h s e = elim h [ ]
  insert-child key value true (node l k v w r) c h s e =
      rw (e, Entries.insert_left key value (entries l) k v (entries r) h)
  insert-child key value false (node l k v w r) c h s e =
      rw (e, Entries.insert_right key (entries l) k v (entries r) s value h)

  IsSorted-child :
      (key : ℕ) (d : Bool) (z : Tree V)
      → Towards key d z
      → IsSorted (entries z)
      → IsSorted (entries (child d z))
  IsSorted-child key d leaf h s = elim h [ ]
  IsSorted-child key true (node l k v w r) h s =
      (Entries.IsSorted-split (entries l) k v (entries r) s).0
  IsSorted-child key false (node l k v w r) h s =
      (Entries.IsSorted-split (entries l) k v (entries r) s).3

  insert-Ends :
      (key : ℕ) (value : V) (z : Tree V)
      → Ends key z
      → IsSorted (entries z)
      → equal key z ≡ false
      → entries (attach key value (bump z)) ≡ insert_entry key value (entries z)
  unfolding equal attach
  insert-Ends key value leaf h s n = elim h [ ]
  insert-Ends key value (node l k v w r) (inl e) s n = ground arith
  insert-Ends key value (node leaf k v w r) (inr (inl (h, e))) s n =
      rw (Entries.insert_left key value [] k v (entries r) h) (unfold insert_entry in ground arith)
  insert-Ends key value (node (node _ _ _ _ _) k v w r) (inr (inl (h, e))) s n = cc
  insert-Ends key value (node l k v w leaf) (inr (inr (h, e))) s n =
      rw (Entries.insert_right key (entries l) k v [] s value h)
        (unfold insert_entry in ground arith)
  insert-Ends key value (node l k v w (node _ _ _ _ _)) (inr (inr (h, e))) s n = cc

  modify_at-set_child :
      (key : ℕ) (d : Bool) (p : List Bool) (f : Tree V → Tree V) (z c : Tree V)
      → Towards key d z
      → modify_at (d ∷ p) f (set_child d (bump z) c) ≡ set_child d (bump z) (modify_at p f c)
  unfolding bump
  modify_at-set_child key d p f leaf c h = elim h [ ]
  modify_at-set_child key true p f (node l k v w r) c h = refl
  modify_at-set_child key false p f (node l k v w r) c h = refl

  pub insert-IsKept :
      (key : ℕ) (value : V)
      → IsKept key (λ z r.
        IsSorted (entries z)
        → r.hit ≡ false
        → entries (modify_at r.place (attach key value) r.tree)
          ≡ insert_entry key value (entries z))
  unfolding put_back
  insert-IsKept key value = record {
    root_end = λ z h s n. insert-Ends key value z h s n;
    child_end = λ d z h k s n.
        rw (modify_at-set_child key d [] (attach key value) z (bump (child d z)) h) (
          insert-child key value d z _ h s
            (insert-Ends key value (child d z) k (IsSorted-child key d z h s) n));
    rotated = λ d z r h k p. rw entries-rotate at p;
    rotated_double = λ d z r h k n p. rw entries-rotate_double at p;
    below = λ d₁ d₂ z r h k p s n.
        let s₁ = IsSorted-child key d₁ z h s in
        let s₂ = IsSorted-child key d₂ (child d₁ z) k s₁ in
        rw
          (
            modify_at-set_child key d₁ (d₂ ∷ r.place) (attach key value) z
                (set_child d₂ (bump (child d₁ z)) r.tree) h,
            modify_at-set_child key d₂ r.place (attach key value) (child d₁ z) r.tree k,
          )
          (insert-child key value d₁ z _ h s
            (insert-child key value d₂ (child d₁ z) _ k s₁ (p s₂ n)));
  }
