-- ===== src/CbTree/Entries.antt =====
-- The entries of the tree in order, and that bumping, rotating and searching keep them.
use mathlib.Core.List.{append_assoc}
use splaylist.Base.{ℕ, ◌≡◌, refl, Bool, true, false, List, [], ◌∷◌, ◌++◌}
use splaylist.CbTree.Tree.{Tree, leaf, node, bump, left, right, set_child}
use splaylist.CbTree.Search.{Found, rotate, rotate_double, put_back}
use splaylist.CbTree.Walk.{child}
use splaylist.CbTree.Walk.Induction.{IsKept}

module _ {ℓ} {V : Type ℓ} where
  abbrev pub entries : Tree V → List (ℕ × V)
  entries leaf = []
  entries (node l k v w r) = entries l ++ (k, v) ∷ entries r

  pub entries-bump : (t : Tree V) → entries (bump t) ≡ entries t
  unfolding bump
  entries-bump leaf = refl
  entries-bump (node l k v w r) = refl

  pub entries-set_child :
      (d : Bool) (t c : Tree V)
      → entries c ≡ entries (child d t)
      → entries (set_child d t c) ≡ entries t
  entries-set_child d leaf c h = refl
  entries-set_child true (node l k v w r) c h = rw h
  entries-set_child false (node l k v w r) c h = rw h

  pub entries-set_child-bump :
      (d : Bool) (t c : Tree V)
      → entries c ≡ entries (child d t)
      → entries (set_child d (bump t) c) ≡ entries t
  unfolding bump
  entries-set_child-bump d leaf c h = refl
  entries-set_child-bump true (node l k v w r) c h = rw h
  entries-set_child-bump false (node l k v w r) c h = rw h

  pub entries-rotate : (d : Bool) (t : Tree V) → entries (rotate d t) ≡ entries t
  unfolding rotate
  entries-rotate true leaf = refl
  entries-rotate true (node leaf k v w r) = refl
  entries-rotate true (node (node a xk xv xw b) k v w r) = rw append_assoc
  entries-rotate false leaf = refl
  entries-rotate false (node l k v w leaf) = refl
  entries-rotate false (node l k v w (node b xk xv xw a)) = rw append_assoc

  pub entries-rotate_double : (d : Bool) (t : Tree V) → entries (rotate_double d t) ≡ entries t
  unfolding rotate_double
  entries-rotate_double true t =
      rw entries-rotate (entries-set_child true t _ (entries-rotate false (left t)))
  entries-rotate_double false t =
      rw entries-rotate (entries-set_child false t _ (entries-rotate true (right t)))

  -- Writing the two nodes on the way back keeps the entries if the part below does.
  pub entries-put_back :
      (d₁ d₂ : Bool) (z : Tree V) (r : Found V)
      → entries r.tree ≡ entries (child d₂ (child d₁ z))
      → entries (put_back z (child d₁ z) d₁ d₂ r).tree ≡ entries z
  unfolding put_back
  entries-put_back d₁ d₂ z r h =
      entries-set_child-bump d₁ z _ (entries-set_child-bump d₂ (child d₁ z) r.tree h)

  pub entries-IsKept : (key : ℕ) → IsKept key (λ z r. entries r.tree ≡ entries z)
  entries-IsKept key = record {
    root_end = λ z h. entries-bump z;
    child_end = λ d z h k. entries-set_child-bump d z _ (entries-bump (child d z));
    rotated = λ d z r h k p. rw entries-rotate at p;
    rotated_double = λ d z r h k n p. rw entries-rotate_double at p;
    below = λ d₁ d₂ z r h k p. entries-put_back d₁ d₂ z r p;
  }
