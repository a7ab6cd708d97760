-- ===== src/CbTree/Weights/Insert.antt =====
-- An insertion counts the access at the new node, and the counters stay consistent.
use splaylist.Base.{
  ℕ, ◌^◌, ◌<◌, ◌≡◌, refl, Bool, true, false, List, [], ◌∷◌, inl, inr, arith, lt→ltb, le→ltb,
}
use splaylist.Base.Int.{pos, pos_part, ◌+ℤ◌}
use splaylist.CbTree.Tree.{Tree, leaf, node, weight, bump, set_child, equal, modify_at}
use splaylist.CbTree.Search.{put_back}
use splaylist.CbTree.Walk.{child, Towards, Ends}
use splaylist.CbTree.Walk.Induction.{IsKept}
use splaylist.CbTree.Ops.{attach}
use splaylist.CbTree.Weights.{IsWeighted, weight_nonneg}
use splaylist.CbTree.Weights.Rotation.{
  rotate-SameCounts, rotate_double-SameCounts, IsWeighted-child,
}
use splaylist.CbTree.Weights.Access.{sum_left, sum_right}

module _ {ℓ} {V : Type ℓ} where
  -- The weights below are consistent, and one more access is counted in all.
  abbrev pub OneMoreAccess : Tree V → Tree V → Type 0
  OneMoreAccess z t = IsWeighted t × (weight t ≡ weight z +ℤ pos 1)

  attach-OneMoreAccess :
      (key : ℕ) (val : V) (z : Tree V)
      → Ends key z
      → IsWeighted z
      → equal key z ≡ false
      → OneMoreAccess z (attach key val (bump z))
  unfolding attach equal ◌+ℤ◌
  attach-OneMoreAccess key val leaf h s n = elim h [ ]
  attach-OneMoreAccess key val (node l k v w r) (inl e) s n = ground arith
  attach-OneMoreAccess key val (node leaf k v w r) (inr (inl (h, e))) ((c, f), hl, hr) n =
      rw (lt→ltb key k h)
        (((c, sum_left w (pos 0) (pos 1) c _ refl refl f), ((1, refl), tt, tt), hr), refl)
  attach-OneMoreAccess key val (node (node _ _ _ _ _) k v w r) (inr (inl (h, e))) s n = cc
  attach-OneMoreAccess key val (node l k v w leaf) (inr (inr (h, e))) ((c, f), hl, hr) n =
      rw (le→ltb key k (omega arith))
        (((c, sum_right w (pos 0) (pos 1) _ c refl refl f), hl, ((1, refl), tt, tt)), refl)
  attach-OneMoreAccess key val (node l k v w (node _ _ _ _ _)) (inr (inr (h, e))) s n = cc

  modify-child :
      (key : ℕ) (d : Bool) (p : List Bool) (f : Tree V → Tree V) (z c : Tree V)
      → Towards key d z
      → IsWeighted z
      → OneMoreAccess (child d z) (modify_at p f c)
      → OneMoreAccess z (modify_at (d ∷ p) f (set_child d (bump z) c))
  unfolding bump
  modify-child key d p f leaf c h s o = elim h [ ]
  modify-child key true p f (node l k v w r) c h ((n, e), hl, hr) (a, b) =
      (((n, sum_left w (weight l) _ n _ (weight_nonneg l hl) b e), a, hr), refl)
  modify-child key false p f (node l k v w r) c h ((n, e), hl, hr) (a, b) =
      (((n, sum_right w (weight r) _ _ n (weight_nonneg r hr) b e), hl, a), refl)

  pub OneMoreAccess-IsKept :
      (key : ℕ) (val : V)
      → IsKept key (λ z r.
        IsWeighted z
        → pos_part (weight z) < 2 ^ 31
        → r.hit ≡ false
        → OneMoreAccess z (modify_at r.place (attach key val) r.tree))
  unfolding put_back
  OneMoreAccess-IsKept key val = record {
    root_end = λ z h s b n. attach-OneMoreAccess key val z h s n;
    child_end = λ d z h k s b n.
        modify-child key d [] (attach key val) z (bump (child d z)) h s
          (attach-OneMoreAccess key val (child d z) k (IsWeighted-child d z s).0 n);
    rotated = λ d z r h k p s b n.
        let same = rotate-SameCounts d z s b in
        let (a, t) = p same.0 (rw same.2 b) n in (a, rw (← same.2) t);
    rotated_double = λ d z r h k m p s b n.
        let same = rotate_double-SameCounts d z s b in
        let (a, t) = p same.0 (rw same.2 b) n in (a, rw (← same.2) t);
    below = λ d₁ d₂ z r h k p s b n.
        let (s₁, le₁) = IsWeighted-child d₁ z s in
        let (s₂, le₂) = IsWeighted-child d₂ (child d₁ z) s₁ in
        modify-child key d₁ (d₂ ∷ r.place) (attach key val) z _ h s (
          modify-child key d₂ r.place (attach key val) (child d₁ z) r.tree k s₁
            (p s₂ (omega arith) n));
  }
