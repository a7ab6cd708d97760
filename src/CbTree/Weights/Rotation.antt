-- ===== src/CbTree/Weights/Rotation.antt =====
-- Rotations keep the weights consistent, and the accesses of every node.
use mathlib.Core.List.{append_assoc}
use splaylist.Base.{ap, ◌∙◌, ℕ, ◌+◌, ◌^◌, ◌≤◌, ◌<◌, ◌≡◌, refl, Bool, true, false, not, arith}
use splaylist.Base.Int.{ℤ, pos, pos_part, neg_part, ◌+ℤ◌, ◌-ℤ◌, int_laws, to_int, eq_of_parts}
use splaylist.CbTree.Tree.{Tree, leaf, node, weight, own_count, set_child}
use splaylist.CbTree.Search.{rotate, rotate_double}
use splaylist.CbTree.Walk.{child}
use splaylist.CbTree.Weights.{demoted_weight, IsWeighted, weight_nonneg, counts}

-- The weights at a rotation: `y` of the node on top with `c` accesses and the subtree `r`, `x` of its
-- child with `c'` accesses and the subtrees `a` and `b`, and `n` of the node that goes down.
record Weighing (y x a b r n : ℤ) (c c' : ℕ) : Type 0 where
  top : y ≡ pos (pos_part x + c + pos_part r)
  lower : x ≡ pos (pos_part a + c' + pos_part b)
  part : b ≡ pos (pos_part b)
  new : n ≡ pos (pos_part b + c + pos_part r)

module _ {y x a b r n : ℤ} {c c' : ℕ} (h : Weighing y x a b r n c c') where
  lifted_right : y -ℤ a -ℤ n ≡ x -ℤ a -ℤ b
  lifted_right = eq_of_parts _ _ (
      omega (
        int_laws,
        ap pos_part h.top,
        ap neg_part h.top,
        ap pos_part h.lower,
        ap neg_part h.lower,
        ap neg_part h.part,
        ap pos_part h.new,
        ap neg_part h.new,
      ))

  lowered_right : n -ℤ b -ℤ r ≡ y -ℤ x -ℤ r
  lowered_right = eq_of_parts _ _ (
      omega (
        int_laws,
        ap pos_part h.top,
        ap neg_part h.top,
        ap pos_part h.lower,
        ap neg_part h.lower,
        ap neg_part h.part,
        ap pos_part h.new,
        ap neg_part h.new,
      ))

  lifted_left : y -ℤ n -ℤ a ≡ x -ℤ b -ℤ a
  lifted_left = eq_of_parts _ _ (
      omega (
        int_laws,
        ap pos_part h.top,
        ap neg_part h.top,
        ap pos_part h.lower,
        ap neg_part h.lower,
        ap neg_part h.part,
        ap pos_part h.new,
        ap neg_part h.new,
      ))

  lowered_left : n -ℤ r -ℤ b ≡ y -ℤ r -ℤ x
  lowered_left = eq_of_parts _ _ (
      omega (
        int_laws,
        ap pos_part h.top,
        ap neg_part h.top,
        ap pos_part h.lower,
        ap neg_part h.lower,
        ap neg_part h.part,
        ap pos_part h.new,
        ap neg_part h.new,
      ))

  lifted_sum : y ≡ pos (pos_part a + c' + pos_part n)
  lifted_sum = eq_of_parts _ _ (
      omega
        (int_laws, ap pos_part h.top, ap neg_part h.top, ap pos_part h.lower, ap pos_part h.new))

weighing :
    (y x a b r : ℤ) (c c' : ℕ)
    → y ≡ pos (pos_part x + c + pos_part r)
    → x ≡ pos (pos_part a + c' + pos_part b)
    → b ≡ pos (pos_part b)
    → pos_part y < 2 ^ 31
    → Weighing y x a b r (to_int (y -ℤ x +ℤ b)) c c'
weighing y x a b r c c' hy hx hb bound =
    let hx' : x ≡ pos (pos_part x) = eq_of_parts _ _ (omega (int_laws, ap neg_part hx)) in
    record {
      top = hy;
      lower = hx;
      part = hb;
      new = demoted_weight y x b c (pos_part r) hy hx' hb (omega (arith, ap pos_part hx)) bound;
    }

swap_sum : (n : ℤ) (a b c : ℕ) → n ≡ pos (a + b + c) → n ≡ pos (c + b + a)
swap_sum n a b c h = h ∙ ap pos (omega arith)

module _ {ℓ} {V : Type ℓ} where
  -- A tree whose weights are consistent, with the accesses of `t`.
  abbrev pub SameCounts : Tree V → Tree V → Type 0
  SameCounts t t' = IsWeighted t' × (counts t' ≡ counts t) × (weight t' ≡ weight t)

  pub rotate-SameCounts :
      (d : Bool) (t : Tree V)
      → IsWeighted t
      → pos_part (weight t) < 2 ^ 31
      → SameCounts t (rotate d t)
  unfolding rotate own_count
  rotate-SameCounts true leaf h bound = (h, refl, refl)
  rotate-SameCounts true (node leaf k v w r) h bound = (h, refl, refl)
  rotate-SameCounts true (node (node a xk xv xw b) k v w r) ((c, e), ((c', e'), ha, hb), hr) bound =
      let g = weighing w xw (weight a) (weight b) (weight r) c c' e e' (weight_nonneg b hb) bound in
      (
        (((c', lifted_sum g)), ha, ((c, g.new), hb, hr)),
        rw (lifted_right g, lowered_right g, append_assoc) refl,
        refl,
      )
  rotate-SameCounts false leaf h bound = (h, refl, refl)
  rotate-SameCounts false (node r k v w leaf) h bound = (h, refl, refl)
  rotate-SameCounts false (node r k v w (node b xk xv xw a)) ((c, e), hr, ((c', e'), hb, ha))
        bound =
      let g =
        weighing w xw (weight a) (weight b) (weight r) c c' (swap_sum _ _ _ _ e)
          (swap_sum _ _ _ _ e') (weight_nonneg b hb) bound in
      (
        (((c', swap_sum _ _ _ _ (lifted_sum g))), ((c, swap_sum _ _ _ _ g.new), hr, hb), ha),
        rw (lifted_left g, lowered_left g, append_assoc) refl,
        refl,
      )

  pub IsWeighted-child :
      (d : Bool) (t : Tree V)
      → IsWeighted t
      → IsWeighted (child d t) × (pos_part (weight (child d t)) ≤ pos_part (weight t))
  IsWeighted-child true leaf h = (tt, omega arith)
  IsWeighted-child false leaf h = (tt, omega arith)
  IsWeighted-child true (node l k v w r) ((c, e), hl, hr) = (hl, omega (arith, ap pos_part e))
  IsWeighted-child false (node l k v w r) ((c, e), hl, hr) = (hr, omega (arith, ap pos_part e))

  set_child-SameCounts :
      (d : Bool) (t c : Tree V)
      → IsWeighted t
      → SameCounts (child d t) c
      → SameCounts t (set_child d t c)
  unfolding own_count
  set_child-SameCounts d leaf c h s = (h, refl, refl)
  set_child-SameCounts true (node l k v w r) c ((n, e), hl, hr) (hc, ec, ew) =
      (((n, rw ew e), hc, hr), rw (ec, ew), refl)
  set_child-SameCounts false (node l k v w r) c ((n, e), hl, hr) (hc, ec, ew) =
      (((n, rw ew e), hl, hc), rw (ec, ew), refl)

  SameCounts-trans : (t u v : Tree V) → SameCounts t u → SameCounts u v → SameCounts t v
  SameCounts-trans t u v (h, e, w) (h', e', w') = (h', e' ∙ e, w' ∙ w)

  rotate_twice :
      (d : Bool) (t : Tree V)
      → IsWeighted t
      → pos_part (weight t) < 2 ^ 31
      → SameCounts t (rotate d (set_child d t (rotate (not d) (child d t))))
  rotate_twice d t h bound =
      let (hc, le) = IsWeighted-child d t h in
      let inner =
        set_child-SameCounts d t (rotate (not d) (child d t)) h
          (rotate-SameCounts (not d) (child d t) hc (omega arith)) in
      SameCounts-trans t _ _ inner (rotate-SameCounts d _ inner.0 (rw inner.2 bound))

  pub rotate_double-SameCounts :
      (d : Bool) (t : Tree V)
      → IsWeighted t
      → pos_part (weight t) < 2 ^ 31
      → SameCounts t (rotate_double d t)
  unfolding rotate_double
  rotate_double-SameCounts true t h bound = rotate_twice true t h bound
  rotate_double-SameCounts false t h bound = rotate_twice false t h bound
