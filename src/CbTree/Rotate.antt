-- ===== src/CbTree/Rotate.antt =====
-- The two rotations and the two tests that decide on them.
use splaylist.Base.{ℕ, ◌+◌, ◌^◌, Bool, false, if◌then◌else◌}
use splaylist.Base.Int.{pos, ◌+ℤ◌, ◌-ℤ◌, ◌*ℤ◌, ltb_ℤ, to_int}
use splaylist.CbTree.Tree.{Tree, node, weight, left, right}

module _ {ℓ} {V : Type ℓ} where
  -- `y` is the node that goes down and `x` its left child. The weight that `y` gets passes through a
  -- variable of type `int`. The link from the parent is the caller's.
  unfoldable pub rotate_right : Tree V → Tree V
  rotate_right (node (node a xk xv xw b) yk yv yw c) =
      node a xk xv yw (node b yk yv (to_int (yw -ℤ xw +ℤ weight b)) c)
  rotate_right t = t

  unfoldable pub rotate_left : Tree V → Tree V
  rotate_left (node c yk yv yw (node b xk xv xw a)) =
      node (node c yk yv (to_int (yw -ℤ xw +ℤ weight b)) b) xk xv yw a
  rotate_left t = t

  -- `one_plus_eps` is 1 + 1 / 2^rotation_eps; both sides of the test are taken 2^rotation_eps times.
  unfoldable pub check_single_rotation : ℕ → Bool → Tree V → Tree V → Bool → Bool
  check_single_rotation rotation_eps z_is_root y z first_move_left =
      if z_is_root
      then false
      else if first_move_left
      then ltb_ℤ (pos (2 ^ rotation_eps) *ℤ (weight z +ℤ weight (right y)))
          (weight y *ℤ pos (2 ^ rotation_eps + 1))
      else ltb_ℤ (pos (2 ^ rotation_eps) *ℤ (weight z +ℤ weight (left y)))
          (weight y *ℤ pos (2 ^ rotation_eps + 1))

  -- `eps` is 1 / 2^rotation_eps.
  unfoldable pub check_double_rotation : ℕ → Bool → Tree V → Tree V → Tree V → Bool → Bool
  check_double_rotation rotation_eps z_is_root x y z first_move_left =
      if z_is_root
      then false
      else if first_move_left
      then ltb_ℤ
          (pos (2 ^ rotation_eps)
            *ℤ ((weight z -ℤ weight y +ℤ weight (right x))
                *ℤ (weight y -ℤ weight x +ℤ weight (left x))))
          (weight y *ℤ weight x)
      else ltb_ℤ
          (pos (2 ^ rotation_eps)
            *ℤ ((weight z -ℤ weight y +ℤ weight (left x))
                *ℤ (weight y -ℤ weight x +ℤ weight (right x))))
          (weight y *ℤ weight x)
