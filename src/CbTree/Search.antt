-- ===== src/CbTree/Search.antt =====
-- `search`, the loop that walks down, counts and rotates.
use splaylist.Base.{
  ℕ, zero, suc, ◌+◌, Bool, true, false, not, Option, none, some, List, [], ◌∷◌, if◌then◌else◌,
}
use mathlib.Core.Option
use splaylist.CbTree.Tree.{Tree, is_null, bump, left, right, set_child, equal, get_child}
use splaylist.CbTree.Rotate.{
  rotate_right, rotate_left, check_single_rotation, check_double_rotation,
}

-- What the loop leaves: the subtree, whether the key was found, the node returned (or stored as the
-- parent), and the rounds made.
pub record Found {ℓ} (V : Type ℓ) : Type ℓ where
  pub tree : Tree V
  pub hit : Bool
  pub place : List Bool
  pub rounds : ℕ

module _ {ℓ} {V : Type ℓ} where
  -- The rotation that lifts the child in the direction of the move.
  unfoldable pub rotate : Bool → Tree V → Tree V
  unfolding rotate_right rotate_left
  rotate move_left t = if move_left then rotate_right t else rotate_left t

  -- The double rotation: `y`, the child of `z`, loses its place to `x`, and then `z` does.
  unfoldable pub rotate_double : Bool → Tree V → Tree V
  unfolding rotate
  rotate_double true z = rotate true (set_child true z (rotate false (left z)))
  rotate_double false z = rotate false (set_child false z (rotate true (right z)))

  abbrev pub count_round : Found V → Found V
  count_round r = record r { rounds = r.rounds + 1 }

  -- The loop went on below `x`, two steps down from `z`; both nodes on the way count the access.
  unfoldable pub put_back : Tree V → Tree V → Bool → Bool → Found V → Found V
  unfolding bump
  put_back z y d₁ d₂ r = record {
    tree = set_child d₁ (bump z) (set_child d₂ (bump y) r.tree);
    hit = r.hit;
    place = d₁ ∷ d₂ ∷ r.place;
    rounds = r.rounds + 1;
  }

  -- One round at `z` for each unit of fuel; `none` is the assertion at the end of the source, or no
  -- fuel. A round ends the search at `z` or at its child `y`, or goes on: at `z` after a rotation, at
  -- `x` (two steps down) without.
  unfoldable pub search_loop : ℕ → ℕ → ℕ → Bool → Tree V → Option (Found V)
  unfolding rotate_double put_back get_child equal bump check_single_rotation check_double_rotation
  search_loop zero rotation_eps key z_is_root z = none
  search_loop (suc fuel) rotation_eps key z_is_root z =
      let (y, first_move_left) = get_child z key false in
      let (x, second_move_left) = get_child y key false in
      let single = search_loop fuel rotation_eps key false (rotate first_move_left z) in
      let double = search_loop fuel rotation_eps key false (rotate_double first_move_left z) in
      let down =
        Option.map (put_back z y first_move_left second_move_left)
          (search_loop fuel rotation_eps key false x) in
      if is_null z
      then none
      else if is_null y
      then some (record { tree = bump z; hit = equal key z; place = []; rounds = 1 })
      else if is_null x
      then some (record {
        tree = set_child first_move_left (bump z) (bump y);
        hit = equal key y;
        place = first_move_left ∷ [];
        rounds = 1;
      })
      else if (if first_move_left then second_move_left else not second_move_left)
      then (if check_single_rotation rotation_eps z_is_root y z first_move_left
          then Option.map count_round single
          else down)
      else (if check_double_rotation rotation_eps z_is_root x y z first_move_left
          then Option.map count_round double
          else down)
