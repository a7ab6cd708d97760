-- ===== src/CbTree/Walk/Steps.antt =====
-- Each way in which a round of `search_loop` goes on, as an equation.
use splaylist.Base.{ℕ, suc, ◌≡◌, refl, Bool, false, not, some, if◌then◌else◌}
use mathlib.Core.Option
use splaylist.CbTree.Tree.{Tree, is_null}
use splaylist.CbTree.Search.{rotate, rotate_double, count_round, put_back, search_loop}
use splaylist.CbTree.Rotate.{check_single_rotation, check_double_rotation}
use splaylist.CbTree.Walk.{
  child, Towards, Ends, at_root, at_child, get_child-Ends, get_child-Towards, Towards-is_null,
  Ends-is_null,
}

module _ {ℓ} {V : Type ℓ} where
  module _ (f e key : ℕ) (root : Bool) (z : Tree V) where
    pub search_loop-at_root : Ends key z → search_loop (suc f) e key root z ≡ some (at_root key z)
    unfolding search_loop
    search_loop-at_root h = rw (Ends-is_null key z h, get_child-Ends key z h) refl

    pub search_loop-at_child :
        (d : Bool)
        → Towards key d z
        → Ends key (child d z)
        → search_loop (suc f) e key root z ≡ some (at_child key d z)
    unfolding search_loop
    search_loop-at_child d h k =
        rw
          (
            get_child-Towards key d false z h,
            Towards-is_null key d z h,
            Ends-is_null key (child d z) k,
            get_child-Ends key (child d z) k,
          )
          refl

    -- With both turns made: rotate and stay, or go down to the grandchild.
    pub search_loop-two :
        (d₁ d₂ : Bool)
        → Towards key d₁ z
        → Towards key d₂ (child d₁ z)
        → is_null (child d₂ (child d₁ z)) ≡ false
        → let down =
            Option.map
              (put_back z (child d₁ z) d₁ d₂)
              (search_loop f e key false (child d₂ (child d₁ z))) in
          search_loop (suc f) e key root z ≡ (
            if (if d₁ then d₂ else not d₂)
            then (if check_single_rotation e root (child d₁ z) z d₁
                then Option.map count_round (search_loop f e key false (rotate d₁ z))
                else down)
            else (if check_double_rotation e root (child d₂ (child d₁ z)) (child d₁ z) z d₁
                then Option.map count_round (search_loop f e key false (rotate_double d₁ z))
                else down))
    unfolding search_loop
    search_loop-two d₁ d₂ h k n =
        rw
          (
            get_child-Towards key d₁ false z h,
            Towards-is_null key d₁ z h,
            get_child-Towards key d₂ false (child d₁ z) k,
            Towards-is_null key d₂ (child d₁ z) k,
            n,
          )
          refl
