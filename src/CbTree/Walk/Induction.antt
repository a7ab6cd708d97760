-- ===== src/CbTree/Walk/Induction.antt =====
-- The induction over the rounds of `search_loop`.
use splaylist.Base.{
  ℕ, zero, suc, ◌≤◌, ◌≡◌, Bool, true, false, not, Option, some, inl, inr, arith, if◌then◌else◌,
}
use mathlib.Core.Option
use splaylist.CbTree.Tree.{Tree, is_null}
use splaylist.CbTree.Search.{Found, rotate, rotate_double, count_round, put_back, search_loop}
use splaylist.CbTree.Walk.{child, Towards, Ends, at_root, at_child, turn-cases}
use splaylist.CbTree.Walk.Steps.{search_loop-at_root, search_loop-at_child, search_loop-two}
use splaylist.CbTree.Walk.Depth.{depth, depth_pos, depth-Towards, depth-rotate, depth-rotate_double}

module _ {ℓ} {V : Type ℓ} where
  -- What a property of the tree before and the result after must satisfy to hold of the whole loop.
  pub record IsKept {κ} (key : ℕ) (P : Tree V → Found V → Type κ) : Type (ℓ ⊔ κ) where
    pub root_end : (z : Tree V) → Ends key z → P z (at_root key z)
    pub child_end :
        (d : Bool) (z : Tree V) → Towards key d z → Ends key (child d z) → P z (at_child key d z)
    pub rotated :
        (d : Bool) (z : Tree V) (r : Found V)
        → Towards key d z
        → Towards key d (child d z)
        → P (rotate d z) r
        → P z (count_round r)
    pub rotated_double :
        (d : Bool) (z : Tree V) (r : Found V)
        → Towards key d z
        → Towards key (not d) (child d z)
        → is_null (child (not d) (child d z)) ≡ false
        → P (rotate_double d z) r
        → P z (count_round r)
    pub below :
        (d₁ d₂ : Bool) (z : Tree V) (r : Found V)
        → Towards key d₁ z
        → Towards key d₂ (child d₁ z)
        → P (child d₂ (child d₁ z)) r
        → P z (put_back z (child d₁ z) d₁ d₂ r)

  -- Two properties that the loop keeps are one.
  pub IsKept-× {κ μ} :
      (key : ℕ) {P : Tree V → Found V → Type κ} {Q : Tree V → Found V → Type μ}
      → IsKept key P
      → IsKept key Q
      → IsKept key (λ z r. P z r × Q z r)
  IsKept-× key p q = record {
    root_end = λ z h. (p.root_end z h, q.root_end z h);
    child_end = λ d z h k. (p.child_end d z h k, q.child_end d z h k);
    rotated = λ d z r h k (a, b). (p.rotated d z r h k a, q.rotated d z r h k b);
    rotated_double =
        λ d z r h k n (a, b). (p.rotated_double d z r h k n a, q.rotated_double d z r h k n b);
    below = λ d₁ d₂ z r h k (a, b). (p.below d₁ d₂ z r h k a, q.below d₁ d₂ z r h k b);
  }

  -- The run returns, with a result of which `P` holds.
  abbrev pub Gives {κ} : (Found V → Type κ) → Option (Found V) → Type (ℓ ⊔ κ)
  Gives P o = (r : Found V) × (o ≡ some r) × P r

  Gives-map {κ μ} :
      {P : Found V → Type κ} {Q : Found V → Type μ} (g : Found V → Found V) (o : Option (Found V))
      → ((r : Found V) → P r → Q (g r))
      → Gives P o
      → Gives Q (Option.map g o)
  Gives-map g o step (r, e, p) = (g r, rw e, step r p)

  Gives-if {κ} :
      {P : Found V → Type κ} (b : Bool) (o₁ o₂ : Option (Found V))
      → Gives P o₁
      → Gives P o₂
      → Gives P (if b then o₁ else o₂)
  Gives-if true o₁ o₂ g₁ g₂ = g₁
  Gives-if false o₁ o₂ g₁ g₂ = g₂

  module _ {κ} (key : ℕ) {P : Tree V → Found V → Type κ} (kept : IsKept key P) where
    -- The rest of the loop from `t`.
    abbrev Rest : ℕ → ℕ → Tree V → Type (ℓ ⊔ κ)
    Rest f e t = is_null t ≡ false → depth key t ≤ f → Gives (P t) (search_loop f e key false t)

    module _ (f e : ℕ) (z : Tree V) (rest : (t : Tree V) → Rest f e t)
        (fuel : depth key z ≤ suc f) where
      down-Gives :
          (d₁ d₂ : Bool)
          → Towards key d₁ z
          → Towards key d₂ (child d₁ z)
          → is_null (child d₂ (child d₁ z)) ≡ false
          → Gives (P z) (
              Option.map
                (put_back z (child d₁ z) d₁ d₂)
                (search_loop f e key false (child d₂ (child d₁ z))))
      down-Gives d₁ d₂ h k n =
          Gives-map _ _ (λ r. kept.below d₁ d₂ z r h k)
            (rest _ n
              (omega (arith, depth-Towards key d₁ z h, depth-Towards key d₂ (child d₁ z) k)))

      rotated-Gives :
          (d : Bool)
          → Towards key d z
          → Towards key d (child d z)
          → Gives (P z) (Option.map count_round (search_loop f e key false (rotate d z)))
      rotated-Gives d h k =
          let (shorter, n) = depth-rotate key d z h k in
          Gives-map _ _ (λ r. kept.rotated d z r h k) (rest _ n (omega arith))

      double-Gives :
          (d : Bool)
          → Towards key d z
          → Towards key (not d) (child d z)
          → is_null (child (not d) (child d z)) ≡ false
          → Gives (P z) (Option.map count_round (search_loop f e key false (rotate_double d z)))
      double-Gives d h k n =
          let (shorter, n') = depth-rotate_double key d z h k n in
          Gives-map _ _ (λ r. kept.rotated_double d z r h k n) (rest _ n' (omega arith))

      two_turns :
          (root : Bool) (d₁ d₂ : Bool)
          → Towards key d₁ z
          → Towards key d₂ (child d₁ z)
          → is_null (child d₂ (child d₁ z)) ≡ false
          → Gives (P z) (search_loop (suc f) e key root z)
      two_turns root true true h k n =
          rw (search_loop-two f e key root z true true h k n)
            (Gives-if _ _ _ (rotated-Gives true h k) (down-Gives true true h k n))
      two_turns root true false h k n =
          rw (search_loop-two f e key root z true false h k n)
            (Gives-if _ _ _ (double-Gives true h k n) (down-Gives true false h k n))
      two_turns root false true h k n =
          rw (search_loop-two f e key root z false true h k n)
            (Gives-if _ _ _ (double-Gives false h k n) (down-Gives false true h k n))
      two_turns root false false h k n =
          rw (search_loop-two f e key root z false false h k n)
            (Gives-if _ _ _ (rotated-Gives false h k) (down-Gives false false h k n))

    -- With fuel for the length of the way the loop ends, and a property that its rounds keep holds.
    pub walk :
        (f e : ℕ) (root : Bool) (z : Tree V)
        → is_null z ≡ false
        → depth key z ≤ f
        → Gives (P z) (search_loop f e key root z)
    walk zero e root z n fuel = absurd (omega (arith, depth_pos key z n))
    walk (suc f) e root z n fuel = elim (turn-cases key z n) [
      | inl h ↦ (at_root key z, search_loop-at_root f e key root z h, kept.root_end z h)
      | inr (d₁, h, n₁) ↦ elim (turn-cases key (child d₁ z) n₁) [
        | inl k ↦
            (at_child key d₁ z, search_loop-at_child f e key root z d₁ h k, kept.child_end d₁ z h k)
        | inr (d₂, k, n₂) ↦ two_turns f e z (λ t. walk f e false t) fuel root d₁ d₂ h k n₂
      ]
    ]
