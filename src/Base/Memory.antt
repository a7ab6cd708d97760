-- ===== src/Base/Memory.antt =====
-- Functions as memory.
use Prim.Native.Nat.{ℕ}
use mathlib.Core.Path.{◌≡◌, refl, sym, ap, ◌∙◌}
use mathlib.Core.Logic.{◌≢◌, inl, inr}
use mathlib.Core.Bool.{true}
use native.Mathlib.Omega.{arith}
use splaylist.Base.Tests.{◌==◌, if◌then◌else◌, ne→==, ==→eq, ==→ne, Bool-cases}

module _ {ℓ} {A : Type ℓ} where
  -- A function changed at one argument.
  abbrev pub upd : (ℕ → A) → ℕ → A → ℕ → A
  upd f i v j = if j == i then v else f j

  pub upd-same : (f : ℕ → A) (i : ℕ) (x : A) (q : ℕ) → q ≡ i → upd f i x q ≡ x
  upd-same f i x q e = let same : (q == i) ≡ true = ground arith in rw same refl

  pub upd-other : (f : ℕ → A) (i : ℕ) (x : A) (q : ℕ) → q ≢ i → upd f i x q ≡ f q
  upd-other f i x q n = rw (ne→== q i n) refl

  -- A write of what is there.
  pub upd-id : (f : ℕ → A) (i : ℕ) (x : A) → f i ≡ x → (q : ℕ) → upd f i x q ≡ f q
  upd-id f i x e q = elim (Bool-cases (q == i)) [
    | inl same ↦ let at = ==→eq q i same in upd-same f i x q at ∙ sym e ∙ sym (ap f at)
    | inr other ↦ upd-other f i x q (==→ne q i other)
  ]
