-- ===== src/Base/Total.antt =====
-- Sums over threads.
use Prim.Native.Nat.{ℕ, zero, suc, ◌+◌, ◌≤◌, ◌<◌}
use mathlib.Core.Path.{◌≡◌, refl, ap}
use mathlib.Core.Logic.{inl, inr}
use native.Mathlib.Omega.{arith}
use splaylist.Base.Tests.{◌==◌, ==→eq, ==→ne, Bool-cases}
use splaylist.Base.Memory.{upd, upd-same, upd-other}

module _ {ℓ} {A : Type ℓ} where
  pub total : ℕ → (A → ℕ) → (ℕ → A) → ℕ
  total zero f pc = 0
  total (suc n) f pc = total n f pc + f (pc n)

  -- Places from `n` on do not count.
  total_beyond :
      (n : ℕ) (f : A → ℕ) (pc : ℕ → A) (i : ℕ) (q : A)
      → n ≤ i
      → total n f (upd pc i q) ≡ total n f pc
  unfolding total
  total_beyond zero f pc i q le = refl
  total_beyond (suc n) f pc i q le =
      let same = ap f (upd-other pc i q n (λ e. absurd (omega arith))) in
      let rest = total_beyond n f pc i q (omega arith) in omega arith

  pub total-upd :
      (n : ℕ) (f : A → ℕ) (pc : ℕ → A) (i : ℕ) (q : A)
      → i < n
      → total n f (upd pc i q) + f (pc i) ≡ total n f pc + f q
  unfolding total
  total-upd zero f pc i q lt = absurd (omega arith)
  total-upd (suc n) f pc i q lt = elim (Bool-cases (i == n)) [
    | inl e ↦
        let at = ==→eq i n e in
        let rest = total_beyond n f pc i q (omega arith) in
        let here = ap f (upd-same pc i q i refl) in
        let moved = ap (λ x. f (upd pc i q x)) at in
        let moved' = ap (λ x. f (pc x)) at in omega arith
    | inr e ↦
        let n' = ==→ne i n e in
        let same = ap f (upd-other pc i q n (λ x. absurd (omega arith))) in
        let rest = total-upd n f pc i q (omega arith) in omega arith
  ]

  pub total_at : (n : ℕ) (f : A → ℕ) (pc : ℕ → A) (i : ℕ) → i < n → f (pc i) ≤ total n f pc
  unfolding total
  total_at zero f pc i lt = absurd (omega arith)
  total_at (suc n) f pc i lt = elim (Bool-cases (i == n)) [
    | inl e ↦ let at = ap (λ x. f (pc x)) (==→eq i n e) in omega arith
    | inr e ↦ let rest = total_at n f pc i (omega (arith, ==→ne i n e)) in omega arith
  ]

  -- Two threads both count.
  pub total_two :
      (n : ℕ) (f : A → ℕ) (pc : ℕ → A) (i j : ℕ)
      → i < j
      → j < n
      → f (pc i) + f (pc j) ≤ total n f pc
  unfolding total
  total_two zero f pc i j lt ltn = absurd (omega arith)
  total_two (suc n) f pc i j lt ltn = elim (Bool-cases (j == n)) [
    | inl e ↦
        let at = ap (λ x. f (pc x)) (==→eq j n e) in
        let one = total_at n f pc i (omega (arith, ==→eq j n e)) in omega arith
    | inr e ↦ let rest = total_two n f pc i j lt (omega (arith, ==→ne j n e)) in omega arith
  ]

  -- A sum is at most another, or the number of threads, if its terms are.
  pub total_mono :
      (n : ℕ) (f g : A → ℕ) (pc : ℕ → A) → ((p : A) → f p ≤ g p) → total n f pc ≤ total n g pc
  unfolding total
  total_mono zero f g pc h = omega arith
  total_mono (suc n) f g pc h =
      let rest = total_mono n f g pc h in let last = h (pc n) in omega arith

  pub total_le : (n : ℕ) (f : A → ℕ) (pc : ℕ → A) → ((p : A) → f p ≤ 1) → total n f pc ≤ n
  unfolding total
  total_le zero f pc h = omega arith
  total_le (suc n) f pc h = let rest = total_le n f pc h in let last = h (pc n) in omega arith

  pub total_zero : (n : ℕ) (f : A → ℕ) (p : A) → f p ≡ 0 → total n f (λ i. p) ≡ 0
  unfolding total
  total_zero zero f p e = refl
  total_zero (suc n) f p e = let rest = total_zero n f p e in omega arith

  pub total_none :
      (n : ℕ) (f : A → ℕ) (pc : ℕ → A) → ((j : ℕ) → j < n → f (pc j) ≡ 0) → total n f pc ≡ 0
  unfolding total
  total_none zero f pc h = refl
  total_none (suc n) f pc h =
      let rest = total_none n f pc (λ j lt. h j (omega arith)) in
      let last = h n (omega arith) in omega arith
