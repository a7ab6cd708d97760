-- ===== src/SkipLazy/Random.antt =====
-- `PaddedRandom`: the levels of new nodes.
use Prim.Native.Nat.{bit_xor}
use splaylist.Base.{
  ℕ, zero, suc, ◌+◌, ◌*◌, ◌/◌, ◌%◌, ◌^◌, ◌≤◌, ◌<◌, ◌≡◌, ◌≢◌, ap, ◌⊎◌, refl, inl, inr, arith, ◌==◌,
  if◌then◌else◌, Bool-cases, ==→eq, ==→ne,
}
use splaylist.SkipLazy.State.{max_level}

-- One turn of the generator, on 32-bit words.
unfoldable pub next_seed : ℕ → ℕ
next_seed seed =
    let a = bit_xor seed (seed * 2 ^ 6 % 2 ^ 32) in
    let b = bit_xor a (a / 2 ^ 21) in bit_xor b (b * 2 ^ 13 % 2 ^ 32)

-- The first of the bits `i`, `i + 1`, … that is 0, of `n` bits; 0 if there is none.
unfoldable pub first_clear : ℕ → ℕ → ℕ → ℕ
first_clear zero i seed = 0
first_clear (suc n) i seed =
    let rest = first_clear n (i + 1) seed in if seed / 2 ^ i % 2 == 0 then i else rest

-- The level, and the seed from then on.
unfoldable pub gen_random : ℕ → ℕ × ℕ
unfolding next_seed first_clear
gen_random seed = (first_clear max_level 0 (next_seed seed), next_seed seed)

-- Of the bits `from` to below `i` of `seed`, all are 1.
abbrev pub AreSet : ℕ → ℕ → ℕ → Type 0
AreSet seed from i = (j : ℕ) → from ≤ j → j < i → seed / 2 ^ j % 2 ≡ 1

-- The first bit that is 0, or 0 where there is none.
abbrev pub IsFirst : ℕ → ℕ → ℕ → ℕ → Type 0
IsFirst n i seed r =
    ((i ≤ r) × (r < i + n) × (seed / 2 ^ r % 2 ≡ 0) × AreSet seed i r)
    ⊎ ((r ≡ 0) × AreSet seed i (i + n))

AreSet-suc : (seed i k : ℕ) → seed / 2 ^ i % 2 ≢ 0 → AreSet seed (i + 1) k → AreSet seed i k
AreSet-suc seed i k odd a j le lt = elim (Bool-cases (j == i)) [
  | inl e ↦
      let at = ap (λ l. seed / 2 ^ l % 2) (==→eq j i e) in
      let bit : seed / 2 ^ i % 2 < 2 = omega arith in omega (arith, at)
  | inr n ↦ a j (omega (arith, ==→ne j i n)) lt
]

first_clear-IsFirst : (n i seed : ℕ) → IsFirst n i seed (first_clear n i seed)
unfolding first_clear
first_clear-IsFirst zero i seed = inr (refl, λ j a b. absurd (omega arith))
first_clear-IsFirst (suc n) i seed = elim (Bool-cases (seed / 2 ^ i % 2 == 0)) [
  | inl e ↦ rw e (inl (omega arith, omega arith, ==→eq _ _ e, λ j a b. absurd (omega arith)))
  | inr e ↦
      let odd = ==→ne (seed / 2 ^ i % 2) 0 e in
      rw e (elim (first_clear-IsFirst n (i + 1) seed) [
        | inl (le, lt, z, a) ↦ inl (omega arith, omega arith, z, AreSet-suc seed i _ odd a)
        | inr (z, a) ↦ inr (z, AreSet-suc seed i (i + suc n) odd λ j le lt. a j le (omega arith))
      ])
]

-- The level is the number of ones at the low end of the new seed, and so below `max_level`; it is 0 if
-- the lowest `max_level` bits are all ones.
pub gen_random-IsFirst : (seed : ℕ) → IsFirst max_level 0 (next_seed seed) (gen_random seed).0
unfolding gen_random
gen_random-IsFirst seed = first_clear-IsFirst max_level 0 (next_seed seed)

pub gen_random-lt : (seed : ℕ) → (gen_random seed).0 < max_level
gen_random-lt seed = elim (gen_random-IsFirst seed) [
  | inl (le, lt, z, a) ↦ omega arith
  | inr (z, a) ↦ omega arith
]
