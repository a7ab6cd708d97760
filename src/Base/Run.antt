-- ===== src/Base/Run.antt =====
-- The outcome of code over a store: a result, a fault, or the one event that the code does not
-- guard against.
use splaylist.Base.{Bool, true, false, ◌≡◌, refl, if◌then◌else◌}

pub data Run {ℓ} (A : Type ℓ) : Type ℓ where
  done : A → Run A
  -- a level below 0 would be needed
  sunk : Run A
  -- a null pointer is read, the code waits for ever, or the fuel of a loop is used up
  stuck : Run A

infixl 5 ◌>>=◌
abbrev pub ◌>>=◌ {ℓ κ} : {A : Type ℓ} {B : Type κ} → Run A → (A → Run B) → Run B
done a >>= f = f a
sunk >>= f = sunk
stuck >>= f = stuck

module _ {ℓ κ} {A : Type ℓ} where
  -- The code returns, and its result satisfies `P`.
  pub data Returns (P : A → Type κ) : Run A → Type (ℓ ⊔ κ) where
    returns : {a : A} → P a → Returns P (done a)

  -- The code returns with such a result, or the list has sunk below level 0.
  pub data Ensures (P : A → Type κ) : Run A → Type (ℓ ⊔ κ) where
    ensures : {a : A} → P a → Ensures P (done a)
    has_sunk : Ensures P sunk

module _ {ℓ κ μ} {A : Type ℓ} {P : A → Type κ} {Q : A → Type μ} where
  pub Returns-mono : {m : Run A} → Returns P m → ((a : A) → P a → Q a) → Returns Q m
  Returns-mono (returns p) weaken = returns (weaken _ p)

  pub Ensures-mono : {m : Run A} → Ensures P m → ((a : A) → P a → Q a) → Ensures Q m
  Ensures-mono (ensures p) weaken = ensures (weaken _ p)
  Ensures-mono has_sunk weaken = has_sunk

module _ {ℓ κ μ ν} {A : Type ℓ} {B : Type μ} {P : A → Type κ} {Q : B → Type ν} where
  pub Returns-bind :
      {m : Run A} {f : A → Run B}
      → Returns P m
      → ((a : A) → P a → Returns Q (f a))
      → Returns Q (m >>= f)
  Returns-bind (returns p) next = next _ p

  pub Ensures-bind :
      {m : Run A} {f : A → Run B}
      → Ensures P m
      → ((a : A) → P a → Ensures Q (f a))
      → Ensures Q (m >>= f)
  Ensures-bind (ensures p) next = next _ p
  Ensures-bind has_sunk next = has_sunk

  pub Ensures-bind_Returns :
      {m : Run A} {f : A → Run B}
      → Returns P m
      → ((a : A) → P a → Ensures Q (f a))
      → Ensures Q (m >>= f)
  Ensures-bind_Returns (returns p) next = next _ p

module _ {ℓ κ} {A : Type ℓ} {P : A → Type κ} where
  -- Both branches of a test.
  pub Ensures-if :
      (b : Bool) {m n : Run A}
      → (b ≡ true → Ensures P m)
      → (b ≡ false → Ensures P n)
      → Ensures P (if b then m else n)
  Ensures-if true yes_case no_case = yes_case refl
  Ensures-if false yes_case no_case = no_case refl

module _ {ℓ κ} {A : Type ℓ} {P : A → Type κ} where
  pub Returns-if :
      (b : Bool) {m n : Run A}
      → (b ≡ true → Returns P m)
      → (b ≡ false → Returns P n)
      → Returns P (if b then m else n)
  Returns-if true yes_case no_case = yes_case refl
  Returns-if false yes_case no_case = no_case refl

module _ {ℓ κ μ} {A : Type ℓ} {B : Type μ} (erase : A → B) where
  -- The first code ends as the second does, up to what `erase` forgets, and `P` holds of its result.
  pub data Shadows (P : A → Type κ) : Run A → Run B → Type (ℓ ⊔ κ ⊔ μ) where
    both_done : {a : A} → P a → Shadows P (done a) (done (erase a))
    both_sunk : Shadows P sunk sunk
    both_stuck : Shadows P stuck stuck

  -- The same, and neither is stuck.
  pub data Matches (P : A → Type κ) : Run A → Run B → Type (ℓ ⊔ κ ⊔ μ) where
    both_return : {a : A} → P a → Matches P (done a) (done (erase a))
    both_sink : Matches P sunk sunk

module _ {ℓ κ} {A : Type ℓ} {P : A → Type κ} where
  Ensures-done : {a : A} → Ensures P (done a) → P a
  Ensures-done (ensures p) = p

module _ {ℓ κ μ ν} {A : Type ℓ} {B : Type μ} {erase : A → B} {P : A → Type κ} {Q : B → Type ν} where
  pub Shadows-Ensures :
      {m : Run A} {n : Run B}
      → Shadows erase P m n
      → Ensures Q n
      → Ensures (λ a. P a × Q (erase a)) m
  Shadows-Ensures (both_done p) q = ensures (p, Ensures-done q)
  Shadows-Ensures both_sunk q = has_sunk
  Shadows-Ensures both_stuck q = elim q [ ]

module _ {ℓ κ μ ν} {A : Type ℓ} {B : Type μ} {erase : A → B} {P : A → Type κ} {Q : B → Type ν} where
  pub Shadows-Matches :
      {m : Run A} {n : Run B}
      → Shadows erase P m n
      → Ensures Q n
      → Matches erase (λ a. P a × Q (erase a)) m n
  Shadows-Matches (both_done p) q = both_return (p, Ensures-done q)
  Shadows-Matches both_sunk q = both_sink
  Shadows-Matches both_stuck q = elim q [ ]

module _ {ℓ κ μ κ'} {A : Type ℓ} {B : Type μ} {erase : A → B} {P : A → Type κ}
    {R : A → Type κ'} where
  pub Shadows-mono :
      {m : Run A} {n : Run B} → Shadows erase P m n → ((a : A) → P a → R a) → Shadows erase R m n
  Shadows-mono (both_done p) weaken = both_done (weaken _ p)
  Shadows-mono both_sunk weaken = both_sunk
  Shadows-mono both_stuck weaken = both_stuck

module _ {ℓ κ μ ν ℓ' μ' κ'} {A : Type ℓ} {B : Type μ} {erase : A → B} {P : A → Type κ}
    {Q : B → Type ν} {A' : Type ℓ'} {B' : Type μ'} {erase' : A' → B'} {R : A' → Type κ'} where
  -- What follows, where the second code is known to end well.
  pub Shadows-bind_Ensures :
      {m : Run A} {n : Run B} {f : A → Run A'} (g : B → Run B')
      → Shadows erase P m n
      → Ensures Q n
      → ((a : A) → P a → Q (erase a) → Shadows erase' R (f a) (g (erase a)))
      → Shadows erase' R (m >>= f) (n >>= g)
  Shadows-bind_Ensures g (both_done p) q next = next _ p (Ensures-done q)
  Shadows-bind_Ensures g both_sunk q next = both_sunk
  Shadows-bind_Ensures g both_stuck q next = both_stuck
