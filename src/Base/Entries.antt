-- ===== src/Base/Entries.antt =====
-- Maps from number keys as lists of entries in the order of their keys: the abstract view of the
-- search structures.
use Prim.Native.Nat.{ℕ, ◌<◌}
use mathlib.Core.Path.{◌≡◌, refl}
use mathlib.Core.Logic.{inl, inr}
use mathlib.Core.Option.{Option, none, some}
use mathlib.Core.List.{List, [], ◌∷◌, ◌++◌}
use native.Mathlib.Omega.{arith}
use splaylist.Base.Tests.{ltb, ◌==◌, if◌then◌else◌, trichotomy, lt→ltb, le→ltb}

module _ {ℓ} {V : Type ℓ} where
  abbrev pub AllKeys {κ} : (ℕ → Type κ) → List (ℕ × V) → Type κ
  AllKeys P [] = Unit
  AllKeys P ((k, v) ∷ xs) = P k × AllKeys P xs

  abbrev pub IsSorted : List (ℕ × V) → Type 0
  IsSorted [] = Unit
  IsSorted ((k, v) ∷ xs) = AllKeys (λ j. k < j) xs × IsSorted xs

  unfoldable pub lookup : ℕ → List (ℕ × V) → Option V
  lookup key [] = none
  lookup key ((k, v) ∷ xs) = if key == k then some v else lookup key xs

  -- Puts an entry before the first one with a greater key.
  unfoldable pub insert_entry : ℕ → V → List (ℕ × V) → List (ℕ × V)
  insert_entry key value [] = (key, value) ∷ []
  insert_entry key value ((k, v) ∷ xs) =
      if ltb key k then (key, value) ∷ (k, v) ∷ xs else (k, v) ∷ insert_entry key value xs

  pub AllKeys-imp {κ μ} :
      {P : ℕ → Type κ} {Q : ℕ → Type μ} (xs : List (ℕ × V))
      → ((k : ℕ) → P k → Q k)
      → AllKeys P xs
      → AllKeys Q xs
  AllKeys-imp [] f a = tt
  AllKeys-imp ((k, v) ∷ xs) f (p, a) = (f k p, AllKeys-imp xs f a)

  pub AllKeys-append {κ} :
      (P : ℕ → Type κ) (xs ys : List (ℕ × V)) → AllKeys P (xs ++ ys) → AllKeys P xs × AllKeys P ys
  AllKeys-append P [] ys a = (tt, a)
  AllKeys-append P ((k, v) ∷ xs) ys (p, a) = let (b, c) = AllKeys-append P xs ys a in ((p, b), c)

  -- The parts of a sorted list around one of its entries.
  pub IsSorted-split :
      (xs : List (ℕ × V)) (k : ℕ) (v : V) (ys : List (ℕ × V))
      → IsSorted (xs ++ (k, v) ∷ ys)
      → IsSorted xs × AllKeys (λ j. j < k) xs × AllKeys (λ j. k < j) ys × IsSorted ys
  IsSorted-split [] k v ys s = (tt, tt, s.0, s.1)
  IsSorted-split ((j, w) ∷ xs) k v ys (a, s) =
      let (s₁, b, c, s₂) = IsSorted-split xs k v ys s in
      let (a₁, a₂) = AllKeys-append (λ i. j < i) xs ((k, v) ∷ ys) a in ((a₁, s₁), (a₂.0, b), c, s₂)

  pub lookup_above :
      (key : ℕ) (xs : List (ℕ × V)) → AllKeys (λ j. key < j) xs → lookup key xs ≡ none
  unfolding lookup
  lookup_above key [] a = refl
  lookup_above key ((k, v) ∷ xs) (p, a) = ground (arith, lookup_above key xs a)

  pub lookup_below :
      (key : ℕ) (xs : List (ℕ × V)) → AllKeys (λ j. j < key) xs → lookup key xs ≡ none
  unfolding lookup
  lookup_below key [] a = refl
  lookup_below key ((k, v) ∷ xs) (p, a) = ground (arith, lookup_below key xs a)

  lookup-append :
      (key : ℕ) (xs ys : List (ℕ × V))
      → lookup key xs ≡ none
      → lookup key (xs ++ ys) ≡ lookup key ys
  unfolding lookup
  lookup-append key [] ys h = refl
  lookup-append key ((k, v) ∷ xs) ys h = ground (arith, lookup-append key xs ys)

  lookup-append_left :
      (key : ℕ) (xs ys : List (ℕ × V))
      → lookup key ys ≡ none
      → lookup key (xs ++ ys) ≡ lookup key xs
  unfolding lookup
  lookup-append_left key [] ys h = h
  lookup-append_left key ((k, v) ∷ xs) ys h = ground (arith, lookup-append_left key xs ys h)

  -- An entry with a key below `k` goes in before it.
  pub insert_left :
      (key : ℕ) (value : V) (xs : List (ℕ × V)) (k : ℕ) (v : V) (ys : List (ℕ × V))
      → key < k
      → insert_entry key value (xs ++ (k, v) ∷ ys) ≡ insert_entry key value xs ++ (k, v) ∷ ys
  unfolding insert_entry
  insert_left key value [] k v ys h = ground arith
  insert_left key value ((j, w) ∷ xs) k v ys h = ground (arith, insert_left key value xs k v ys h)

  insert_after :
      (key : ℕ) (value : V) (xs : List (ℕ × V)) (k : ℕ) (v : V) (ys : List (ℕ × V))
      → AllKeys (λ j. j < key) xs
      → k < key
      → insert_entry key value (xs ++ (k, v) ∷ ys) ≡ xs ++ (k, v) ∷ insert_entry key value ys
  unfolding insert_entry
  insert_after key value [] k v ys a h = ground arith
  insert_after key value ((j, w) ∷ xs) k v ys (p, a) h =
      ground (arith, insert_after key value xs k v ys a h)

  AllKeys-insert_entry {κ} :
      (P : ℕ → Type κ) (key : ℕ) (value : V) (xs : List (ℕ × V))
      → P key
      → AllKeys P xs
      → AllKeys P (insert_entry key value xs)
  unfolding insert_entry
  AllKeys-insert_entry P key value [] p a = (p, tt)
  AllKeys-insert_entry P key value ((k, v) ∷ xs) p (q, a) =
      ground (arith, AllKeys-insert_entry P key value xs p a)

  -- A new key keeps the order.
  pub insert_entry-IsSorted :
      (key : ℕ) (value : V) (xs : List (ℕ × V))
      → IsSorted xs
      → lookup key xs ≡ none
      → IsSorted (insert_entry key value xs)
  unfolding insert_entry lookup
  insert_entry-IsSorted key value [] s n = (tt, tt)
  insert_entry-IsSorted key value ((k, v) ∷ xs) (a, s) n = elim (trichotomy key k) [
    | inl lt ↦ rw (lt→ltb key k lt) ((lt, AllKeys-imp xs (λ j p. omega arith) a), (a, s))
    | inr (inl eq) ↦ absurd (ground arith)
    | inr (inr gt) ↦ rw (le→ltb key k (omega arith)) (
      AllKeys-insert_entry (λ j. k < j) key value xs gt a,
      insert_entry-IsSorted key value xs s (ground arith),
    )
  ]

  -- What every key reads after a new entry.
  pub lookup-insert_entry :
      (key q : ℕ) (value : V) (xs : List (ℕ × V))
      → lookup key xs ≡ none
      → lookup q (insert_entry key value xs) ≡ (if q == key then some value else lookup q xs)
  unfolding insert_entry lookup
  lookup-insert_entry key q value [] n = refl
  lookup-insert_entry key q value ((k, v) ∷ xs) n =
      ground (arith, lookup-insert_entry key q value xs)

  -- Where the key lies in a sorted list with a known middle.
  module _ (key : ℕ) (xs : List (ℕ × V)) (k : ℕ) (v : V) (ys : List (ℕ × V))
      (s : IsSorted (xs ++ (k, v) ∷ ys)) where
    pub lookup_left : key < k → lookup key (xs ++ (k, v) ∷ ys) ≡ lookup key xs
    unfolding lookup
    lookup_left h =
        let (s₁, b, c, s₂) = IsSorted-split xs k v ys s in
        lookup-append_left key xs _
          (lookup_above key ((k, v) ∷ ys) (h, AllKeys-imp ys (λ j p. omega arith) c))

    pub lookup_right : k < key → lookup key (xs ++ (k, v) ∷ ys) ≡ lookup key ys
    unfolding lookup
    lookup_right h =
        let (s₁, b, c, s₂) = IsSorted-split xs k v ys s in
        let before : lookup key xs ≡ none =
          lookup_below key xs (AllKeys-imp xs (λ j p. omega arith) b) in
        ground (arith, lookup-append key xs ((k, v) ∷ ys) before)

    pub lookup_middle : key ≡ k → lookup key (xs ++ (k, v) ∷ ys) ≡ some v
    unfolding lookup
    lookup_middle h =
        let (s₁, b, c, s₂) = IsSorted-split xs k v ys s in
        let before : lookup key xs ≡ none =
          lookup_below key xs (AllKeys-imp xs (λ j p. omega arith) b) in
        ground (arith, lookup-append key xs ((k, v) ∷ ys) before)

    pub insert_right :
        (value : V)
        → k < key
        → insert_entry key value (xs ++ (k, v) ∷ ys) ≡ xs ++ (k, v) ∷ insert_entry key value ys
    insert_right value h =
        let (s₁, b, c, s₂) = IsSorted-split xs k v ys s in
        insert_after key value xs k v ys (AllKeys-imp xs (λ j p. omega arith) b) h
