-- ===== src/SkipLazy/Validate.antt =====
-- What `validate` answers: on a linked list, and on any list whose lowest level ends at `tail`.
use splaylist.Base.{
  ℕ, zero, suc, ◌+◌, ◌≤◌, ◌<◌, ◌≡◌, ◌≢◌, ◌∙◌, refl, ap, Bool, true, false, not, ◌&&◌, ◌||◌,
  if◌then◌else◌, some, arith, ◌==◌, ltb, Bool-cases, inl, inr, ==→eq, ==→ne, List, [], ◌∷◌,
}
use splaylist.Base.Run.{done, Returns, returns}
use splaylist.SkipLazy.State.{SkipList, head, tail, read_next}
use splaylist.SkipLazy.Ops.{mem_key, validate_loop, validate}
use splaylist.SkipLazy.Shape.{shape, IsLinked, next_of}

-- All keys of the list are less than the number.
abbrev AreBelow : ℕ → List ℕ → Type 0
AreBelow k [] = Unit
AreBelow k (x ∷ xs) = (x < k) × AreBelow k xs

AreBelow-mono : (j k : ℕ) (xs : List ℕ) → j ≤ k → AreBelow j xs → AreBelow k xs
AreBelow-mono j k [] le a = tt
AreBelow-mono j k (x ∷ xs) le (lt, a) = (omega arith, AreBelow-mono j k xs le a)

mem_key-below : (k : ℕ) (xs : List ℕ) → AreBelow k xs → mem_key k xs ≡ false
unfolding mem_key
mem_key-below k [] a = refl
mem_key-below k (x ∷ xs) (lt, a) = ground (arith, mem_key-below k xs a)

validate_loop-true :
    (fuel p : ℕ) (keys : List ℕ) (s : SkipList)
    → IsLinked (shape s)
    → p < s.size
    → AreBelow (s.nodes.key p) keys
    → 0 < fuel
    → s.nodes.key tail < s.nodes.key p + fuel
    → Returns (λ b. b ≡ true) (validate_loop fuel (s.nodes.key head) keys p s)
unfolding validate_loop
validate_loop-true zero p keys s linked live a some_fuel fuel = absurd (omega arith)
validate_loop-true (suc n) p keys s linked live a some_fuel fuel = elim (Bool-cases (p == tail)) [
  | inl e ↦ rw e (returns refl)
  | inr other ↦
      let below = linked.below_tail p live in
      let lt : s.nodes.key p < s.nodes.key tail =
        elim (Bool-cases (s.nodes.key p == s.nodes.key tail)) [
          | inl same ↦ absurd (
              ==→ne p tail other (
                linked.keys p tail live linked.sized
                  (==→eq (s.nodes.key p) (s.nodes.key tail) same)))
          | inr ne ↦ omega (arith, ==→ne (s.nodes.key p) (s.nodes.key tail) ne)
        ] in
      let first : ltb (s.nodes.key p) (s.nodes.key head) ≡ false =
        ground (arith, linked.above_head p live) in
      let (q, e, f) = next_of s p 0 linked live lt (omega arith) in
      rw (other, mem_key-below (s.nodes.key p) keys a, first, e)
        (validate_loop-true n q (s.nodes.key p ∷ keys) s linked f.live
          (f.above, AreBelow-mono (s.nodes.key p) (s.nodes.key q) keys (omega (arith, f.above)) a)
          (omega (arith, linked.below_tail q f.live, f.above)) (omega (arith, f.above)))
]

-- `validate` returns true on a linked list; more rounds than the number of the key of `tail` are enough.
validate-IsLinked :
    (s : SkipList) (fuel : ℕ)
    → IsLinked (shape s)
    → s.nodes.key tail < fuel
    → Returns (λ b. b ≡ true) (validate fuel s)
unfolding validate
validate-IsLinked s fuel linked enough =
    validate_loop-true fuel head [] s linked (omega (arith, linked.sized)) tt (omega arith)
      (omega arith)

-- What `validate` looks for, without its set of the keys seen so far.
abbrev differs : ℕ → List ℕ → Bool
differs k [] = true
differs k (x ∷ xs) = not (k == x) && differs k xs

abbrev pub are_distinct : List ℕ → Bool
are_distinct [] = true
are_distinct (k ∷ ks) = differs k ks && are_distinct ks

abbrev pub none_below : ℕ → List ℕ → Bool
none_below first [] = true
none_below first (k ∷ ks) = not (ltb k first) && none_below first ks

-- The links at level 0 lead from `p` through the nodes of the list to `tail`, which comes last.
abbrev pub LeadsOn : SkipList → ℕ → List ℕ → Type 0
LeadsOn s p [] = p ≡ tail
LeadsOn s p (q ∷ qs) = (p ≢ tail) × (s.nodes.next p 0 ≡ some q) × LeadsOn s q qs

-- The keys of the nodes before `tail`, from `p` on.
abbrev pub keys_from : SkipList → ℕ → List ℕ → List ℕ
keys_from s p [] = []
keys_from s p (q ∷ qs) = s.nodes.key p ∷ keys_from s q qs

abbrev pub size : List ℕ → ℕ
size [] = 0
size (x ∷ xs) = size xs + 1

-- No key of the second list is in the first.
abbrev are_new : List ℕ → List ℕ → Bool
are_new keys [] = true
are_new keys (k ∷ ks) = not (mem_key k keys) && are_new keys ks

and_left_comm : (a b c : Bool) → a && (b && c) ≡ b && (a && c)
and_left_comm true b c = refl
and_left_comm false true c = refl
and_left_comm false false c = refl

are_new-cons :
    (k : ℕ) (keys ks : List ℕ) → are_new (k ∷ keys) ks ≡ not (mem_key k ks) && are_new keys ks
unfolding mem_key
are_new-cons k keys [] = refl
are_new-cons k keys (x ∷ ks) =
    let rest = are_new-cons k keys ks in
    elim (Bool-cases (k == x)) [
      | inl same ↦
          let turned : (x == k) ≡ true = ground (arith, ==→eq k x same) in rw (same, turned) refl
      | inr other ↦
          let turned : (x == k) ≡ false = ground (arith, ==→ne k x other) in
          rw (other, turned, rest) (and_left_comm (not (mem_key x keys)) _ _)
    ]

differs-eq-not-mem_key : (k : ℕ) (ks : List ℕ) → differs k ks ≡ not (mem_key k ks)
unfolding mem_key
differs-eq-not-mem_key k [] = refl
differs-eq-not-mem_key k (x ∷ ks) = elim (Bool-cases (k == x)) [
  | inl same ↦
      let turned : (x == k) ≡ true = ground (arith, ==→eq k x same) in rw (same, turned) refl
  | inr other ↦
      let turned : (x == k) ≡ false = ground (arith, ==→ne k x other) in
      rw (other, turned) (differs-eq-not-mem_key k ks)
]

are_new-nil : (ks : List ℕ) → are_new [] ks ≡ true
unfolding mem_key
are_new-nil [] = refl
are_new-nil (k ∷ ks) = are_new-nil ks

-- A round: the key was seen, is low, or comes again; the keys after it are new, distinct and not low.
tested :
    (seen low again new distinct high : Bool)
    → (if seen || low then done false else done ((not again && new) && (distinct && high)))
      ≡ done ((not seen && new) && ((not again && distinct) && (not low && high)))
tested true low again new distinct high = refl
tested false true again false distinct high = refl
tested false true true true distinct high = refl
tested false true false true true high = refl
tested false true false true false high = refl
tested false false true false distinct high = refl
tested false false true true distinct high = refl
tested false false false new distinct high = refl

validate_loop-LeadsOn :
    (fuel p : ℕ) (qs keys : List ℕ) (s : SkipList) (first : ℕ)
    → LeadsOn s p qs
    → size qs < fuel
    → validate_loop fuel first keys p s
      ≡ done (
          are_new keys (keys_from s p qs)
          && (are_distinct (keys_from s p qs) && none_below first (keys_from s p qs)))
unfolding validate_loop
validate_loop-LeadsOn zero p qs keys s first leads fuel = absurd (omega arith)
validate_loop-LeadsOn (suc n) p [] keys s first leads fuel =
    let at : (p == tail) ≡ true = ground arith in rw at refl
validate_loop-LeadsOn (suc n) p (q ∷ qs) keys s first (ne, link, leads) fuel =
    let key = s.nodes.key p in
    let before : (p == tail) ≡ false = ground arith in
    let rest = validate_loop-LeadsOn n q qs (key ∷ keys) s first leads (omega arith) in
    let read : read_next p 0 s ≡ done q = rw (link, read_next) refl in
    let ks = keys_from s q qs in
    rw (before, read, rest, are_new-cons key keys ks, differs-eq-not-mem_key key ks)
      (tested (mem_key key keys) (ltb key first) (mem_key key ks) (are_new keys ks)
        (are_distinct ks) (none_below first ks))

-- Where the links at level 0 lead from `head` to `tail`, `validate` with more rounds than they have steps
-- returns: true if the keys before that of `tail` are different and none is below that of `head`, and
-- false otherwise.
pub validate-LeadsOn :
    (s : SkipList) (qs : List ℕ) (fuel : ℕ)
    → LeadsOn s head qs
    → size qs < fuel
    → validate fuel s
      ≡ done (
          are_distinct (keys_from s head qs) && none_below (s.nodes.key head) (keys_from s head qs))
unfolding validate
validate-LeadsOn s qs fuel leads enough =
    validate_loop-LeadsOn fuel head qs [] s (s.nodes.key head) leads enough
    ∙ ap
        (λ b. done (
          b
          && (are_distinct (keys_from s head qs)
              && none_below (s.nodes.key head) (keys_from s head qs))))
        (are_new-nil (keys_from s head qs))
