-- ===== src/CbTree/Laws.antt =====
-- The public operations against the list of entries.
use mathlib.Core.Option
use splaylist.Base.{
  sym, ◌≢◌, ◌++◌, ℕ, ◌+◌, ◌≤◌, ◌≡◌, refl, Bool, true, false, Option, none, some, List, [], ◌∷◌, inl,
  inr, arith, Bool-cases, if◌then◌else◌,
}
use splaylist.Base.Entries
use splaylist.Base.Entries.{IsSorted, lookup, insert_entry}
use splaylist.CbTree.Tree.{Tree, leaf, node, is_null, size, subtree_at, modify_at}
use splaylist.CbTree.Search.{Found, put_back}
use splaylist.CbTree.Walk.{child, Ends-is_null}
use splaylist.CbTree.Walk.Depth.{
  depth, depth_pos, depth-le-size, depth-Towards, depth-rotate, depth-rotate_double,
}
use splaylist.CbTree.Walk.Induction.{IsKept, IsKept-×, walk}
use splaylist.CbTree.Entries.{entries, entries-IsKept}
use splaylist.CbTree.Ops.{CbTree, value_of, attach, insert_if_absent, find}
use splaylist.CbTree.Lookup.{found_value, lookup-IsKept}
use splaylist.CbTree.Insert.{insert-IsKept}

module _ {ℓ} {V : Type ℓ} where
  -- A search tree below the root that the constructor makes.
  pub record IsValid (t : CbTree V) : Type 0 where
    pub rooted : is_null t.root ≡ false
    pub sorted : IsSorted (entries t.root)

  abbrev pub reads : CbTree V → ℕ → V
  reads t key = elim (lookup key (entries t.root)) [ none ↦ t.no_value | some v ↦ v ]

  rounds-IsKept : (key : ℕ) → IsKept {V = V} key (λ z r. r.rounds ≤ depth key z)
  unfolding put_back
  rounds-IsKept key = record {
    root_end = λ z h. depth_pos key z (Ends-is_null key z h);
    child_end = λ d z h k. omega (arith, depth-Towards key d z h);
    rotated = λ d z r h k p. omega (arith, depth-rotate key d z h k);
    rotated_double = λ d z r h k n p. omega (arith, depth-rotate_double key d z h k n);
    below = λ d₁ d₂ z r h k p.
        omega (arith, depth-Towards key d₁ z h, depth-Towards key d₂ (child d₁ z) k);
  }

  -- The facts about a search from the root that the operations use.
  abbrev pub Searched : ℕ → Tree V → Found V → Type ℓ
  Searched key z r =
      (IsSorted (entries z) → found_value r ≡ some (lookup key (entries z)))
      × ((entries r.tree ≡ entries z) × (r.rounds ≤ depth key z))

  Searched-IsKept : (key : ℕ) → IsKept key (Searched key)
  Searched-IsKept key =
      IsKept-× key (lookup-IsKept key) (IsKept-× key (entries-IsKept key) (rounds-IsKept key))

  -- The tree after a search with the result `r`.
  abbrev pub after : CbTree V → Found V → CbTree V
  after t r = record t { root = r.tree; length = t.length + r.rounds }

  found_pair :
      {A : Type ℓ} (hit : Bool) (v o : Option V) (a : A) (miss : V)
      → (if hit then Option.map some v else some none) ≡ some o
      → (if hit then Option.map {B = A × V} (λ w. (a, w)) v else some (a, miss))
        ≡ some (a, elim o [ none ↦ miss | some w ↦ w ])
  found_pair hit v o a miss h = ground arith

  append-ne-nil : (xs : List (ℕ × V)) (y : ℕ × V) (ys : List (ℕ × V)) → xs ++ y ∷ ys ≢ []
  append-ne-nil [] y ys = λ e. cc
  append-ne-nil (x ∷ xs) y ys = λ e. cc

  is_null-entries : (t : Tree V) → is_null t ≡ false → entries t ≢ []
  is_null-entries leaf n = cc
  is_null-entries (node l k v w r) n = append-ne-nil (entries l) (k, v) (entries r)

  -- Validity is a property of the entries.
  IsValid-entries :
      (t : CbTree V) (u : Tree V) (n : ℕ)
      → IsValid t
      → entries u ≡ entries t.root
      → IsValid (record t { root = u; length = n })
  IsValid-entries t leaf n h e = absurd (is_null-entries t.root h.rooted (sym e))
  IsValid-entries t (node l k v w r) n h e = record { rooted = refl; sorted = rw e h.sorted }

  -- `find` returns the value of the key, or `no_value`, with the same entries in the tree afterwards,
  -- and makes at most as many rounds as the tree has nodes.
  pub find-lookup :
      (e : ℕ) (t : CbTree V) (x : ℕ)
      → IsValid t
      → (t' : CbTree V) × (find e t x ≡ some (t', reads t x))
        × (entries t'.root ≡ entries t.root)
        × IsValid t'
        × (t'.no_value ≡ t.no_value)
        × (t'.length ≤ t.length + size t.root)
  unfolding find
  find-lookup e t x h =
      let (r, run, (value, (same, rounds))) =
        walk x (Searched-IsKept x) (size t.root) e true t.root h.rooted (depth-le-size x t.root) in
      (
        after t r,
        rw run (found_pair r.hit _ _ (after t r) t.no_value (value h.sorted)),
        same,
        IsValid-entries t r.tree (t.length + r.rounds) h same,
        refl,
        omega (arith, depth-le-size x t.root),
      )

  insert_entry-ne-nil : (key : ℕ) (val : V) (xs : List (ℕ × V)) → insert_entry key val xs ≢ []
  unfolding insert_entry
  insert_entry-ne-nil key val [] = λ e. cc
  insert_entry-ne-nil key val ((k, v) ∷ xs) = λ e. ground arith

  IsValid-insert :
      (t : CbTree V) (u : Tree V) (n key : ℕ) (val : V)
      → IsValid t
      → lookup key (entries t.root) ≡ none
      → entries u ≡ insert_entry key val (entries t.root)
      → IsValid (record t { root = u; length = n })
  IsValid-insert t leaf n key val h miss e =
      absurd (insert_entry-ne-nil key val (entries t.root) (sym e))
  IsValid-insert t (node l k v w r) n key val h miss e = record {
    rooted = refl;
    sorted = rw e (Entries.insert_entry-IsSorted key val _ h.sorted miss);
  }

  pub hit_value :
      (v o : Option V) → Option.map some v ≡ some o → (w : V) × (v ≡ some w) × (o ≡ some w)
  hit_value none o h = cc
  hit_value (some w) o h = (w, refl, cc)

  -- What a call to insert leaves and returns, by whether the key has a value already.
  abbrev pub Inserted : CbTree V → ℕ → V → CbTree V × V → Type ℓ
  Inserted t key val (t', v) =
      (v ≡ reads t key)
      × (entries t'.root ≡ (elim (lookup key (entries t.root)) [
        | none ↦ insert_entry key val (entries t.root)
        | some _ ↦ entries t.root
      ]))
      × IsValid t'
      × (t'.no_value ≡ t.no_value)

  Inserted-hit :
      (t : CbTree V) (key : ℕ) (val : V) (r : Found V) (w : V)
      → IsValid t
      → lookup key (entries t.root) ≡ some w
      → entries r.tree ≡ entries t.root
      → Inserted t key val (after t r, w)
  Inserted-hit t key val r w h here same =
      (rw (here, reads) refl, rw here same, IsValid-entries t r.tree _ h same, refl)

  -- The end of `insert_if_absent`, for what the search returned.
  Inserted-by :
      (t : CbTree V) (key : ℕ) (val : V) (r : Found V)
      → IsValid t
      → found_value r ≡ some (lookup key (entries t.root))
      → entries r.tree ≡ entries t.root
      → (r.hit ≡ false
          → entries (modify_at r.place (attach key val) r.tree)
            ≡ insert_entry key val (entries t.root))
      → (p : CbTree V × V) × ((if r.hit
            then Option.map {B = CbTree V × V}
                (λ v. (after t r, v))
                (value_of (subtree_at r.place r.tree))
            else some (
              record t {
                root = modify_at r.place (attach key val) r.tree;
                length = t.length + r.rounds;
              },
              t.no_value,
            ))
          ≡ some p)
        × Inserted t key val p
  Inserted-by t key val r h value same inserted = elim (Bool-cases r.hit) [
    | inl hit ↦
        let (w, at, here) = hit_value (value_of (subtree_at r.place r.tree)) _ (rw hit at value) in
        ((after t r, w), rw (hit, at), Inserted-hit t key val r w h here same)
    | inr miss ↦
        let gone : lookup key (entries t.root) ≡ none = ground arith in
        (
          (
            record t {
              root = modify_at r.place (attach key val) r.tree;
              length = t.length + r.rounds;
            },
            t.no_value,
          ),
          rw miss,
          (
            rw (gone, reads) refl,
            rw gone (inserted miss),
            IsValid-insert t _ (t.length + r.rounds) key val h gone (inserted miss),
            refl,
          ),
        )
  ]

  -- An absent key gets its entry, and the call returns `no_value`; for a key that is there the call
  -- returns its value and leaves the entries.
  pub insert_if_absent-lookup :
      (e : ℕ) (t : CbTree V) (key : ℕ) (val : V)
      → IsValid t
      → (p : CbTree V × V) × (insert_if_absent e t key val ≡ some p) × Inserted t key val p
  unfolding insert_if_absent
  insert_if_absent-lookup e t key val h =
      let (r, run, ((value, (same, rounds)), inserted)) =
        walk key (IsKept-× key (Searched-IsKept key) (insert-IsKept key val)) (size t.root) e true
          t.root h.rooted (depth-le-size key t.root) in
      rw run (Inserted-by t key val r h (value h.sorted) same (inserted h.sorted))
