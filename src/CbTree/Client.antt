-- ===== src/CbTree/Client.antt =====
-- Any sequence of calls on the tree against a plain map: the results that a client sees are those of
-- the map, whatever rotations are made on the way.
use splaylist.Base.{ℕ, ◌≡◌, refl, Option, none, some, List, [], ◌∷◌}
use splaylist.Base.Entries.{lookup, insert_entry}
use splaylist.CbTree.Ops.{CbTree, ◌>>=◌, new_tree, find, insert_if_absent}
use splaylist.CbTree.Entries.{entries}
use splaylist.CbTree.Laws.{IsValid, find-lookup, insert_if_absent-lookup}

pub data Call {ℓ} (V : Type ℓ) : Type ℓ where
  find_key : ℕ → Call V
  insert_key : ℕ → V → Call V

module _ {ℓ} {V : Type ℓ} where
  -- The results of the calls, in order, and the tree that they leave.
  unfoldable pub run : ℕ → List (Call V) → CbTree V → Option (CbTree V × List V)
  unfolding find insert_if_absent
  run e [] t = some (t, [])
  run e (find_key k ∷ calls) t = do
    (t', v) ← find e t k
    (t'', vs) ← run e calls t'
    some (t'', v ∷ vs)
  run e (insert_key k val ∷ calls) t = do
    (t', v) ← insert_if_absent e t k val
    (t'', vs) ← run e calls t'
    some (t'', v ∷ vs)

  abbrev pub or_else : V → Option V → V
  or_else d none = d
  or_else d (some v) = v

  -- The map after a call to insert.
  abbrev pub with_entry : ℕ → V → List (ℕ × V) → List (ℕ × V)
  with_entry k val xs = elim (lookup k xs) [ none ↦ insert_entry k val xs | some _ ↦ xs ]

  -- The same calls on the map, where a key that is absent reads as `no_value`.
  abbrev pub replay : V → List (Call V) → List (ℕ × V) → List V
  replay d [] xs = []
  replay d (find_key k ∷ calls) xs = or_else d (lookup k xs) ∷ replay d calls xs
  replay d (insert_key k val ∷ calls) xs =
      or_else d (lookup k xs) ∷ replay d calls (with_entry k val xs)

  -- From a valid tree every sequence of calls returns, and its results are those of the map.
  pub run-replay :
      (e : ℕ) (calls : List (Call V)) (t : CbTree V)
      → IsValid t
      → (t' : CbTree V) × (run e calls t ≡ some (t', replay t.no_value calls (entries t.root)))
        × IsValid t'
  unfolding run
  run-replay e [] t h = (t, refl, h)
  run-replay e (find_key k ∷ calls) t h =
      let (t', found, same, h', nv, len) = find-lookup e t k h in
      let (t'', rest, h'') = run-replay e calls t' h' in (t'', rw (found, rest, same, nv) refl, h'')
  run-replay e (insert_key k val ∷ calls) t h =
      let (p, done, (v, ent, h', nv)) = insert_if_absent-lookup e t k val h in
      let (t'', rest, h'') = run-replay e calls p.0 h' in
      (t'', rw (done, rest, nv, ent, v) refl, h'')

  pub new_tree-IsValid : (max_key : ℕ) (d : V) (old : ℕ) → IsValid (new_tree max_key d old)
  unfolding new_tree
  new_tree-IsValid max_key d old = record { rooted = refl; sorted = (tt, tt) }
