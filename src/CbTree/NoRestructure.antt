-- ===== src/CbTree/NoRestructure.antt =====
-- `search_no_restructure` reads the same as the entries, and as `find`.
use splaylist.Base.{
  ℕ, zero, suc, ◌+◌, ◌≤◌, ◌≡◌, refl, false, none, some, inl, inr, arith, if◌then◌else◌,
}
use splaylist.Base.Entries.{IsSorted, lookup}
use splaylist.CbTree.Tree.{Tree, is_null, size, equal}
use splaylist.CbTree.Walk.{child, Ends, get_child-Ends, get_child-Towards, turn-cases}
use splaylist.CbTree.Walk.Depth.{depth, depth_pos, depth-le-size, depth-Towards}
use splaylist.CbTree.Entries.{entries}
use splaylist.CbTree.Ops.{CbTree, value_of, search_no_restructure_loop, search_no_restructure}
use splaylist.CbTree.Lookup.{lookup-child, lookup-Ends}
use splaylist.CbTree.Laws.{IsValid}

module _ {ℓ} {V : Type ℓ} where
  value_of-equal :
      (key : ℕ) (z : Tree V)
      → Ends key z
      → IsSorted (entries z)
      → (if equal key z then value_of z else none) ≡ lookup key (entries z)
  value_of-equal key z h s = let e = lookup-Ends key z h s in ground arith

  -- What the loop returns at `z`, and in how many rounds.
  abbrev Reads : ℕ → ℕ → Tree V → Type ℓ
  Reads f key z =
      (n : ℕ) × (search_no_restructure_loop f key z ≡ some (lookup key (entries z), n))
      × (n ≤ depth key z)

  loop-Reads :
      (f key : ℕ) (z : Tree V)
      → is_null z ≡ false
      → depth key z ≤ f
      → IsSorted (entries z)
      → Reads f key z
  unfolding search_no_restructure_loop
  loop-Reads zero key z n fuel s = absurd (omega (arith, depth_pos key z n))
  loop-Reads (suc f) key z n fuel s = elim (turn-cases key z n) [
    | inl h ↦ (1, rw (n, get_child-Ends key z h, value_of-equal key z h s) refl, depth_pos key z n)
    | inr (d₁, h, n₁) ↦
        let (e₁, s₁) = lookup-child key d₁ z h s in
        elim (turn-cases key (child d₁ z) n₁) [
          | inl k ↦ (
            1,
            rw
                (
                  n,
                  get_child-Towards key d₁ false z h,
                  n₁,
                  get_child-Ends key (child d₁ z) k,
                  e₁,
                  value_of-equal key (child d₁ z) k s₁,
                )
                refl,
            depth_pos key z n,
          )
          | inr (d₂, k, n₂) ↦
              let (e₂, s₂) = lookup-child key d₂ (child d₁ z) k s₁ in
              let way = depth-Towards key d₁ z h in
              let way' = depth-Towards key d₂ (child d₁ z) k in
              let (m, run, le) = loop-Reads f key (child d₂ (child d₁ z)) n₂ (omega arith) s₂ in
              (
                m + 1,
                rw
                    (
                      n,
                      get_child-Towards key d₁ false z h,
                      n₁,
                      get_child-Towards key d₂ false (child d₁ z) k,
                      n₂,
                      run,
                      e₁,
                      e₂,
                    )
                    refl,
                omega arith,
              )
        ]
  ]

  -- The search without rotations returns the value of the key, leaves the tree as it is, and makes at
  -- most as many rounds as the tree has nodes.
  pub search_no_restructure-lookup :
      (t : CbTree V) (key : ℕ)
      → IsValid t
      → (n : ℕ) × (search_no_restructure t key
          ≡ some (record t { length = t.length + n }, lookup key (entries t.root)))
        × (n ≤ size t.root)
  unfolding search_no_restructure
  search_no_restructure-lookup t key h =
      let (n, run, le) =
        loop-Reads (size t.root) key t.root h.rooted (depth-le-size key t.root) h.sorted in
      (n, rw run, omega (arith, depth-le-size key t.root))
