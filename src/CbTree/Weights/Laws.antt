-- ===== src/CbTree/Weights/Laws.antt =====
-- The counters under the operations of the tree.
use mathlib.Core.Option
use splaylist.Base.{
  ℕ, ◌+◌, ◌^◌, ◌<◌, ◌≡◌, true, false, Option, some, inl, inr, Bool-cases, if◌then◌else◌,
}
use splaylist.Base.Int.{pos_part}
use splaylist.CbTree.Tree.{weight, is_null, size, modify_at, subtree_at}
use splaylist.CbTree.Search.{Found}
use splaylist.CbTree.Walk.Depth.{depth-le-size}
use splaylist.CbTree.Walk.Induction.{IsKept-×, walk}
use splaylist.CbTree.Ops.{CbTree, search, value_of, attach, insert_if_absent}
use splaylist.CbTree.Lookup.{found_value, lookup-IsKept}
use splaylist.CbTree.Weights.{IsWeighted}
use splaylist.CbTree.Weights.Access.{Accessed, Accessed-IsKept}
use splaylist.CbTree.Weights.Insert.{OneMoreAccess, OneMoreAccess-IsKept}
use splaylist.CbTree.Laws.{IsValid, hit_value}

module _ {ℓ} {V : Type ℓ} where
  -- A search adds one to the accesses of the node that it ends at and to no other, and the weights
  -- stay consistent with the accesses, while fewer than 2^31 accesses are counted.
  pub search-Accessed :
      (e : ℕ) (t : CbTree V) (key : ℕ)
      → is_null t.root ≡ false
      → IsWeighted t.root
      → pos_part (weight t.root) < 2 ^ 31
      → (t' : CbTree V) × (r : Found V) × (search e t key ≡ some (t', r))
        × Accessed t.root r.place t'.root
  unfolding search
  search-Accessed e t key rooted s b =
      let (r, run, a) =
        walk key (Accessed-IsKept key) (size t.root) e true t.root rooted
          (depth-le-size key t.root) in
      (record t { root = r.tree; length = t.length + r.rounds }, r, rw run, a s b)

  inserted-OneMoreAccess :
      (t : CbTree V) (key : ℕ) (val : V) (r : Found V) (o : Option V)
      → found_value r ≡ some o
      → Accessed t.root r.place r.tree
      → (r.hit ≡ false → OneMoreAccess t.root (modify_at r.place (attach key val) r.tree))
      → (p : CbTree V × V) × ((if r.hit
            then Option.map {B = CbTree V × V}
                (λ v. (record t { root = r.tree; length = t.length + r.rounds }, v))
                (value_of (subtree_at r.place r.tree))
            else some (
              record t {
                root = modify_at r.place (attach key val) r.tree;
                length = t.length + r.rounds;
              },
              t.no_value,
            ))
          ≡ some p)
        × OneMoreAccess t.root p.0.root
  inserted-OneMoreAccess t key val r o value a b = elim (Bool-cases r.hit) [
    | inl hit ↦
        let (w, at, here) = hit_value (value_of (subtree_at r.place r.tree)) o (rw hit at value) in
        (
          (record t { root = r.tree; length = t.length + r.rounds }, w),
          rw (hit, at),
          (a.consistent, a.total),
        )
    | inr miss ↦ (
      (
        record t { root = modify_at r.place (attach key val) r.tree; length = t.length + r.rounds },
        t.no_value,
      ),
      rw miss,
      b miss,
    )
  ]

  -- `insert_if_absent` keeps the weights consistent and counts one access in all, whether the key was
  -- there or is new, while fewer than 2^31 accesses are counted.
  pub insert_if_absent-OneMoreAccess :
      (e : ℕ) (t : CbTree V) (key : ℕ) (val : V)
      → IsValid t
      → IsWeighted t.root
      → pos_part (weight t.root) < 2 ^ 31
      → (p : CbTree V × V) × (insert_if_absent e t key val ≡ some p) × OneMoreAccess t.root p.0.root
  unfolding insert_if_absent
  insert_if_absent-OneMoreAccess e t key val h s b =
      let (r, run, (value, (a, o))) =
        walk key
          (IsKept-× key (lookup-IsKept key)
            (IsKept-× key (Accessed-IsKept key) (OneMoreAccess-IsKept key val)))
          (size t.root) e true t.root h.rooted (depth-le-size key t.root) in
      rw run (inserted-OneMoreAccess t key val r _ (value h.sorted) (a s b) (o s b))
