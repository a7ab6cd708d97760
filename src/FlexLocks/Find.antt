-- ===== src/FlexLocks/Find.antt =====
-- `find`: down the levels, with a lock on a node only while its missing links are written out.
use splaylist.Base.{
  ℕ, zero, suc, ◌+◌, Bool, true, false, Option, none, some, ltb, leb, ◌==◌, if◌then◌else◌,
}
use splaylist.Base.Run.{Run, done, stuck, ◌>>=◌}
use splaylist.FlexSeq.State.{head, upd}
use splaylist.FlexLocks.Shared.{LockList, lower_locked}

-- `sumLengths[tid].value++;`
abbrev pub count_path : ℕ → LockList → LockList
count_path tid s = record s { path_lengths = upd s.path_lengths tid (s.path_lengths tid + 1) }

-- `while (key > succ->key)`, with NULL for `succ` when the links end; the keys along the links grow, so
-- `key + 1` rounds are enough.
unfoldable pub find_walk : ℕ → ℕ → ℕ → ℕ → ℕ → Option ℕ → LockList → Run (ℕ × Option ℕ × LockList)
unfolding lower_locked
find_walk fuel tid key level pred none s = done (pred, none, s)
find_walk zero tid key level pred (some succ) s = stuck
find_walk (suc fuel) tid key level pred (some succ) s =
    let s₁ = count_path tid s in
    let next = (s₁.list.nodes succ).next level in
    let rest : Run (ℕ × Option ℕ × LockList) = do
      s₂ ← elim next [ none ↦ done s₁ | some q ↦ lower_locked q level s₁ ]
      find_walk fuel tid key level succ next s₂
    in if ltb (s.list.nodes succ).key key then rest else done (pred, some succ, s)

-- The levels below the first argument. The result has the values that `find` gives to `pred` and
-- `succ`.
unfoldable pub find_levels :
    ℕ → ℕ → ℕ → ℕ → Option ℕ → LockList → Run (Bool × ℕ × Option ℕ × LockList)
unfolding find_walk lower_locked
find_levels zero tid key pred succ s = done (false, pred, succ, s)
find_levels (suc level) tid key pred succ s =
    let round : Run (Bool × ℕ × Option ℕ × LockList) = do
      s₁ ← lower_locked pred level (count_path tid s)
      let below : Option ℕ → LockList → Run (Bool × ℕ × Option ℕ × LockList) =
          find_levels level tid key pred
      let along : ℕ → Run (Bool × ℕ × Option ℕ × LockList) = λ q. do
        s₂ ← lower_locked q level s₁
        (pred', succ', s₃) ← find_walk (key + 1) tid key level pred (some q) s₂
        let rest = find_levels level tid key pred' succ' s₃
        elim succ' [
          | none ↦ rest
          | some r ↦
              if key == (s₃.list.nodes r).key
              then done (
                true,
                pred',
                some r,
                record s₃ { contains = upd s₃.contains r (s₃.contains r + 1) },
              )
              else rest
        ]
      elim ((s₁.list.nodes pred).next level) [ none ↦ below none s₁ | some q ↦ along q ]
    in if leb s.list.zero_level level then round else done (false, pred, succ, s)

unfoldable pub find : ℕ → ℕ → LockList → Run (Bool × ℕ × Option ℕ × LockList)
unfolding find_levels
find tid key s = find_levels s.list.highest tid key head ((s.list.nodes head).next s.list.highest) s
