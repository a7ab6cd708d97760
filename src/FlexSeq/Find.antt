-- ===== src/FlexSeq/Find.antt =====
-- `find`: down the levels, and at each level along the links while the keys are below the key sought.
use splaylist.Base.{
  ℕ, zero, suc, ◌+◌, Bool, true, false, Option, none, some, ltb, leb, ◌==◌, if◌then◌else◌,
}
use splaylist.Base.Run.{Run, done, stuck, ◌>>=◌}
use splaylist.FlexSeq.State.{FlexList, head, read_next, lower_to}

module _ {ℓ} {V : Type ℓ} where
  -- `while (key > succ->key)`; the keys along the links grow, so `key` rounds are enough.
  unfoldable pub find_walk : ℕ → ℕ → ℕ → ℕ → ℕ → FlexList V → Run (ℕ × ℕ × FlexList V)
  unfolding lower_to
  find_walk zero key level pred succ s = stuck
  find_walk (suc fuel) key level pred succ s =
      let rest : Run (ℕ × ℕ × FlexList V) = do
        let s₁ = record s { path_lengths = s.path_lengths + 1 }
        q ← read_next succ level s₁
        s₂ ← lower_to q level s₁
        find_walk fuel key level succ q s₂
      in if ltb (s.nodes succ).key key then rest else done (pred, succ, s)

  -- The levels below the first argument. The result has the values that `find` gives to `pred` and
  -- `succ`.
  unfoldable pub find_levels :
      ℕ → ℕ → ℕ → Option ℕ → FlexList V → Run (Bool × ℕ × Option ℕ × FlexList V)
  unfolding find_walk lower_to
  find_levels zero key pred succ s = done (false, pred, succ, s)
  find_levels (suc level) key pred succ s =
      let round : Run (Bool × ℕ × Option ℕ × FlexList V) = do
        s₁ ← lower_to pred level (record s { path_lengths = s.path_lengths + 1 })
        q ← read_next pred level s₁
        s₂ ← lower_to q level s₁
        (pred', succ', s₃) ← find_walk (key + 1) key level pred q s₂
        let rest = find_levels level key pred' (some succ') s₃
        if key == (s₃.nodes succ').key then done (true, pred', some succ', s₃) else rest
      in if leb s.zero_level level then round else done (false, pred, succ, s)

  unfoldable pub find : ℕ → FlexList V → Run (Bool × ℕ × Option ℕ × FlexList V)
  unfolding find_levels
  find key s = find_levels s.highest key head none s
