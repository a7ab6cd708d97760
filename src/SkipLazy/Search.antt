-- ===== src/SkipLazy/Search.antt =====
-- The searches: down the levels, and at each level along the links while the keys are below the key.
use splaylist.Base.{
  ℕ, zero, suc, ◌+◌, Bool, true, false, not, ◌&&◌, Option, none, some, ltb, ◌==◌, if◌then◌else◌,
}
use splaylist.Base.Memory.{upd}
use splaylist.Base.Run.{Run, done, stuck, ◌>>=◌}
use splaylist.SkipLazy.State.{SkipList, max_level, null, head, read_next, count_step}

-- `while (key > curr->key)` in the public searches, which count the steps of the thread; the keys along
-- the links grow, so `key + 1` rounds are enough.
unfoldable pub walk_counted : ℕ → ℕ → ℕ → ℕ → ℕ → ℕ → SkipList → Run (ℕ × ℕ × SkipList)
walk_counted zero tid key level pred curr s = stuck
walk_counted (suc fuel) tid key level pred curr s =
    let rest : Run (ℕ × ℕ × SkipList) = do
      let s₁ = count_step tid s
      q ← read_next curr level s₁
      walk_counted fuel tid key level curr q s₁
    in if ltb (s.nodes.key curr) key then rest else done (pred, curr, s)

-- The levels below the first argument. The result is the node with the key, or none.
unfoldable pub search_levels : ℕ → ℕ → ℕ → ℕ → SkipList → Run (Option ℕ × SkipList)
unfolding walk_counted
search_levels zero tid key pred s = done (none, s)
search_levels (suc level) tid key pred s = do
  (pred', curr, s₁) ← walk_counted (key + 1) tid key level pred pred s
  let rest = search_levels level tid key pred' s₁
  if key == s₁.nodes.key curr then done (some curr, s₁) else rest

-- The node can be seen by the public searches.
abbrev pub is_visible : ℕ → SkipList → Bool
is_visible p s = s.nodes.fully_linked p && not (s.nodes.mark p)

unfoldable pub contains : ℕ → ℕ → SkipList → Run (Bool × SkipList)
contains tid key s = do
  (o, s₁) ← search_levels (s.real_max_lvl + 1) tid key head s
  done (elim o [ none ↦ (false, s₁) | some p ↦ (is_visible p s₁, s₁) ])

unfoldable pub find : ℕ → ℕ → SkipList → Run (ℕ × SkipList)
find tid key s = do
  (o, s₁) ← search_levels (s.real_max_lvl + 1) tid key head s
  done (elim o [
    | none ↦ (null, s₁)
    | some p ↦ (if is_visible p s₁ then s₁.nodes.value p else null, s₁)
  ])

-- The same loop in the private `find`, which counts nothing.
unfoldable pub walk : ℕ → ℕ → ℕ → ℕ → ℕ → SkipList → Run (ℕ × ℕ)
walk zero key level pred curr s = stuck
walk (suc fuel) key level pred curr s =
    let rest : Run (ℕ × ℕ) = (do q ← read_next curr level s; walk fuel key level curr q s) in
    if ltb (s.nodes.key curr) key then rest else done (pred, curr)

-- What the private `find` returns and writes: `first` (none for -1) and `second` of the pair, and the
-- arrays `preds` and `succs`.
pub record Places : Type 0 where
  pub flevel : Option ℕ
  pub val : ℕ
  pub preds : ℕ → ℕ
  pub succs : ℕ → ℕ

-- `if (key == curr->key && flevel == -1)`, and the writes to the arrays
abbrev pub place : ℕ → ℕ → ℕ → ℕ → Places → SkipList → Places
place key level pred curr r s =
    let hit = key == s.nodes.key curr && (elim r.flevel [ none ↦ true | some f ↦ false ]) in
    record {
      flevel = if hit then some level else r.flevel;
      val = if hit then s.nodes.value curr else r.val;
      preds = upd r.preds level pred;
      succs = upd r.succs level curr;
    }

unfoldable pub find_levels : ℕ → ℕ → ℕ → Places → SkipList → Run Places
unfolding walk
find_levels zero key pred r s = done r
find_levels (suc level) key pred r s = do
  (pred', curr) ← walk (key + 1) key level pred pred s
  find_levels level key pred' (place key level pred' curr r s) s

-- Every entry of the arrays is written before it is read.
abbrev pub no_places : Places
no_places = record { flevel = none; val = null; preds = λ i. head; succs = λ i. head }

unfoldable pub find_max : ℕ → ℕ → SkipList → Run Places
find_max max key s = find_levels (max + 1) key head no_places s

unfoldable pub find_all : ℕ → SkipList → Run Places
find_all key s = find_max max_level key s
