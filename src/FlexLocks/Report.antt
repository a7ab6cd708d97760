-- ===== src/FlexLocks/Report.antt =====
-- The checks and reports of a whole list: `validate`, `getPairsKeyHeight` and `getPairsKeyContains`.
use splaylist.Base.{
  ℕ, zero, suc, ◌+◌, ◌-◌, ◌/◌, ◌^◌, Bool, true, false, ◌||◌, not, Option, none, some, ltb, leb,
  ◌==◌, if◌then◌else◌, List, [], ◌∷◌,
}
use splaylist.Base.Int.{ℤ, pos, ◌+ℤ◌, ◌-ℤ◌, ltb_ℤ}
use splaylist.Base.Run.{Run, done, stuck, ◌>>=◌}
use splaylist.FlexSeq.State.{FlexList, head, tail, get_hits}
use splaylist.FlexLocks.Shared.{LockList}

-- The node behind `p` at level `h`, by the link at its own lowest level where that is higher.
abbrev pub next_at : ℕ → ℕ → FlexList ℕ → Option ℕ
next_at h p l =
    (l.nodes p).next (if ltb h (l.nodes p).zero_level then (l.nodes p).zero_level else h)

-- `a != b`
abbrev pub differ_ℤ : ℤ → ℤ → Bool
differ_ℤ a b = ltb_ℤ a b || ltb_ℤ b a

-- What `validate` refuses at a node: the sums of the hits, the condition to rise, and the levels.
unfoldable pub is_bad : ℕ → ℕ → ℤ → ℤ → FlexList ℕ → Bool
is_bad h cur sum val l =
    let n = l.nodes cur in
    (if ltb h n.top_level
      then differ_ℤ sum val
      else ltb_ℤ (pos (l.access_counter / 2 ^ (l.highest - 1 - h - 1))) (val -ℤ sum))
    || ltb n.top_level h
    || ltb n.top_level n.zero_level

-- The loop of `validate` along level `h`, with `sum` and `val`; the keys grow along it, so no more than
-- `size` rounds are made. What it prints before it returns false is left out, and that printing may end
-- the program.
unfoldable pub validate_walk : ℕ → ℕ → ℕ → ℤ → ℤ → FlexList ℕ → Run Bool
unfolding is_bad get_hits
validate_walk zero h cur sum val l = stuck
validate_walk (suc fuel) h cur sum val l =
    let higher = ltb h (l.nodes cur).top_level in
    let val' = if higher then get_hits cur (h + 1) l else val in
    let sum' = (if higher then pos 0 else sum) +ℤ get_hits cur h l in
    let along : ℕ → Run Bool = λ q.
      let rest = validate_walk fuel h q sum' val' l in
      if leb (l.nodes q).key (l.nodes cur).key then done false else rest in
    if cur == tail
    then done (not (differ_ℤ sum val))
    else if is_bad h cur sum val l
    then done false
    else elim (next_at h cur l) [ none ↦ done false | some q ↦ along q ]

-- The first argument counts the levels left from `h` upwards.
unfoldable pub validate_levels : ℕ → ℕ → FlexList ℕ → Run Bool
unfolding validate_walk
validate_levels zero h l = done true
validate_levels (suc n) h l = do
  good ← validate_walk l.size h head (pos 0) (pos 0) l
  let rest = validate_levels n (h + 1) l
  if good then rest else done false

unfoldable pub validate : LockList → Run Bool
unfolding validate_levels
validate s = let l = s.list in validate_levels (l.highest - 1 - l.zero_level) l.zero_level l

-- The nodes from `cur` to `tail` along level `h`, less `head`, with what `f` says of each.
unfoldable pub pairs_walk : ℕ → (ℕ → ℕ) → ℕ → ℕ → FlexList ℕ → Run (List (ℕ × ℕ))
pairs_walk zero f h cur l = stuck
pairs_walk (suc fuel) f h cur l =
    let along : Run (List (ℕ × ℕ)) = elim (next_at h cur l) [
      | none ↦ stuck
      | some q ↦ do
        rest ← pairs_walk fuel f h q l
        done (if cur == head then rest else ((l.nodes cur).key, f cur) ∷ rest)
    ] in
    if cur == tail then done [] else along

unfoldable pub get_pairs_key_height : LockList → Run (List (ℕ × ℕ))
unfolding pairs_walk
get_pairs_key_height s =
    let l = s.list in
    pairs_walk l.size (λ p. (l.nodes p).top_level - l.zero_level + 1) l.zero_level head l

unfoldable pub get_pairs_key_contains : LockList → Run (List (ℕ × ℕ))
unfolding pairs_walk
get_pairs_key_contains s = let l = s.list in pairs_walk l.size s.contains l.zero_level head l
