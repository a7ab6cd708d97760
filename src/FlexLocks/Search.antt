-- ===== src/FlexLocks/Search.antt =====
-- `find` on a linked list whose locks are free.
use mathlib.Core.Path.{subst}
use native.Mathlib.Nat.{le_trans}
use splaylist.Base.{
  ℕ, zero, suc, ◌+◌, ◌≤◌, ◌<◌, ◌≡◌, ◌≢◌, ◌∙◌, refl, ap, sym, Bool, true, false, Option, none, some,
  arith, ◌==◌, ltb, leb, if◌then◌else◌, Bool-cases, inl, inr, ltb→lt, ltb→le, ==→eq, ==→ne,
}
use splaylist.Base.Run.{Run, done, Returns, returns, Returns-bind}
use splaylist.FlexSeq.State.{head, tail, upd}
use splaylist.FlexSeq.View.{View, StandsFor, IsLinked}
use splaylist.FlexSeq.View.Search.{Between, Stops, read_link, key_shown}
use splaylist.FlexSeq.View.Steps.{zero_shown, highest_shown}
use splaylist.FlexLocks.Shared.{LockList}
use splaylist.FlexLocks.Find.{find_walk, find_levels, find, count_path}
use splaylist.FlexLocks.Held.{AreFree, lower_locked-LoweredHere}

-- The search stops at a level between two nodes, with no lock held.
abbrev StopsAt : View ℕ → ℕ → ℕ → ℕ × Option ℕ × LockList → Type 0
StopsAt v key level (pred, succ, s) =
    AreFree s × ((q : ℕ) × (succ ≡ some q) × Stops v key level (pred, q, s.list))

module _ (v : View ℕ) (linked : IsLinked v) (tid key : ℕ) (below : key ≤ v.key tail) where
  -- What a search answers: the node with the key, or that there is none; and no lock is held.
  pub record Answer (found : Bool) (pred : ℕ) (succ : Option ℕ) (s : LockList) : Type 0 where
    pub stands : StandsFor v s.list
    pub free : AreFree s
    pub present : found ≡ true → (q : ℕ) × (succ ≡ some q) × (q < v.size) × (v.key q ≡ key)
    pub absent : found ≡ false → (r : ℕ) → r < v.size → v.key r ≢ key

  abbrev pub Answered : Bool × ℕ × Option ℕ × LockList → Type 0
  Answered (found, pred, succ, s) = Answer found pred succ s

  find_walk-StopsAt :
      (fuel level pred succ : ℕ) (s : LockList)
      → StandsFor v s.list
      → AreFree s
      → v.zero_level ≤ level
      → Between v key level pred succ
      → (s.list.nodes pred).zero_level ≤ level
      → (s.list.nodes succ).zero_level ≤ level
      → 0 < fuel
      → key < v.key succ + fuel
      → Returns (StopsAt v key level) (find_walk fuel tid key level pred (some succ) s)
  unfolding find_walk
  find_walk-StopsAt zero level pred succ s st fr le b zp zs pos fuel = absurd (omega arith)
  find_walk-StopsAt (suc f) level pred succ s st fr le b zp zs pos fuel =
      let k = key_shown v s.list succ st in
      elim (Bool-cases (ltb (s.list.nodes succ).key key)) [
        | inl more ↦
            let lt = ltb→lt (s.list.nodes succ).key key more in
            let (q, e, fq) =
              linked.links succ level b.follows.live (omega arith) le b.follows.reaches in
            let s₁ = count_path tid s in
            let grows = fq.above in
            rw (more, read_link v s.list succ level q st zs e)
              (Returns-bind (lower_locked-LoweredHere v q level s₁ st le fq.live (fr q)) λ s₂ w.
                let kept = w.lowered.kept succ in
                find_walk-StopsAt f level succ q s₂ w.lowered.stands (λ j. w.locks j ∙ fr j) le
                  (record {
                    live = b.follows.live;
                    before = omega arith;
                    wide = b.follows.reaches;
                    follows = fq;
                  })
                  (omega arith) w.lowered.reached (omega arith) (omega arith))
        | inr stop ↦ rw stop (
            returns (
              fr,
              (succ, refl, (st, b, omega (arith, ltb→le (s.list.nodes succ).key key stop), zp, zs)),
            ))
      ]

  -- No node has the key if it lies strictly between two nodes that are linked at the lowest level.
  gap-absent :
      (pred q : ℕ)
      → Between v key v.zero_level pred q
      → key < v.key q
      → (r : ℕ) → r < v.size
      → v.key r ≢ key
  gap-absent pred q b lt r live same =
      absurd (omega (arith, b.follows.least r live (omega (arith, b.before)) (linked.low r live)))

  find_levels_end :
      (n pred : ℕ) (succ : Option ℕ) (s : LockList)
      → n ≤ s.list.zero_level
      → find_levels n tid key pred succ s ≡ done (false, pred, succ, s)
  unfolding find_levels
  find_levels_end zero pred succ s le = refl
  find_levels_end (suc l) pred succ s le =
      let stop : leb s.list.zero_level l ≡ false = ground arith in rw stop refl

  -- What a level does once the walk along it has stopped.
  abbrev level_end : ℕ → ℕ → Option ℕ → LockList → Run (Bool × ℕ × Option ℕ × LockList)
  level_end level pred succ s =
      let rest = find_levels level tid key pred succ s in
      elim succ [
        | none ↦ rest
        | some r ↦
            if key == (s.list.nodes r).key
            then done
                (true, pred, some r, record s { contains = upd s.contains r (s.contains r + 1) })
            else rest
      ]

  level_end-Answered :
      (level pred : ℕ) (succ : Option ℕ) (s : LockList)
      → StopsAt v key level (pred, succ, s)
      → v.zero_level ≤ level
      → (v.zero_level < level → Returns Answered (find_levels level tid key pred succ s))
      → Returns Answered (level_end level pred succ s)
  level_end-Answered level pred none s (fr, (q, at, (st, b, le, zp, zs))) down rest = absurd cc
  level_end-Answered level pred (some r) s (fr, (q, at, (st, b, le, zp, zs))) down rest =
      let same : q ≡ r = cc in
      let k : (s.list.nodes r).key ≡ v.key q = key_shown v s.list r st ∙ sym (ap v.key same) in
      elim (Bool-cases (key == (s.list.nodes r).key)) [
        | inl hit ↦ rw hit (
            returns (record {
              stands = st;
              free = fr;
              present = λ _. (
                r,
                refl,
                omega (arith, b.follows.live),
                omega (arith, ==→eq key (s.list.nodes r).key hit, key_shown v s.list r st),
              );
              absent = λ n. absurd cc;
            }))
        | inr other ↦ elim (Bool-cases (ltb v.zero_level level)) [
          | inl more ↦ rw other (rest (ltb→lt v.zero_level level more))
          | inr last ↦
              let bottom : level ≡ v.zero_level = omega (arith, ltb→le v.zero_level level last) in
              let lt : key < v.key q = omega (arith, ==→ne key (s.list.nodes r).key other) in
              let low = zero_shown v s.list st in
              rw (other, find_levels_end level pred (some r) s (omega arith))
                (returns (record {
                  stands = st;
                  free = fr;
                  present = λ n. absurd cc;
                  absent = λ _. gap-absent pred q (subst (λ l. Between v key l pred q) bottom b) lt;
                }))
        ]
      ]

  find_levels-Answered :
      (n pred : ℕ) (succ : Option ℕ) (s : LockList)
      → StandsFor v s.list
      → AreFree s
      → v.zero_level < n
      → pred < v.size
      → v.key pred < key
      → n ≤ suc (v.top pred)
      → Returns Answered (find_levels n tid key pred succ s)
  unfolding find_levels
  find_levels-Answered zero pred succ s st fr le live lt wide = absurd (omega arith)
  find_levels-Answered (suc level) pred succ s st fr le live lt wide =
      let z = zero_shown v s.list st in
      let go : leb s.list.zero_level level ≡ true = ground arith in
      let (q, e, fq) = linked.links pred level live (omega arith) (omega arith) (omega arith) in
      rw go (
        Returns-bind
          (lower_locked-LoweredHere v pred level (count_path tid s) st (omega arith) live (fr pred))
          λ s₁ w₁. rw (read_link v s₁.list pred level q w₁.lowered.stands w₁.lowered.reached e) (
            Returns-bind
              (lower_locked-LoweredHere v q level s₁ w₁.lowered.stands (omega arith) fq.live
                (w₁.locks q ∙ fr q))
              λ s₂ w₂.
                Returns-bind
                  (find_walk-StopsAt (key + 1) level pred q s₂ w₂.lowered.stands
                    (λ j. w₂.locks j ∙ w₁.locks j ∙ fr j) (omega arith)
                    (record { live = live; before = lt; wide = omega arith; follows = fq })
                    (le_trans (w₂.lowered.kept pred) w₁.lowered.reached) w₂.lowered.reached
                    (omega arith) (omega arith))
                  λ (pred', succ', s₃) (fr₃, (q', at, stops)).
                    level_end-Answered level pred' succ' s₃ (fr₃, (q', at, stops)) (omega arith)
                      λ more.
                        find_levels-Answered level pred' succ' s₃ stops.0 fr₃ more stops.1.live
                          stops.1.before (omega (arith, stops.1.wide))))

  -- On a list that stands for a linked view, with all locks free, `find` of a key above that of `head` and
  -- at most that of `tail` returns. It answers true with the node that has the key, and false only if no
  -- node has the key; what the list stands for is kept, and all locks are free again.
  pub locked_find-Answered :
      (s : LockList)
      → StandsFor v s.list
      → AreFree s
      → v.key head < key
      → Returns Answered (find tid key s)
  unfolding find
  locked_find-Answered s st fr lt =
      let top = highest_shown v s.list st in
      find_levels-Answered s.list.highest head ((s.list.nodes head).next s.list.highest) s st fr
        (omega (arith, linked.shallow)) (omega (arith, linked.sized)) lt
        (omega (arith, linked.head_top))
