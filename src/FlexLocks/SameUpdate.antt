-- ===== src/FlexLocks/SameUpdate.antt =====
-- `update` with and without the locks leaves the same list.
use splaylist.Base.Int.{pos, ◌+ℤ◌}
use splaylist.Base.{
  ℕ, zero, suc, ◌+◌, ◌≤◌, ◌<◌, ◌≡◌, ◌≢◌, ◌∙◌, ap, true, false, ◌||◌, ◌&&◌, arith, ◌==◌, ltb, leb,
  if◌then◌else◌, Bool-cases, inl, inr, ne→==,
}
use splaylist.Base.Run.{
  Run, done, ◌>>=◌, Returns, returns, Shadows, both_done, Shadows-bind_Ensures, Matches,
  Shadows-Matches,
}
use splaylist.FlexSeq.State.{FlexList, set_hits, head, tail, upd, read_next, lower_to}
use splaylist.FlexSeq.Update.{count_hit, may_rise, links_to, may_fall}
use splaylist.FlexSeq.Update
use splaylist.FlexSeq.View.{View, StandsFor, IsLinked}
use splaylist.FlexSeq.View.Lowering.{lower_to-Lowered}
use splaylist.FlexSeq.View.Search.{key_shown}
use splaylist.FlexSeq.View.Level.{next_of}
use splaylist.FlexLocks.Shared.{LockList, release_lock}
use splaylist.FlexLocks.Walk.{count_step}
use splaylist.FlexLocks.Held.{Holds, acquire_lock_free}
use splaylist.FlexLocks.Branches.{plain}
use native.Mathlib.Nat.{le_trans}
use splaylist.FlexSeq.View.Steps.{zero_shown}
use splaylist.FlexSeq.View.Updating.{
  From, From-below, From-walked, at_start, Updated, update-Updated,
}
use splaylist.FlexLocks.Shared.{on_list}
use splaylist.FlexLocks.Update.{
  add_hit, release_other, enter_level, update_levels, start_update, update,
}
use splaylist.FlexLocks.Held.{AreFree, release_other_held, release_last}
use splaylist.FlexLocks.Levels.{first_taken, Entered, add_hit-StandsFor, at_start-held, From-head}
use splaylist.FlexSeq.View.Round.{walk_level-Walked}
use splaylist.FlexLocks.Agrees.{lower_both, walk_level-Shadows}

module _ {ℓ κ μ ν π} {A : Type ℓ} {B : Type μ} {C : Type π} {erase : A → B}
    {P : FlexList ℕ → Type κ} {R : A → Type ν} (s : LockList) (k : LockList → Run C)
    (k' : FlexList ℕ → Run B) (then_do : C → Run A) where
  -- A step on the list, what follows it, and what follows that.
  Shadows-run_list_Returns :
      {m : Run (FlexList ℕ)}
      → Returns P m
      → ((l : FlexList ℕ) → P l → Shadows erase R (k (record s { list = l }) >>= then_do) (k' l))
      → Shadows erase R (((m >>= λ l. done (record s { list = l })) >>= k) >>= then_do) (m >>= k')
  Shadows-run_list_Returns (returns p) next = next _ p

-- The start of a level.
enter_level-Shadows :
    (then_do : ℕ × LockList → Run LockList) (after : ℕ → FlexList ℕ → Run (FlexList ℕ)) (v : View ℕ)
    (key h pred : ℕ) (s : LockList)
    → From v key (suc h) pred
    → StandsFor v s.list
    → v.zero_level ≤ h
    → Holds (λ j. j == pred) s
    → ((cur : ℕ) (s' : LockList)
        → Entered v h pred cur s'
        → Shadows (λ (r : LockList). r.list) AreFree (then_do (cur, s')) (after cur (s'.list)))
    → Shadows
        (λ (r : LockList). r.list)
        AreFree
        (enter_level h pred s >>= then_do)
        (lower_to pred h s.list >>= λ l₁. read_next pred h l₁ >>= λ cur.
          lower_to cur h l₁ >>= λ l₂. after cur (record l₂ { sum_lengths = l₂.sum_lengths + 1 }))
unfolding enter_level
enter_level-Shadows then_do after v key h pred s f st low held next =
    Shadows-run_list_Returns s _ _ then_do (lower_to-Lowered v pred h s.list st low f.live) λ l l₁.
      let s₁ : LockList = record s { list = l } in
      let (cur, e, fc) =
        next_of v l pred h f.linked l₁.stands f.live (omega (arith, f.below, f.before)) low
          (omega (arith, f.wide)) l₁.reached in
      let other : cur ≢ pred = λ same. absurd (omega (arith, fc.above, ap v.key same)) in
      let (s₂, locked, unlocked, l₂) =
        lower_both v cur h s₁ l₁.stands low fc.live (held cur ∙ ne→== cur pred other) in
      rw (e, locked, unlocked)
        (next cur (count_step s₂) (record {
          stands = record { shown = l₂.lowered.stands.shown; levels = l₂.lowered.stands.levels };
          follows = fc;
          zero = le_trans (l₂.lowered.kept pred) l₁.reached;
          held = λ j. l₂.locks j ∙ held j;
        }))

-- A level of the list without locks, once it is entered.
abbrev plain_level : ℕ → ℕ → ℕ → ℕ → FlexList ℕ → Run (FlexList ℕ)
plain_level h key pred cur l =
    let above =
      splaylist.FlexSeq.Update.update_levels h key pred
        (set_hits pred h ((l.nodes pred).hits h +ℤ pos 1) l) in
    let along : Run (FlexList ℕ) = do
      p ←
          splaylist.FlexSeq.Update.walk_level (key + 1) key h
            (record { ok = false; predpred = pred; pred = pred; cur = cur; list = l })
      let rest = splaylist.FlexSeq.Update.update_levels h key p.pred p.list
      if p.ok then done (p.list) else rest
    in if ltb key (l.nodes cur).key then above else along

update_levels-Shadows :
    (n : ℕ) (v : View ℕ) (key pred : ℕ) (s : LockList)
    → From v key n pred
    → StandsFor v s.list
    → Holds (λ j. j == pred) s
    → Shadows
        (λ (r : LockList). r.list)
        AreFree
        (update_levels n key pred s)
        (splaylist.FlexSeq.Update.update_levels n key pred s.list)
unfolding update_levels splaylist.FlexSeq.Update.update_levels release_lock add_hit
update_levels-Shadows zero v key pred s f st held = both_done (release_last pred s held)
update_levels-Shadows (suc h) v key pred s f st held =
    let z = zero_shown v s.list st in
    elim (Bool-cases (leb s.list.zero_level h)) [
      | inr end ↦ rw end (both_done (release_last pred s held))
      | inl go ↦
          let low : v.zero_level ≤ h = ground arith in
          rw go (
            enter_level-Shadows _ (plain_level h key pred) v key h pred s f st low held λ cur s₁ en.
              elim (Bool-cases (ltb key (s₁.list.nodes cur).key)) [
                | inl above ↦ rw above (
                    update_levels-Shadows h v key pred (on_list (add_hit pred h) s₁)
                      (From-below v key h pred f) (add_hit-StandsFor v pred h s₁.list en.stands)
                      en.held)
                | inr along ↦ rw along (
                    Shadows-bind_Ensures _
                      (walk_level-Shadows (key + 1) v key h
                        (record { ok = false; predpred = pred; pred = pred; cur = cur; state = s₁ })
                        (at_start v key h pred cur s₁.list f en.stands low en.follows en.zero)
                        (at_start-held key cur pred s₁ along en.held))
                      (walk_level-Walked (key + 1) v key h _
                        (at_start v key h pred cur s₁.list f en.stands low en.follows en.zero)
                        (omega arith) (omega (arith, en.follows.above)))
                      λ p held' e.
                        let k = key_shown e.after p.state.list p.cur e.walking.stands in
                        let past : ltb key (p.state.list.nodes p.cur).key ≡ true =
                          ground (arith, e.passed) in
                        let s₂ = release_other p.predpred p.pred p.state in
                        let held₂ =
                          release_other_held p.predpred p.pred p.state λ j.
                            held' j ∙ ap (λ b. (j == p.predpred) || (b && (j == p.pred))) past in
                        elim (Bool-cases p.ok) [
                          | inl yes_ok ↦ rw yes_ok (both_done (release_last p.pred s₂ held₂))
                          | inr no_ok ↦ rw no_ok (
                              update_levels-Shadows h e.after key p.pred s₂
                                (From-walked e.after key h (plain p) e.walking) e.walking.stands
                                held₂)
                        ])
              ])
    ]

-- The list once the lock of `head` is taken and the access counted there.
abbrev started_at : LockList → LockList
started_at s =
    let l = record (s.list) { access_counter = s.list.access_counter + 1 } in
    record s {
      list = set_hits head l.highest ((l.nodes head).hits l.highest +ℤ pos 1) l;
      lock = upd s.lock head true;
    }

started :
    (v : View ℕ) (s : LockList)
    → StandsFor v s.list
    → AreFree s
    → StandsFor v ((started_at s).list) × Holds (λ j. j == head) (started_at s)
unfolding add_hit
started v s st free =
    let l = record (s.list) { access_counter = s.list.access_counter + 1 } in
    let st₁ : StandsFor v l = record { shown = st.shown; levels = st.levels } in
    (add_hit-StandsFor v head l.highest l st₁, first_taken head s free)

update-Shadows :
    (v : View ℕ) (key : ℕ) (s : LockList)
    → IsLinked v
    → StandsFor v s.list
    → AreFree s
    → v.key head ≤ key
    → key < v.key tail
    → Shadows
        (λ (r : LockList). r.list)
        AreFree
        (update key s)
        (splaylist.FlexSeq.Update.update key s.list)
unfolding update start_update splaylist.FlexSeq.Update.update add_hit set_hits
update-Shadows v key s linked st free above below = rw (acquire_lock_free head s (free head)) (
    let (st₁, held) = started v s st free in
    update_levels-Shadows s.list.highest v key head (started_at s)
      (From-head v key (started_at s) linked st₁ above below) st₁ held)

-- On a list that stands for a linked view, with all locks free, `update` of a key from that of `head` up
-- to below that of `tail` ends as the update without locks does on the same list: both return the same
-- list, with the same counts, which stands again for a linked view with the same contents, and all locks
-- are free; or both would need a level below 0. Neither waits for a lock that is not given back, reads
-- through NULL or fails to end.
pub update-Matches :
    (v : View ℕ) (key : ℕ) (s : LockList)
    → IsLinked v
    → StandsFor v s.list
    → AreFree s
    → v.key head ≤ key
    → key < v.key tail
    → Matches
        (λ (r : LockList). r.list)
        (λ r. AreFree r × Updated v (r.list))
        (update key s)
        (splaylist.FlexSeq.Update.update key s.list)
update-Matches v key s linked st free above below =
    Shadows-Matches (update-Shadows v key s linked st free above below)
      (update-Updated v key s.list linked st above below)
