-- ===== src/FlexLocks/Levels.antt =====
-- `update` on a linked list whose locks are free.
use native.Mathlib.Nat.{le_trans}
use splaylist.Base.{
  ℕ, zero, suc, ◌+◌, ◌≤◌, ◌<◌, ◌≡◌, ◌≢◌, ◌∙◌, refl, sym, ap, true, false, ◌||◌, ◌&&◌, arith, ◌==◌,
  ltb, leb, Bool-cases, inl, inr, ne→==,
}
use splaylist.Base.Run.{
  Returns, returns, Returns-bind, Ensures, ensures, Ensures-bind, Ensures-bind_Returns,
  Ensures-mono,
}
use splaylist.FlexSeq.State.{FlexList, head, tail, upd}
use splaylist.FlexSeq.Update.{count_hit}
use splaylist.FlexSeq.View.{View, StandsFor, Follows, IsLinked}
use splaylist.FlexSeq.View.Lowering.{lower_to-Lowered}
use splaylist.FlexSeq.View.Steps.{
  Counted, Counted-StandsFor, set_hits-Counted, count_hit-Counted, zero_shown, highest_shown,
}
use splaylist.FlexSeq.View.Rising.{Same}
use splaylist.FlexSeq.View.Level.{next_of}
use splaylist.FlexSeq.View.Updating.{
  Updated, Updated-refl, Updated-Same, From, From-below, From-walked, at_start,
}
use splaylist.FlexLocks.Shared.{LockList, on_list, release_lock}
use splaylist.FlexLocks.Walk.{Count, walk_level}
use splaylist.FlexLocks.Update.{
  add_hit, release_other, start_update, enter_level, update_levels, update,
}
use splaylist.FlexLocks.Held.{
  Holds, AreFree, acquire_lock_free, lower_locked-LoweredHere, Returns-run_list, release_other_held,
  release_last,
}
use splaylist.FlexLocks.Rounds.{Walks, walk_level-Walks, end_held}
use splaylist.FlexLocks.Held.{or_false}
use splaylist.FlexLocks.Branches.{plain}

pub add_hit-StandsFor :
    (v : View ℕ) (p h : ℕ) (l : FlexList ℕ) → StandsFor v l → StandsFor v (add_hit p h l)
unfolding add_hit
add_hit-StandsFor v p h l st = Counted-StandsFor v l (add_hit p h l) (set_hits-Counted p h _ l) st

-- The first lock is taken.
pub first_taken : (p : ℕ) (s : LockList) → AreFree s → (j : ℕ) → upd s.lock p true j ≡ (j == p)
first_taken p s free j = elim (Bool-cases (j == p)) [ inl e ↦ rw e refl | inr n ↦ rw n (free j) ]

-- At the start of an update the lock of `head` is held.
pub start_update-Started :
    (v : View ℕ) (s : LockList)
    → StandsFor v s.list
    → AreFree s
    → Returns (λ s'. StandsFor v s'.list × Holds (λ j. j == head) s') (start_update s)
unfolding start_update
start_update-Started v s st free =
    let l = record (s.list) { access_counter = s.list.access_counter + 1 } in
    let st₁ : StandsFor v l = record { shown = st.shown; levels = st.levels } in
    rw (acquire_lock_free head s (free head))
      (returns (add_hit-StandsFor v head l.highest l st₁, first_taken head s free))

-- All levels are to do, from `head`.
pub From-head :
    (v : View ℕ) (key : ℕ) (s : LockList)
    → IsLinked v
    → StandsFor v s.list
    → v.key head ≤ key
    → key < v.key tail
    → From v key s.list.highest head
From-head v key s linked st above below =
    let top = highest_shown v s.list st in
    record {
      linked = linked;
      inner = omega arith;
      below = below;
      live = omega (arith, linked.sized);
      before = above;
      wide = omega (arith, linked.head_top);
    }

-- `cur` follows `pred` at the level, and both have their links there.
pub record Entered (v : View ℕ) (h pred cur : ℕ) (s : LockList) : Type 0 where
  pub stands : StandsFor v s.list
  pub follows : Follows v h pred cur
  pub zero : (s.list.nodes pred).zero_level ≤ h
  pub held : Holds (λ j. j == pred) s

pub enter_level-Entered :
    (v : View ℕ) (key h pred : ℕ) (s : LockList)
    → From v key (suc h) pred
    → StandsFor v s.list
    → v.zero_level ≤ h
    → Holds (λ j. j == pred) s
    → Returns (λ (cur, s'). Entered v h pred cur s') (enter_level h pred s)
unfolding enter_level
enter_level-Entered v key h pred s f st low held =
    Returns-run_list s _ (lower_to-Lowered v pred h s.list st low f.live) λ l l₁.
      let s₁ : LockList = record s { list = l } in
      let (cur, e, fc) =
        next_of v l pred h f.linked l₁.stands f.live (omega (arith, f.below, f.before)) low
          (omega (arith, f.wide)) l₁.reached in
      let other : cur ≢ pred = λ same. absurd (omega (arith, fc.above, ap v.key same)) in
      rw e (
        Returns-bind
          (lower_locked-LoweredHere v cur h s₁ l₁.stands low fc.live
            (held cur ∙ ne→== cur pred other))
          λ s₂ l₂. returns (record {
            stands = record { shown = l₂.lowered.stands.shown; levels = l₂.lowered.stands.levels };
            follows = fc;
            zero = le_trans (l₂.lowered.kept pred) l₁.reached;
            held = λ j. l₂.locks j ∙ held j;
          }))

-- The walk along a level starts with one lock.
pub at_start-held :
    (key cur pred : ℕ) (s : LockList)
    → ltb key (s.list.nodes cur).key ≡ false
    → Holds (λ j. j == pred) s
    → (j : ℕ) → s.lock j ≡ ((j == pred) || (ltb key (s.list.nodes cur).key && (j == pred)))
at_start-held key cur pred s along held j = held j ∙ sym (or_false (j == pred)) ∙ rw along refl

-- All locks are free, and the list stands for a linked view with the contents of `v`.
pub record Settled (v : View ℕ) (s : LockList) : Type 0 where
  pub free : AreFree s
  pub updated : Updated v s.list

settle :
    (v : View ℕ) (pred : ℕ) (s : LockList)
    → IsLinked v
    → StandsFor v s.list
    → Holds (λ j. j == pred) s
    → Settled v (release_lock pred s)
unfolding release_lock
settle v pred s linked st held = record {
  free = release_last pred s held;
  updated = Updated-refl v s.list linked st;
}

Settled-Same : (v w : View ℕ) (s : LockList) → Same v w → Settled w s → Settled v s
Settled-Same v w s same u = record {
  free = u.free;
  updated = Updated-Same v w s.list same u.updated;
}

-- The walk along a level, from a node that `enter_level` has come to.
pub along-Walks :
    (count : Count) (counts : (key h cur : ℕ) (l : FlexList ℕ) → Counted l (count key h cur l))
    (v : View ℕ) (key h pred cur : ℕ) (s : LockList)
    → From v key (suc h) pred
    → v.zero_level ≤ h
    → Entered v h pred cur s
    → ltb key (s.list.nodes cur).key ≡ false
    → Ensures (Walks count counts v key h false) (
        walk_level count
          (key + 1)
          key
          h
          (record { ok = false; predpred = pred; pred = pred; cur = cur; state = s }))
along-Walks count counts v key h pred cur s f low en along =
    walk_level-Walks count counts (key + 1) v key h _
      (at_start v key h pred cur s.list f en.stands low en.follows en.zero)
      (at_start-held key cur pred s along en.held) (omega arith) (omega (arith, en.follows.above))

update_levels-Settled :
    (n : ℕ) (v : View ℕ) (key pred : ℕ) (s : LockList)
    → From v key n pred
    → StandsFor v s.list
    → Holds (λ j. j == pred) s
    → Ensures (Settled v) (update_levels n key pred s)
unfolding update_levels
update_levels-Settled zero v key pred s f st held = ensures (settle v pred s f.linked st held)
update_levels-Settled (suc h) v key pred s f st held =
    let z = zero_shown v s.list st in
    elim (Bool-cases (leb s.list.zero_level h)) [
      | inr end ↦ rw end (ensures (settle v pred s f.linked st held))
      | inl go ↦
          let low : v.zero_level ≤ h = ground arith in
          rw go (
            Ensures-bind_Returns (enter_level-Entered v key h pred s f st low held) λ (cur, s₁) en.
              elim (Bool-cases (ltb key (s₁.list.nodes cur).key)) [
                | inl above ↦ rw above (
                    update_levels-Settled h v key pred (on_list (add_hit pred h) s₁)
                      (From-below v key h pred f) (add_hit-StandsFor v pred h s₁.list en.stands)
                      en.held)
                | inr along ↦ rw along (
                    Ensures-bind
                      (along-Walks count_hit count_hit-Counted v key h pred cur s₁ f low en along)
                      λ p (held', e, kept).
                        let w = e.walking in
                        let s₂ = release_other p.predpred p.pred p.state in
                        let held₂ =
                          release_other_held p.predpred p.pred p.state (
                            end_held count_hit count_hit-Counted v key h false p
                              (held', e, kept)) in
                        elim (Bool-cases p.ok) [
                          | inl yes_ok ↦ rw yes_ok (
                              ensures (
                                Settled-Same v e.after (release_lock p.pred s₂) e.same
                                  (settle e.after p.pred s₂ w.linked w.stands held₂)))
                          | inr no_ok ↦ rw no_ok (
                              Ensures-mono
                                (update_levels-Settled h e.after key p.pred s₂
                                  (From-walked e.after key h (plain p) w) w.stands held₂)
                                λ s' u. Settled-Same v e.after s' e.same u)
                        ])
              ])
    ]

pub update-Settled :
    (v : View ℕ) (key : ℕ) (s : LockList)
    → IsLinked v
    → StandsFor v s.list
    → AreFree s
    → v.key head ≤ key
    → key < v.key tail
    → Ensures (Settled v) (update key s)
unfolding update
update-Settled v key s linked st free above below =
    Ensures-bind_Returns (start_update-Started v s st free) λ s₁ (st₁, held).
      update_levels-Settled s₁.list.highest v key head s₁
        (From-head v key s₁ linked st₁ above below) st₁ held
