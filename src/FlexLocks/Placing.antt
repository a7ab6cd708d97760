-- ===== src/FlexLocks/Placing.antt =====
-- `updateWithInsert` of a key that no node has.
use mathlib.Core.Path.{subst}
use splaylist.Base.{
  ℕ, zero, suc, ◌≤◌, ◌<◌, ◌≡◌, ◌∙◌, refl, sym, ap, true, false, ◌||◌, ◌&&◌, not, arith, ◌==◌, ltb,
  leb, if◌then◌else◌, Bool-cases, inl, inr, ==→eq, ==→ne,
}
use splaylist.Base.Run.{
  Run, done, ◌>>=◌, Ensures, ensures, Ensures-bind, Ensures-bind_Returns, Ensures-mono,
}
use splaylist.FlexSeq.State.{FlexList, head, tail}
use splaylist.FlexSeq.View.{View, StandsFor, Follows, IsLinked}
use splaylist.FlexSeq.View.Search.{Between, key_shown}
use splaylist.FlexSeq.View.Steps.{
  Counted, set_hits-Counted, selfhits-Counted, zero_shown, highest_shown,
}
use splaylist.FlexSeq.View.Rising.{Same}
use splaylist.FlexSeq.View.Level.{Walking}
use splaylist.FlexSeq.View.Round.{Counted-refl}
use splaylist.FlexSeq.View.Updating.{Updated, Updated-Same, From, From-below, From-walked, at_start}
use splaylist.FlexSeq.Insertion.{extended}
use splaylist.FlexLocks.Shared.{LockList, on_list, release_lock}
use splaylist.FlexLocks.Walk.{Position}
use splaylist.FlexLocks.Update.{
  add_hit, count_above, release_other, insert, insert_levels, update_with_insert,
}
use splaylist.FlexLocks.Held.{Holds, AreFree, release_other_held, release_last, or_same}
use splaylist.FlexLocks.Branches.{plain}
use splaylist.FlexLocks.Rounds.{IsAbsent, end_held}
use splaylist.FlexLocks.Levels.{
  add_hit-StandsFor, start_update-Started, From-head, enter_level-Entered, along-Walks,
}
use splaylist.FlexLocks.Inserting.{insert-Updated}

count_above-Counted :
    (bottom key h cur : ℕ) (l : FlexList ℕ) → Counted l (count_above bottom key h cur l)
unfolding count_above add_hit
count_above-Counted bottom key h cur l = elim (Bool-cases ((l.nodes cur).key == key)) [
  | inl e ↦ rw e (selfhits-Counted cur _ l)
  | inr n ↦ rw n (elim (Bool-cases (h == bottom)) [
    | inl e ↦ rw e (Counted-refl l)
    | inr o ↦ rw o (set_hits-Counted cur h _ l)
  ])
]

-- The value `noValue`, with all locks free and one more node.
abbrev pub IsPlaced : View ℕ → ℕ → ℕ → ℕ × LockList → Type 0
IsPlaced v key value (x, s) = (x ≡ v.no_value) × AreFree s × Updated (extended v key value) s.list

extended-Same :
    (v w : View ℕ) (key value : ℕ) → Same v w → Same (extended v key value) (extended w key value)
extended-Same v w key value same = record {
  size = omega (arith, same.size);
  highest = same.highest;
  no_value = same.no_value;
  key = λ p.
      ap (λ n. if p == n then key else w.key p) same.size
      ∙ elim (Bool-cases (p == v.size)) [ inl e ↦ rw e refl | inr n ↦ rw n (same.key p) ];
  value = λ p.
      ap (λ n. if p == n then value else w.value p) same.size
      ∙ elim (Bool-cases (p == v.size)) [ inl e ↦ rw e refl | inr n ↦ rw n (same.value p) ];
}

IsPlaced-Same :
    (v w : View ℕ) (key value : ℕ) (r : ℕ × LockList)
    → Same v w
    → IsPlaced w key value r
    → IsPlaced v key value r
IsPlaced-Same v w key value (x, s) same (e, free, u) = (
  e ∙ same.no_value,
  free,
  Updated-Same (extended v key value) (extended w key value) s.list
      (extended-Same v w key value same) u,
)

absent_before :
    (v : View ℕ) (key p : ℕ) → IsAbsent v key → p < v.size → v.key p ≤ key → v.key p < key
absent_before v key p absent live le = omega (arith, absent p live)

-- The node goes in behind `pred` at the lowest level, and the last lock is given back.
insert-IsPlaced :
    (v : View ℕ) (key value h : ℕ) (p : Position)
    → Walking v key h (plain p)
    → IsAbsent v key
    → v.key head < key
    → key < v.key p.cur
    → h ≡ v.zero_level
    → Holds (λ j. (j == p.predpred) || (j == p.pred)) p.state
    → Ensures (IsPlaced v key value) (
        insert h key value p.pred p.predpred p.state >>= λ s'.
        done (s'.list.no_value, release_lock p.pred s'))
unfolding release_lock
insert-IsPlaced v key value h p w absent above past at held =
    let b : Between v key v.zero_level p.pred p.cur = record {
      live = w.live;
      before = absent_before v key p.pred absent w.live w.before;
      wide = omega (arith, w.wide);
      follows = subst (λ k. Follows v k p.pred p.cur) at w.follows;
    } in
    let inserts =
      insert-Updated v w.linked key value p.pred p.predpred p.cur p.state w.stands b past above
        w.below (omega (arith, w.zero)) w.pp_live w.pp_before (omega (arith, w.pp_wide))
        (omega (arith, w.pp_zero)) held in
    Ensures-bind
      (subst
        (λ k.
          Ensures (λ s'. Holds (λ j. j == p.pred) s' × Updated (extended v key value) s'.list)
            (insert k key value p.pred p.predpred p.state))
        (sym at) inserts)
      λ s' (held', u). ensures (
        ap (λ (x : View ℕ). x.no_value) u.stands.shown ∙ u.same.no_value,
        release_last p.pred s' held',
        record { after = u.after; same = u.same; linked = u.linked; stands = u.stands },
      )

IsAbsent-after : (v w : View ℕ) (key : ℕ) → Same v w → IsAbsent v key → IsAbsent w key
IsAbsent-after v w key same absent r live e =
    absent r (omega (arith, same.size)) (sym (same.key r) ∙ e)

-- The end of a level that has been walked along, with `rest` for the levels below it.
level_end-IsPlaced :
    (w : View ℕ) (key value h bottom : ℕ) (p : Position) (rest : LockList → Run (ℕ × LockList))
    → Walking w key h (plain p)
    → IsAbsent w key
    → w.key head < key
    → key < w.key p.cur
    → w.zero_level ≤ bottom
    → bottom ≤ h
    → Holds (λ j. (j == p.predpred) || (j == p.pred)) p.state
    → ((s : LockList)
        → StandsFor w s.list
        → Holds (λ j. j == p.pred) s
        → w.zero_level < h
        → Ensures (IsPlaced w key value) (rest s))
    → Ensures (IsPlaced w key value) (
        let s₂ = release_other p.predpred p.pred p.state in
        let s₃ = if h == bottom then on_list (add_hit p.pred h) s₂ else s₂ in
        if (h == bottom) && (p.state.list.zero_level == bottom) && not false
        then (insert h key value p.pred p.predpred p.state >>= λ s'.
            done (s'.list.no_value, release_lock p.pred s'))
        else rest s₃)
level_end-IsPlaced w key value h bottom p rest walking absent head_lt past sunk_to low held next =
    let z = zero_shown w p.state.list walking.stands in
    let held₂ = release_other_held p.predpred p.pred p.state held in
    let s₂ = release_other p.predpred p.pred p.state in
    elim (Bool-cases (h == bottom)) [
      | inl at ↦ elim (Bool-cases (p.state.list.zero_level == bottom)) [
        | inl still ↦
            rw (at, still)
              (insert-IsPlaced w key value h p walking absent head_lt past
                (omega (arith, ==→eq h bottom at, ==→eq p.state.list.zero_level bottom still)) held)
        | inr sank ↦
            rw (at, sank)
              (next (on_list (add_hit p.pred h) s₂)
                (add_hit-StandsFor w p.pred h s₂.list walking.stands) held₂
                (omega (arith, ==→ne p.state.list.zero_level bottom sank)))
      ]
      | inr higher ↦ rw higher (next s₂ walking.stands held₂ (omega (arith, ==→ne h bottom higher)))
    ]

insert_levels-IsPlaced :
    (n : ℕ) (v : View ℕ) (key value pred : ℕ) (s : LockList)
    → From v key n pred
    → StandsFor v s.list
    → Holds (λ j. j == pred) s
    → IsAbsent v key
    → v.key head < key
    → v.zero_level < n
    → Ensures (IsPlaced v key value) (insert_levels n key value pred s)
unfolding insert_levels
insert_levels-IsPlaced zero v key value pred s f st held absent head_lt deep = absurd (omega arith)
insert_levels-IsPlaced (suc h) v key value pred s f st held absent head_lt deep =
    let z = zero_shown v s.list st in
    let go : leb s.list.zero_level h ≡ true = ground arith in
    rw go (
      Ensures-bind_Returns (enter_level-Entered v key h pred s f st (omega arith) held)
        λ (cur, s₁) en.
          let z₁ = zero_shown v s₁.list en.stands in
          elim (Bool-cases (ltb key (s₁.list.nodes cur).key)) [
            | inl above ↦ rw above (elim (Bool-cases (h == s₁.list.zero_level)) [
              | inl at ↦ rw at (
                  insert-IsPlaced v key value h
                    (record { ok = false; predpred = pred; pred = pred; cur = cur; state = s₁ })
                    (at_start v key h pred cur s₁.list f en.stands (omega arith) en.follows en.zero)
                    absent head_lt (ground (arith, key_shown v s₁.list cur en.stands))
                    (==→eq h s₁.list.zero_level at ∙ z₁)
                    (λ j. en.held j ∙ sym (or_same (j == pred))))
              | inr higher ↦ rw higher (
                  insert_levels-IsPlaced h v key value pred (on_list (add_hit pred h) s₁)
                    (From-below v key h pred f) (add_hit-StandsFor v pred h s₁.list en.stands)
                    en.held absent head_lt (omega (arith, ==→ne h s₁.list.zero_level higher)))
            ])
            | inr along ↦ rw along (
                Ensures-bind
                  (along-Walks (count_above s₁.list.zero_level)
                    (count_above-Counted s₁.list.zero_level) v key h pred cur s₁ f (omega arith) en
                    along)
                  λ p (held', e, kept). rw (kept absent) (
                    Ensures-mono
                      (level_end-IsPlaced e.after key value h s₁.list.zero_level p _ e.walking
                        (IsAbsent-after v e.after key e.same absent)
                        (omega (arith, e.same.key head)) e.passed (omega (arith, e.sinks))
                        (omega arith)
                        (end_held (count_above s₁.list.zero_level)
                          (count_above-Counted s₁.list.zero_level) v key h false p (held', e, kept))
                        λ s' st' held₂ deeper.
                          insert_levels-IsPlaced h e.after key value p.pred s'
                            (From-walked e.after key h (plain p) e.walking) st' held₂
                            (IsAbsent-after v e.after key e.same absent)
                            (omega (arith, e.same.key head)) deeper)
                      λ r placed. IsPlaced-Same v e.after key value r e.same placed))
          ])

-- On a list that stands for a linked view, with all locks free, `updateWithInsert` of a key between those
-- of `head` and `tail` that no node has returns `noValue` with all locks free, and the list has one more
-- node, with the key and the value. It stands for a linked view again. The only other end is that the
-- list would need a level below 0; `assert(0)` is not reached.
pub update_with_insert-IsPlaced :
    (v : View ℕ) (key value : ℕ) (s : LockList)
    → IsLinked v
    → StandsFor v s.list
    → AreFree s
    → IsAbsent v key
    → v.key head < key
    → key < v.key tail
    → Ensures (IsPlaced v key value) (update_with_insert key value s)
unfolding update_with_insert
update_with_insert-IsPlaced v key value s linked st free absent above below =
    Ensures-bind_Returns (start_update-Started v s st free) λ s₁ (st₁, held).
      let top = highest_shown v s₁.list st₁ in
      insert_levels-IsPlaced s₁.list.highest v key value head s₁
        (From-head v key s₁ linked st₁ (omega (arith, above)) below) st₁ held absent above
        (omega (arith, linked.shallow))
