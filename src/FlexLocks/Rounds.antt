-- ===== src/FlexLocks/Rounds.antt =====
-- The loop along a level, for any way to count an access that changes counters only.
use splaylist.Base.{
  ℕ, zero, suc, ◌+◌, ◌≤◌, ◌<◌, ◌≡◌, ◌≢◌, ◌∙◌, refl, sym, ap, Bool, true, false, ◌&&◌, ◌||◌, Option,
  none, some, arith, ◌==◌, ltb, leb, if◌then◌else◌, Bool-cases, inl, inr, ne→==,
}
use splaylist.Base.Run.{
  done, stuck, Ensures, ensures, Ensures-bind, Ensures-bind_Returns, Ensures-mono, Shadows-Ensures,
}
use splaylist.FlexSeq.State.{FlexList, upd, read_next}
use splaylist.FlexSeq.View.{View, StandsFor}
use splaylist.FlexSeq.View.Search.{key_shown}
use splaylist.FlexSeq.View.Steps.{Counted, Counted-StandsFor}
use splaylist.FlexSeq.View.Rising.{Same-refl, Same-trans}
use splaylist.FlexSeq.View.Level.{Walking, Rounded, next_of, branches-Rounded}
use splaylist.FlexSeq.View.Round.{Walked, walk_in}
use splaylist.FlexLocks.Shared.{LockList}
use splaylist.FlexLocks.Walk.{Position, Count, count_step, count_locked, round, walk_level}
use splaylist.FlexLocks.Held.{Holds, acquire_lock_free, lower_locked-LoweredHere}
use splaylist.FlexLocks.Held.{or_false, lock_taken}
use splaylist.FlexLocks.Branches.{plain, HoldsAt}
use splaylist.FlexLocks.Falls.{branches-Shadows}

pub count_locked_past :
    (count : Count) (key h cur n : ℕ) (ok : Bool) (s : LockList)
    → read_next cur h s.list ≡ done n
    → s.lock cur ≡ false
    → key < (s.list.nodes n).key
    → count_locked count key h ok cur n s
      ≡ done (
        true,
        if (s.list.nodes cur).key == key then true else ok,
        record s { list = count key h cur s.list; lock = upd s.lock cur true },
      )
unfolding count_locked
count_locked_past count key h cur n ok s e free lt =
    let past : ltb key (s.list.nodes n).key ≡ true = ground arith in
    let still : leb (s.list.nodes n).key key ≡ false = ground arith in
    rw (past, acquire_lock_free cur s free, e, still) refl

pub count_locked_before :
    (count : Count) (key h cur n : ℕ) (ok : Bool) (s : LockList)
    → ltb key (s.list.nodes n).key ≡ false
    → count_locked count key h ok cur n s ≡ done (false, ok, s)
unfolding count_locked
count_locked_before count key h cur n ok s before = rw before refl

abbrev pub IsAbsent : View ℕ → ℕ → Type 0
IsAbsent v key = (r : ℕ) → r < v.size → v.key r ≢ key

module _ (count : Count)
    (counts : (key h cur : ℕ) (l : FlexList ℕ) → Counted l (count key h cur l)) where
  -- After a round: the locks at the loop, and what the list without locks has after its round.
  abbrev Rounds : View ℕ → ℕ → ℕ → ℕ → Bool → Position → Type 0
  Rounds v key h cur ok p =
      HoldsAt key p × Rounded v key h cur (plain p) × (v.key cur ≢ key → p.ok ≡ ok)

  round-Rounds :
      (v : View ℕ) (key h : ℕ) (p : Position)
      → Walking v key h (plain p)
      → v.key p.cur ≤ key
      → HoldsAt key p
      → Ensures (Rounds v key h p.cur p.ok) (round count key h p)
  unfolding round
  round-Rounds v key h p w le held =
      let k = key_shown v p.state.list p.cur w.stands in
      let before : ltb key (p.state.list.nodes p.cur).key ≡ false = ground arith in
      let pp_other : p.cur ≢ p.predpred =
        λ same. absurd (omega (arith, w.pp_before, w.follows.above, ap v.key same)) in
      let only_pp : (j : ℕ) → p.state.lock j ≡ ((j == p.predpred) || false) =
        λ j. held j ∙ ap (λ b. (j == p.predpred) || (b && (j == p.pred))) before in
      let free : p.state.lock p.cur ≡ false =
        only_pp p.cur ∙ or_false (p.cur == p.predpred) ∙ ne→== p.cur p.predpred pp_other in
      Ensures-bind_Returns
        (lower_locked-LoweredHere v p.cur h p.state w.stands w.low w.follows.live free)
        λ s₁ l.
          let s₂ = count_step s₁ in
          let st₂ : StandsFor v s₂.list = record {
            shown = l.lowered.stands.shown;
            levels = l.lowered.stands.levels;
          } in
          let (n, e, f) =
            next_of v s₂.list p.cur h w.linked st₂ w.follows.live (omega (arith, w.below)) w.low
              w.follows.reaches l.lowered.reached in
          let held₂ : (j : ℕ) → s₂.lock j ≡ ((j == p.predpred) || false) =
            λ j. l.locks j ∙ only_pp j in
          rw e (elim (Bool-cases (ltb key (s₂.list.nodes n).key)) [
            | inl past ↦
                let lt : key < (s₂.list.nodes n).key = ground arith in
                let ok = if (s₂.list.nodes p.cur).key == key then true else p.ok in
                let other_key : v.key p.cur ≢ key → ok ≡ p.ok = λ other.
                  rw
                    (ne→== (s₂.list.nodes p.cur).key key
                      (λ e. other (sym (key_shown v s₂.list p.cur st₂) ∙ e)))
                    refl in
                let c = counts key h p.cur s₂.list in
                let s₃ = record s₂ {
                  list = count key h p.cur s₂.list;
                  lock = upd s₂.lock p.cur true;
                } in
                let w₃ =
                  walk_in v key h (plain p) ok s₃.list w (Counted-StandsFor v s₂.list s₃.list c st₂)
                    (λ q. omega (arith, c.zero q, l.lowered.kept q)) in
                rw (count_locked_past count key h p.cur n p.ok s₂ e (l.locks p.cur ∙ free) lt, past)
                  (Ensures-mono
                    (Shadows-Ensures
                      (branches-Shadows v key h p.predpred p.pred p.cur ok s₃ w₃
                        (omega (arith, c.zero p.cur, l.lowered.reached)) le n true
                        (ap (λ (g : ℕ → Option ℕ). elim (g h) [ none ↦ stuck | some q ↦ done q ])
                            (c.next p.cur)
                          ∙ e)
                        f (ap (ltb key) (c.key n) ∙ past)
                        (lock_taken s₂.lock p.predpred p.cur held₂))
                      (branches-Rounded v key h p.predpred p.pred p.cur ok s₃.list w₃
                        (omega (arith, c.zero p.cur, l.lowered.reached)) le true))
                    λ p' ((held', same), r). (held', r, λ other. same ∙ other_key other))
            | inr early ↦
                let w₃ = walk_in v key h (plain p) p.ok s₂.list w st₂ l.lowered.kept in
                rw (count_locked_before count key h p.cur n p.ok s₂ early, early)
                  (Ensures-mono
                    (Shadows-Ensures
                      (branches-Shadows v key h p.predpred p.pred p.cur p.ok s₂ w₃ l.lowered.reached
                        le n false e f early held₂)
                      (branches-Rounded v key h p.predpred p.pred p.cur p.ok s₂.list w₃
                        l.lowered.reached le false))
                    λ p' ((held', same), r). (held', r, λ other. same))
          ])

  -- At the end of a level. No access is counted for a key that no node has.
  abbrev pub Walks : View ℕ → ℕ → ℕ → Bool → Position → Type 0
  Walks v key h ok p = HoldsAt key p × Walked v key h (plain p) × (IsAbsent v key → p.ok ≡ ok)

  pub walk_level-Walks :
      (fuel : ℕ) (v : View ℕ) (key h : ℕ) (p : Position)
      → Walking v key h (plain p)
      → HoldsAt key p
      → 0 < fuel
      → suc key < v.key p.cur + fuel
      → Ensures (Walks v key h p.ok) (walk_level count fuel key h p)
  unfolding walk_level
  walk_level-Walks zero v key h p w held some_fuel fuel = absurd (omega arith)
  walk_level-Walks (suc n) v key h p w held some_fuel fuel =
      let k = key_shown v p.state.list p.cur w.stands in
      elim (Bool-cases (leb (p.state.list.nodes p.cur).key key)) [
        | inl more ↦
            let le : v.key p.cur ≤ key = ground arith in
            rw more (
              Ensures-bind (round-Rounds v key h p w le held) λ p' (held', r, kept).
                Ensures-mono
                  (walk_level-Walks n r.after key h p' r.walking held' (omega (arith, r.grows))
                    (omega (arith, r.grows, r.same.key p'.cur)))
                  λ p'' (held'', e, kept'). (
                    held'',
                    record {
                      after = e.after;
                      same = Same-trans v r.after e.after r.same e.same;
                      walking = e.walking;
                      passed = e.passed;
                      sinks = omega (arith, e.sinks, r.sinks);
                    },
                    λ absent.
                        kept' (λ q live same.
                          absent q (omega (arith, r.same.size)) (sym (r.same.key q) ∙ same))
                        ∙ kept (absent p.cur w.follows.live),
                  ))
        | inr stop ↦
            let gt : key < v.key p.cur = ground arith in
            rw stop (
              ensures (
                held,
                record {
                  after = v;
                  same = Same-refl v;
                  walking = w;
                  passed = gt;
                  sinks = omega arith;
                },
                λ absent. refl,
              ))
      ]

  -- At the end of a level the locks of `predpred` and `pred` are held.
  pub end_held :
      (v : View ℕ) (key h : ℕ) (ok : Bool) (p : Position)
      → Walks v key h ok p
      → Holds (λ j. (j == p.predpred) || (j == p.pred)) p.state
  end_held v key h ok p (held, e, kept) =
      let k = key_shown e.after p.state.list p.cur e.walking.stands in
      let past : ltb key (p.state.list.nodes p.cur).key ≡ true = ground (arith, e.passed) in
      λ j. held j ∙ ap (λ b. (j == p.predpred) || (b && (j == p.pred))) past
