-- ===== src/FlexSeq/View/Round.antt =====
-- The loop of `update` along one level, and the loop over the levels.
use native.Mathlib.Nat.{le_trans}
use splaylist.Base.{
  ℕ, zero, suc, ◌+◌, ◌≤◌, ◌<◌, refl, Bool, true, false, arith, ltb, leb, if◌then◌else◌, Bool-cases,
  inl, inr,
}
use splaylist.Base.Run.{Ensures, ensures, Ensures-bind, Ensures-bind_Returns, Ensures-mono}
use splaylist.FlexSeq.State.{FlexList}
use splaylist.FlexSeq.Update.{Position, count_hit, round, walk_level}
use splaylist.FlexSeq.View.{View, StandsFor}
use splaylist.FlexSeq.View.Lowering.{lower_to-Lowered}
use splaylist.FlexSeq.View.Search.{key_shown}
use splaylist.FlexSeq.View.Steps.{Counted, Counted-StandsFor, count_hit-Counted}
use splaylist.FlexSeq.View.Rising.{Same, Same-refl, Same-trans}
use splaylist.FlexSeq.View.Level.{Walking, Rounded, next_of, branches-Rounded}

module _ {ℓ} {V : Type ℓ} where
  abbrev pub count_if : Bool → ℕ → ℕ → ℕ → FlexList V → FlexList V
  count_if last key h cur s = if last then count_hit key h cur s else s

  pub Counted-refl : (s : FlexList V) → Counted s s
  Counted-refl s = record {
    size = refl;
    highest = refl;
    zero_level = refl;
    no_value = refl;
    key = λ q. refl;
    value = λ q. refl;
    zero = λ q. refl;
    top = λ q. refl;
    next = λ q. refl;
  }

  count_if-Counted :
      (last : Bool) (key h cur : ℕ) (s : FlexList V) → Counted s (count_if last key h cur s)
  count_if-Counted true key h cur s = count_hit-Counted key h cur s
  count_if-Counted false key h cur s = Counted-refl s

  -- The walk goes on in a list that stands for the same view.
  pub walk_in :
      (v : View V) (key h : ℕ) (p : Position V) (ok : Bool) (s : FlexList V)
      → Walking v key h p
      → StandsFor v s
      → ((q : ℕ) → (s.nodes q).zero_level ≤ (p.list.nodes q).zero_level)
      → Walking v key h
          (record { ok = ok; predpred = p.predpred; pred = p.pred; cur = p.cur; list = s })
  walk_in v key h p ok s w st kept = record {
    linked = w.linked;
    stands = st;
    low = w.low;
    inner = w.inner;
    below = w.below;
    follows = w.follows;
    live = w.live;
    before = w.before;
    wide = w.wide;
    zero = le_trans (kept p.pred) w.zero;
    pp_live = w.pp_live;
    pp_before = w.pp_before;
    pp_wide = w.pp_wide;
    pp_zero = le_trans (kept p.predpred) w.pp_zero;
  }

  pub round-Rounded :
      (v : View V) (key h : ℕ) (p : Position V)
      → Walking v key h p
      → v.key p.cur ≤ key
      → Ensures (Rounded v key h p.cur) (round key h p)
  unfolding round
  round-Rounded v key h p w le =
      Ensures-bind_Returns (lower_to-Lowered v p.cur h p.list w.stands w.low w.follows.live) λ s₁ l.
        let s₂ = record s₁ { sum_lengths = s₁.sum_lengths + 1 } in
        let st₂ : StandsFor v s₂ = record { shown = l.stands.shown; levels = l.stands.levels } in
        let (n, e, f) =
          next_of v s₂ p.cur h w.linked st₂ w.follows.live (omega (arith, w.below)) w.low
            w.follows.reaches l.reached in
        let last = ltb key (s₂.nodes n).key in
        let c = count_if-Counted last key h p.cur s₂ in
        rw e (
          branches-Rounded v key h p.predpred p.pred p.cur _ (count_if last key h p.cur s₂)
            (walk_in v key h p _ (count_if last key h p.cur s₂) w
              (Counted-StandsFor v s₂ (count_if last key h p.cur s₂) c st₂)
              (λ q. omega (arith, c.zero q, l.kept q)))
            (omega (arith, c.zero p.cur, l.reached)) le last)

  -- At the end of a level `cur` is the first node behind the key.
  pub record Walked (v : View V) (key h : ℕ) (p : Position V) : Type ℓ where
    pub after : View V
    pub same : Same v after
    pub walking : Walking after key h p
    pub passed : key < after.key p.cur
    pub sinks : after.zero_level ≤ v.zero_level

  -- `key + 1` rounds are enough: the key of `cur` grows in each.
  pub walk_level-Walked :
      (fuel : ℕ) (v : View V) (key h : ℕ) (p : Position V)
      → Walking v key h p
      → 0 < fuel
      → suc key < v.key p.cur + fuel
      → Ensures (Walked v key h) (walk_level fuel key h p)
  unfolding walk_level
  walk_level-Walked zero v key h p w some_fuel fuel = absurd (omega arith)
  walk_level-Walked (suc n) v key h p w some_fuel fuel =
      let k = key_shown v p.list p.cur w.stands in
      elim (Bool-cases (leb (p.list.nodes p.cur).key key)) [
        | inl more ↦
            let le : v.key p.cur ≤ key = ground arith in
            rw more (
              Ensures-bind (round-Rounded v key h p w le) λ p' r.
                Ensures-mono
                  (walk_level-Walked n r.after key h p' r.walking (omega (arith, r.grows))
                    (omega (arith, r.grows, r.same.key p'.cur)))
                  λ p'' e. record {
                    after = e.after;
                    same = Same-trans v r.after e.after r.same e.same;
                    walking = e.walking;
                    passed = e.passed;
                    sinks = omega (arith, e.sinks, r.sinks);
                  })
        | inr stop ↦
            let gt : key < v.key p.cur = ground arith in
            rw stop (
              ensures (record {
                after = v;
                same = Same-refl v;
                walking = w;
                passed = gt;
                sinks = omega arith;
              }))
      ]
