-- ===== src/FlexSeq/View/Updating.antt =====
-- `update` as a whole: down the levels.
use native.Mathlib.Nat.{le_trans}
use splaylist.Base.{
  ℕ, zero, suc, ◌+◌, ◌≤◌, ◌<◌, false, arith, ltb, leb, if◌then◌else◌, Bool-cases, inl, inr,
}
use splaylist.Base.Int.{pos, ◌+ℤ◌}
use splaylist.Base.Run.{
  Run, done, Ensures, ensures, Ensures-bind, Ensures-bind_Returns, Ensures-mono,
}
use splaylist.FlexSeq.State.{FlexList, head, tail, set_hits}
use splaylist.FlexSeq.Update.{Position, update_levels, update}
use splaylist.FlexSeq.View.{View, StandsFor, Follows, IsLinked}
use splaylist.FlexSeq.View.Lowering.{lower_to-Lowered}
use splaylist.FlexSeq.View.Steps.{Counted-StandsFor, set_hits-Counted, zero_shown, highest_shown}
use splaylist.FlexSeq.View.Rising.{Same, Same-refl, Same-trans}
use splaylist.FlexSeq.View.Level.{Walking, next_of}
use splaylist.FlexSeq.View.Round.{Walked, walk_level-Walked}

module _ {ℓ} {V : Type ℓ} where
  -- A list that stands for a linked view with the contents of `v`.
  pub record Updated (v : View V) (s : FlexList V) : Type ℓ where
    pub after : View V
    pub same : Same v after
    pub linked : IsLinked after
    pub stands : StandsFor after s

  pub Updated-refl : (v : View V) (s : FlexList V) → IsLinked v → StandsFor v s → Updated v s
  Updated-refl v s linked st = record {
    after = v;
    same = Same-refl v;
    linked = linked;
    stands = st;
  }

  pub Updated-Same : (v w : View V) (s : FlexList V) → Same v w → Updated w s → Updated v s
  Updated-Same v w s same u = record {
    after = u.after;
    same = Same-trans v w u.after same u.same;
    linked = u.linked;
    stands = u.stands;
  }

  -- The levels below `n` are still to do, from `pred`.
  pub record From (v : View V) (key n pred : ℕ) : Type ℓ where
    pub linked : IsLinked v
    pub inner : n ≤ v.highest
    pub below : key < v.key tail
    pub live : pred < v.size
    pub before : v.key pred ≤ key
    pub wide : n ≤ suc (v.top pred)

  -- The levels below, from `pred`, and from the node at which the walk along a level ends.
  pub From-below : (v : View V) (key h pred : ℕ) → From v key (suc h) pred → From v key h pred
  From-below v key h pred f = record {
    linked = f.linked;
    inner = omega (arith, f.inner);
    below = f.below;
    live = f.live;
    before = f.before;
    wide = omega (arith, f.wide);
  }

  pub From-walked :
      (v : View V) (key h : ℕ) (p : Position V) → Walking v key h p → From v key h p.pred
  From-walked v key h p w = record {
    linked = w.linked;
    inner = omega (arith, w.inner);
    below = w.below;
    live = w.live;
    before = w.before;
    wide = omega (arith, w.wide);
  }

  -- A level that has been walked along, with `rest` to do below it.
  Walked-level :
      (v : View V) (key h : ℕ) (p : Position V) (rest : Run (FlexList V))
      → Walked v key h p
      → ((w : View V) → From w key h p.pred → StandsFor w p.list → Ensures (Updated w) rest)
      → Ensures (Updated v) (if p.ok then done p.list else rest)
  Walked-level v key h p rest e next =
      let w = e.walking in
      elim (Bool-cases p.ok) [
        | inl yes_ok ↦ rw yes_ok (
            ensures (
              Updated-Same v e.after p.list e.same (Updated-refl e.after p.list w.linked w.stands)))
        | inr no_ok ↦ rw no_ok (
            Ensures-mono (next e.after (From-walked e.after key h p w) w.stands)
              λ s u. Updated-Same v e.after s e.same u)
      ]

  -- The walk along level `h` starts with `pred` in both places.
  pub at_start :
      (v : View V) (key h pred cur : ℕ) (s : FlexList V)
      → From v key (suc h) pred
      → StandsFor v s
      → v.zero_level ≤ h
      → Follows v h pred cur
      → (s.nodes pred).zero_level ≤ h
      → Walking v key h (record { ok = false; predpred = pred; pred = pred; cur = cur; list = s })
  at_start v key h pred cur s f st low fc zp = record {
    linked = f.linked;
    stands = st;
    low = low;
    inner = omega (arith, f.inner);
    below = f.below;
    follows = fc;
    live = f.live;
    before = f.before;
    wide = omega (arith, f.wide);
    zero = zp;
    pp_live = f.live;
    pp_before = omega arith;
    pp_wide = omega (arith, f.wide);
    pp_zero = zp;
  }

  update_levels-Updated :
      (n : ℕ) (v : View V) (key pred : ℕ) (s : FlexList V)
      → From v key n pred
      → StandsFor v s
      → Ensures (Updated v) (update_levels n key pred s)
  unfolding update_levels
  update_levels-Updated zero v key pred s f st = ensures (Updated-refl v s f.linked st)
  update_levels-Updated (suc h) v key pred s f st =
      let z = zero_shown v s st in
      elim (Bool-cases (leb s.zero_level h)) [
        | inr end ↦ rw end (ensures (Updated-refl v s f.linked st))
        | inl go ↦
            let low : v.zero_level ≤ h = ground arith in
            let wide : h ≤ v.top pred = omega (arith, f.wide) in
            rw go (
              Ensures-bind_Returns (lower_to-Lowered v pred h s st low f.live) λ s₁ l₁.
                let (cur, e, fc) =
                  next_of v s₁ pred h f.linked l₁.stands f.live (omega (arith, f.below, f.before))
                    low wide l₁.reached in
                rw e (
                  Ensures-bind_Returns (lower_to-Lowered v cur h s₁ l₁.stands low fc.live) λ s₂ l₂.
                    let s₃ = record s₂ { sum_lengths = s₂.sum_lengths + 1 } in
                    let st₃ : StandsFor v s₃ = record {
                      shown = l₂.stands.shown;
                      levels = l₂.stands.levels;
                    } in
                    elim (Bool-cases (ltb key (s₃.nodes cur).key)) [
                      | inl above ↦
                          let s₄ = set_hits pred h ((s₃.nodes pred).hits h +ℤ pos 1) s₃ in
                          rw above (
                            update_levels-Updated h v key pred s₄ (From-below v key h pred f)
                              (Counted-StandsFor v s₃ s₄ (set_hits-Counted pred h _ s₃) st₃))
                      | inr along ↦ rw along (
                          Ensures-bind
                            (walk_level-Walked (key + 1) v key h
                              (record {
                                ok = false;
                                predpred = pred;
                                pred = pred;
                                cur = cur;
                                list = s₃;
                              })
                              (at_start v key h pred cur s₃ f st₃ low fc
                                (le_trans (l₂.kept pred) l₁.reached))
                              (omega arith) (omega (arith, fc.above)))
                            λ p walked.
                              Walked-level v key h p (update_levels h key p.pred p.list) walked
                                λ w g st'. update_levels-Updated h w key p.pred p.list g st')
                    ]))
      ]

  -- `update` of a key between those of `head` and `tail` returns a list with the same keys and values
  -- in the same nodes, which stands for a linked view again, unless the list would need a level below 0.
  pub update-Updated :
      (v : View V) (key : ℕ) (s : FlexList V)
      → IsLinked v
      → StandsFor v s
      → v.key head ≤ key
      → key < v.key tail
      → Ensures (Updated v) (update key s)
  unfolding update
  update-Updated v key s linked st above below =
      let s₁ = record s { access_counter = s.access_counter + 1 } in
      let s₂ = set_hits head s₁.highest ((s₁.nodes head).hits s₁.highest +ℤ pos 1) s₁ in
      let st₁ : StandsFor v s₁ = record { shown = st.shown; levels = st.levels } in
      update_levels-Updated s₁.highest v key head s₂
        (record {
          linked = linked;
          inner = omega (arith, highest_shown v s st);
          below = below;
          live = omega (arith, linked.sized);
          before = above;
          wide = omega (arith, linked.head_top, highest_shown v s st);
        })
        (Counted-StandsFor v s₁ s₂ (set_hits-Counted head s₁.highest _ s₁) st₁)
