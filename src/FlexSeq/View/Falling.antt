-- ===== src/FlexSeq/View/Falling.antt =====
-- A node leaves its highest level.
use Prim.Native.Nat.{max}
use splaylist.Base.{
  ℕ, zero, suc, ◌-◌, ◌≤◌, ◌<◌, ◌≡◌, ◌≢◌, ◌∙◌, refl, ap, sym, arith, ◌==◌, ltb, Bool-cases, inl, inr,
  ltb→lt, ltb→le, ==→eq, ==→ne,
}
use splaylist.Base.Run.{done, sunk, Ensures, ensures, has_sunk, Ensures-bind}
use splaylist.FlexSeq.State.{FlexList, Node}
use splaylist.FlexSeq.Update.{deepen, lower_once, unlink, fall}
use splaylist.FlexSeq.View.{View, StandsFor, IsLinked}
use splaylist.FlexSeq.View.Lowering.{update_zero_level-StandsFor, zero-update_zero_level}
use splaylist.FlexSeq.View.Fallen.{
  top_fallen, fallen, MayFall, fallen-IsLinked, deepened, deepened-IsLinked,
}
use splaylist.FlexSeq.View.Moves.{zero-unlink}
use splaylist.FlexSeq.View.Steps.{unlink-StandsFor, zero_shown, size_shown}
use splaylist.FlexSeq.View.Rising.{Same}

module _ {ℓ} {V : Type ℓ} where
  -- The list with level `h` above its lowest.
  pub record Deepened (v : View V) (h : ℕ) (s s' : FlexList V) : Type ℓ where
    pub lowest : ℕ
    pub linked : IsLinked (deepened v lowest)
    pub stands : StandsFor (deepened v lowest) s'
    pub room : lowest < h
    pub sinks : lowest ≤ v.zero_level
    pub nodes_kept : s'.nodes ≡ s.nodes

  deepened-link :
      (v : View V) (z : ℕ) (s : FlexList V)
      → StandsFor v s
      → v.zero_level ≡ suc z
      → (p : ℕ) → p < v.size
      → v.link p z ≡ v.link p (suc z)
  deepened-link v z s st e p live =
      let l = st.levels p (omega (arith, size_shown v s st)) in
      let n = zero_shown v s st in
      let above : max z (s.nodes p).zero_level ≡ max (suc z) (s.nodes p).zero_level = omega arith in
      ap (λ (w : View V). w.link p z) (sym st.shown)
      ∙ ap (s.nodes p).next above
      ∙ ap (λ (w : View V). w.link p (suc z)) st.shown

  -- The lowest level `n` goes down by one, unless it is 0.
  deepen_below :
      (v : View V) (h n : ℕ) (s : FlexList V)
      → IsLinked v
      → StandsFor v s
      → h ≡ n
      → v.zero_level ≡ n
      → Ensures
          (Deepened v h s)
          (elim n [ zero ↦ sunk | suc z ↦ done (record s { zero_level = z }) ])
  deepen_below v h zero s linked st eh e = has_sunk
  deepen_below v h (suc z) s linked st eh e = ensures (record {
    lowest = z;
    linked = deepened-IsLinked v z linked e (deepened-link v z s st e);
    stands = record {
      shown = ap (λ (w : View V). deepened w z) st.shown;
      levels = λ p live.
          let l = st.levels p live in let k = zero_shown v s st in (omega arith, l.1, l.2);
    };
    room = omega arith;
    sinks = omega arith;
    nodes_kept = refl;
  })

  deepen-Deepened :
      (v : View V) (h : ℕ) (s : FlexList V)
      → IsLinked v
      → StandsFor v s
      → v.zero_level ≤ h
      → Ensures (Deepened v h s) (deepen h s)
  unfolding deepen
  deepen-Deepened v h s linked st low =
      let z = zero_shown v s st in
      elim (Bool-cases (h == s.zero_level)) [
        | inl e ↦ rw e (deepen_below v h s.zero_level s linked st (==→eq h s.zero_level e) (sym z))
        | inr e ↦ rw e (
            ensures (record {
              lowest = v.zero_level;
              linked = linked;
              stands = st;
              room = omega (arith, ==→ne h s.zero_level e);
              sinks = omega arith;
              nodes_kept = refl;
            }))
      ]

  -- What is left of the zero level of `p` and of the others.
  lower_once-StandsFor :
      (v : View V) (p h : ℕ) (s : FlexList V) → StandsFor v s → StandsFor v (lower_once p h s)
  unfolding lower_once
  lower_once-StandsFor v p h s st = elim (Bool-cases (ltb (h - 1) (s.nodes p).zero_level)) [
    | inl e ↦ rw e (update_zero_level-StandsFor v p s st)
    | inr e ↦ rw e st
  ]

  zero-lower_once :
      (p h q : ℕ) (s : FlexList V)
      → s.zero_level < h
      → (s.nodes q).zero_level ≤ h
      → (((lower_once p h s).nodes q).zero_level ≤ (s.nodes q).zero_level)
        × (q ≡ p → ((lower_once p h s).nodes q).zero_level < h)
  unfolding lower_once
  zero-lower_once p h q s low zq = elim (Bool-cases (ltb (h - 1) (s.nodes p).zero_level)) [
    | inl e ↦ rw e (
        let lt = ltb→lt (h - 1) (s.nodes p).zero_level e in
        let z = zero-update_zero_level p s q (omega arith) in
        (
          ground (arith, ap (λ r. (s.nodes r).zero_level)),
          λ same. ground (arith, ap (λ r. (s.nodes r).zero_level) same),
        ))
    | inr e ↦ rw e (
        let le = ltb→le (h - 1) (s.nodes p).zero_level e in
        (omega arith, λ same. omega (arith, ap (λ r. (s.nodes r).zero_level) same)))
  ]

  -- The list after `cur` has left level `h`: it stands for a linked view with the same contents.
  pub record Dropped (v : View V) (cur h : ℕ) (s s' : FlexList V) : Type ℓ where
    pub after : View V
    pub same : Same v after
    pub linked : IsLinked after
    pub stands : StandsFor after s'
    pub low : after.zero_level < h
    pub sinks : after.zero_level ≤ v.zero_level
    pub zeros : (q : ℕ) → (s.nodes q).zero_level ≤ h → (s'.nodes q).zero_level ≤ h
    pub tops : (r : ℕ) → r ≢ cur → after.top r ≡ v.top r
    pub dropped : after.top cur < h

  -- The two nodes have their links at the level below when `cur` leaves level `h`.
  unlink-Dropped :
      (v : View V) (pred cur h : ℕ) (s s₁ : FlexList V)
      → ((z : ℕ) → z < h → MayFall (deepened v z) pred cur h)
      → (s.nodes pred).zero_level ≤ h
      → (s.nodes cur).zero_level ≤ h
      → Deepened v h s s₁
      → Dropped v cur h s (unlink pred cur h (lower_once pred h (lower_once cur h s₁)))
  unlink-Dropped v pred cur h s s₁ may zp zc d =
      let w = deepened v d.lowest in
      let same = λ (q : ℕ). ap (λ (f : ℕ → Node V). (f q).zero_level) d.nodes_kept in
      let low : s₁.zero_level < h = omega (arith, zero_shown w s₁ d.stands, d.room) in
      let s₂ = lower_once cur h s₁ in
      let s₃ = lower_once pred h s₂ in
      let st₂ = lower_once-StandsFor w cur h s₁ d.stands in
      let st₃ = lower_once-StandsFor w pred h s₂ st₂ in
      let low₂ : s₂.zero_level < h = omega (arith, zero_shown w s₂ st₂, d.room) in
      let c₂ = zero-lower_once cur h cur s₁ low (omega (arith, same cur)) in
      let p₂ = zero-lower_once cur h pred s₁ low (omega (arith, same pred)) in
      let p₃ = zero-lower_once pred h pred s₂ low₂ (omega (arith, same pred, p₂.0)) in
      let c₃ = zero-lower_once pred h cur s₂ low₂ (omega (arith, same cur, c₂.0)) in
      let m = may d.lowest d.room in
      record {
        after = fallen w pred cur h;
        same = record {
          size = refl;
          highest = refl;
          no_value = refl;
          key = λ p. refl;
          value = λ p. refl;
        };
        linked = fallen-IsLinked w d.linked pred cur h m;
        stands =
            unlink-StandsFor w pred cur h s₃ st₃ m (p₃.1 refl) (omega (arith, c₃.0, c₂.1 refl));
        low = d.room;
        sinks = d.sinks;
        zeros = λ q le.
            let q₂ = zero-lower_once cur h q s₁ low (omega (arith, same q)) in
            let q₃ = zero-lower_once pred h q s₂ low₂ (omega (arith, same q, q₂.0)) in
            omega (arith, same q, q₂.0, q₃.0, zero-unlink pred cur h q s₃);
        tops = λ r n. top_fallen w d.linked pred cur h m r n;
        dropped =
            let top : (fallen w pred cur h).top cur ≡ h - 1 = ground arith in omega (arith, d.room);
      }

  pub fall-Dropped :
      (v : View V) (pred cur h : ℕ) (s : FlexList V)
      → IsLinked v
      → StandsFor v s
      → v.zero_level ≤ h
      → ((z : ℕ) → z < h → MayFall (deepened v z) pred cur h)
      → (s.nodes pred).zero_level ≤ h
      → (s.nodes cur).zero_level ≤ h
      → Ensures (Dropped v cur h s) (fall pred cur h s)
  unfolding fall
  fall-Dropped v pred cur h s linked st low may zp zc =
      Ensures-bind (deepen-Deepened v h s linked st low)
        λ s₁ d. ensures (unlink-Dropped v pred cur h s s₁ may zp zc d)
