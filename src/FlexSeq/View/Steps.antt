-- ===== src/FlexSeq/View/Steps.antt =====
-- The writes of `update` that move a node up or down, on a list that stands for a linked view.
use Prim.Native.Nat.{max}
use splaylist.Base.{
  ℕ, ◌+◌, ◌-◌, ◌≤◌, ◌<◌, ◌≡◌, ◌≢◌, ◌∙◌, refl, ap, Option, arith, ◌==◌, Bool-cases, inl, inr, ==→eq,
}
use splaylist.Base.Int.{ℤ}
use splaylist.FlexSeq.State.{put, FlexList, upd, set_hits, set_next, set_top_level}
use splaylist.FlexSeq.Update.{count_hit, rise, unlink}
use splaylist.FlexSeq.View.{View, view, HasLevels, StandsFor, View-ext}
use splaylist.FlexSeq.View.Risen.{risen, MayRise}
use splaylist.FlexSeq.View.Fallen.{fallen, MayFall}
use splaylist.FlexSeq.View.Moves.{
  view-rise, zero-rise, top-rise, view-unlink, zero-unlink, top-unlink, value-set_hits, value-put,
}

module _ {ℓ} {V : Type ℓ} where
  pub size_shown : (v : View V) (s : FlexList V) → StandsFor v s → s.size ≡ v.size
  size_shown v s st = ap (λ (w : View V). w.size) st.shown

  pub zero_shown : (v : View V) (s : FlexList V) → StandsFor v s → s.zero_level ≡ v.zero_level
  zero_shown v s st = ap (λ (w : View V). w.zero_level) st.shown

  pub highest_shown : (v : View V) (s : FlexList V) → StandsFor v s → s.highest ≡ v.highest
  highest_shown v s st = ap (λ (w : View V). w.highest) st.shown

  pub top_shown :
      (v : View V) (s : FlexList V) (p : ℕ) → StandsFor v s → (s.nodes p).top_level ≡ v.top p
  top_shown v s p st = ap (λ (w : View V). w.top p) st.shown

  -- New highest levels within the bounds.
  levels_moved :
      (s s' : FlexList V) (cur t : ℕ)
      → HasLevels s
      → s'.size ≡ s.size
      → s'.zero_level ≡ s.zero_level
      → s'.highest ≡ s.highest
      → ((p : ℕ) → (s'.nodes p).zero_level ≡ (s.nodes p).zero_level)
      → ((p : ℕ) → (s'.nodes p).top_level ≡ upd (λ q. (s.nodes q).top_level) cur t p)
      → (s.nodes cur).zero_level ≤ t
      → t ≤ s.highest
      → HasLevels s'
  levels_moved s s' cur t lv size zero_kept high_kept zeros tops low high p live =
      let l = lv p (omega (arith, size)) in
      let z = zeros p in
      elim (Bool-cases (p == cur)) [
        | inl e ↦
            let new : (s'.nodes p).top_level ≡ t = ground (arith, tops p) in
            let same = ap (λ r. (s.nodes r).zero_level) (==→eq p cur e) in
            (omega arith, omega arith, omega arith)
        | inr n ↦
            let old : (s'.nodes p).top_level ≡ (s.nodes p).top_level = ground (arith, tops p) in
            (omega arith, omega arith, omega arith)
      ]

  size-rise :
      (pp cur c : ℕ) (s : FlexList V)
      → ((rise pp cur c s).size ≡ s.size)
        × ((rise pp cur c s).zero_level ≡ s.zero_level)
        × ((rise pp cur c s).highest ≡ s.highest)
  unfolding rise set_next set_hits set_top_level
  size-rise pp cur c s = (refl, refl, refl)

  size-unlink :
      (pred cur h : ℕ) (s : FlexList V)
      → ((unlink pred cur h s).size ≡ s.size)
        × ((unlink pred cur h s).zero_level ≡ s.zero_level)
        × ((unlink pred cur h s).highest ≡ s.highest)
  unfolding unlink set_next set_hits set_top_level
  size-unlink pred cur h s = (refl, refl, refl)

  pub rise-StandsFor :
      (v : View V) (pp cur c : ℕ) (s : FlexList V)
      → StandsFor v s
      → MayRise v pp cur c
      → (s.nodes pp).zero_level ≤ c
      → StandsFor (risen v pp cur c) (rise pp cur c s)
  rise-StandsFor v pp cur c s st m zp =
      let ne : cur ≢ pp = λ e. absurd (omega (arith, m.follows.above, ap v.key e)) in
      let t : (s.nodes cur).top_level ≡ c = top_shown v s cur st ∙ m.height in
      let n = size_shown v s st in
      let zc : (s.nodes cur).zero_level ≤ c =
        omega (arith, st.levels cur (omega (arith, m.follows.live))) in
      record {
        shown = view-rise v pp cur c s st ne zp zc m.height;
        levels =
            levels_moved s (rise pp cur c s) cur (c + 1) st.levels (size-rise pp cur c s).0
              (size-rise pp cur c s).1 (size-rise pp cur c s).2 (λ p. zero-rise pp cur c p s)
              (λ p. top-rise pp cur c p s t) (omega arith)
              (omega (arith, m.limit, highest_shown v s st));
      }

  pub unlink-StandsFor :
      (v : View V) (pred cur h : ℕ) (s : FlexList V)
      → StandsFor v s
      → MayFall v pred cur h
      → (s.nodes pred).zero_level < h
      → (s.nodes cur).zero_level < h
      → StandsFor (fallen v pred cur h) (unlink pred cur h s)
  unlink-StandsFor v pred cur h s st m zp zc =
      let ne : cur ≢ pred = λ e. absurd (omega (arith, m.follows.above, ap v.key e)) in
      let t : (s.nodes cur).top_level ≡ h = top_shown v s cur st ∙ m.height in
      record {
        shown = view-unlink v pred cur h s st ne zp zc m.height;
        levels =
            levels_moved s (unlink pred cur h s) cur (h - 1) st.levels (size-unlink pred cur h s).0
              (size-unlink pred cur h s).1 (size-unlink pred cur h s).2
              (λ p. zero-unlink pred cur h p s) (λ p. top-unlink pred cur h p s t) (omega arith)
              (omega (arith, m.inner, highest_shown v s st));
      }

  -- The two lists differ in counters only.
  pub record Counted (s s' : FlexList V) : Type ℓ where
    pub size : s'.size ≡ s.size
    pub highest : s'.highest ≡ s.highest
    pub zero_level : s'.zero_level ≡ s.zero_level
    pub no_value : s'.no_value ≡ s.no_value
    pub key : (q : ℕ) → (s'.nodes q).key ≡ (s.nodes q).key
    pub value : (q : ℕ) → (s'.nodes q).value ≡ (s.nodes q).value
    pub zero : (q : ℕ) → (s'.nodes q).zero_level ≡ (s.nodes q).zero_level
    pub top : (q : ℕ) → (s'.nodes q).top_level ≡ (s.nodes q).top_level
    pub next : (q : ℕ) → (s'.nodes q).next ≡ (s.nodes q).next

  Counted-HasLevels : (s s' : FlexList V) → Counted s s' → HasLevels s → HasLevels s'
  Counted-HasLevels s s' c lv p live =
      let l = lv p (omega (arith, c.size)) in
      (
        omega (arith, c.zero_level, c.zero p),
        omega (arith, c.zero p, c.top p),
        omega (arith, c.top p, c.highest),
      )

  pub Counted-StandsFor :
      (v : View V) (s s' : FlexList V) → Counted s s' → StandsFor v s → StandsFor v s'
  Counted-StandsFor v s s' c st = record {
    shown =
        View-ext (view s') (view s) c.size c.highest c.zero_level c.no_value c.key c.value c.top
          (λ q l.
            ap (λ (f : ℕ → Option ℕ). f (max l (s'.nodes q).zero_level)) (c.next q)
            ∙ ap (λ z. (s.nodes q).next (max l z)) (c.zero q))
        ∙ st.shown;
    levels = Counted-HasLevels s s' c st.levels;
  }

  pub set_hits-Counted : (p h : ℕ) (c : ℤ) (s : FlexList V) → Counted s (set_hits p h c s)
  unfolding set_hits
  set_hits-Counted p h c s = record {
    size = refl;
    highest = refl;
    zero_level = refl;
    no_value = refl;
    key = λ q. ground arith;
    value = value-set_hits p h c s;
    zero = λ q. ground arith;
    top = λ q. ground arith;
    next = λ q. ground arith;
  }

  pub selfhits-Counted :
      (p : ℕ) (c : ℤ) (s : FlexList V) → Counted s (put p (record (s.nodes p) { selfhits = c }) s)
  selfhits-Counted p c s = record {
    size = refl;
    highest = refl;
    zero_level = refl;
    no_value = refl;
    key = λ q. ground arith;
    value = λ q. value-put p (record (s.nodes p) { selfhits = c }) s q refl;
    zero = λ q. ground arith;
    top = λ q. ground arith;
    next = λ q. ground arith;
  }

  pub count_hit-Counted : (key h p : ℕ) (s : FlexList V) → Counted s (count_hit key h p s)
  unfolding count_hit
  count_hit-Counted key h p s = elim (Bool-cases ((s.nodes p).key == key)) [
    | inl e ↦ rw e (selfhits-Counted p _ s)
    | inr e ↦ rw e (set_hits-Counted p h _ s)
  ]
