-- ===== src/FlexSeq/View/Moves.antt =====
-- What the writes of `update` do to the view of the list.
use Prim.Native.Nat.{max}
use splaylist.Base.{
  ℕ, ◌+◌, ◌-◌, ◌≤◌, ◌<◌, ◌≡◌, ◌≢◌, ◌∙◌, refl, ap, sym, Bool, true, false, Option, none, some, arith,
  ◌==◌, if◌then◌else◌, Bool-cases, inl, inr, ==→eq, ==→ne, ◌||◌, ==_self, ne→==,
}
use splaylist.Base.Int.{ℤ}
use splaylist.FlexSeq.State.{FlexList, Node, upd, put, set_next, set_hits, set_top_level}
use splaylist.FlexSeq.Update.{rise, unlink}
use splaylist.FlexSeq.View.{View, view, link_of, StandsFor, View-ext}
use splaylist.FlexSeq.View.Risen.{risen}
use splaylist.FlexSeq.View.Fallen.{fallen}

-- The links after writes at level `c` of a node whose zero level is lower.
level_above : (z c l : ℕ) → z < c → (max l z == c) ≡ (l == c)
level_above z c l h = elim (Bool-cases (l == c)) [
  | inl e ↦ let same : max l z ≡ c = omega (arith, ==→eq l c e) in rw (e, same) (==_self c)
  | inr n ↦ rw n (ne→== (max l z) c (omega (arith, ==→ne l c n)))
]

-- The link after a write at level `c`: for the nodes that are written, whose zero level is lower,
-- and for the others.
link_written :
    (z c l : ℕ) (b d : Bool) (x y x' y' : Option ℕ) (next : ℕ → Option ℕ)
    → x ≡ x'
    → y ≡ y'
    → ((b || d) ≡ true → z < c)
    → (if max l z == c then (if b then x else if d then y else next (max l z)) else next (max l z))
      ≡ (if l == c then (if b then x' else if d then y' else next (max l z)) else next (max l z))
link_written z c l true d x y x' y' next e f h = rw (level_above z c l (h refl), e) refl
link_written z c l false true x y x' y' next e f h = rw (level_above z c l (h refl), f) refl
link_written z c l false false x y x' y' next e f h = ground arith

written_low :
    (a b c : ℕ) (zero_of : ℕ → ℕ) (p : ℕ)
    → zero_of a < c
    → zero_of b < c
    → ((p == a) || (p == b)) ≡ true
    → zero_of p < c
written_low a b c zero_of p ha hb h = elim (Bool-cases (p == a)) [
  | inl e ↦ omega (arith, ap zero_of (==→eq p a e))
  | inr n ↦ elim (Bool-cases (p == b)) [
    | inl e ↦ omega (arith, ap zero_of (==→eq p b e))
    | inr k ↦ absurd (ground arith)
  ]
]

module _ {ℓ} {V : Type ℓ} where
  next-rise :
      (pp cur c p l : ℕ) (s : FlexList V)
      → cur ≢ pp
      → ((rise pp cur c s).nodes p).next l ≡ (
          if l == c + 1
          then (if p == cur
              then (s.nodes pp).next (c + 1)
              else if p == pp
              then some cur
              else (s.nodes p).next l)
          else (s.nodes p).next l)
  unfolding rise set_next set_hits set_top_level
  next-rise pp cur c p l s ne = ground arith

  pub zero-rise :
      (pp cur c p : ℕ) (s : FlexList V)
      → ((rise pp cur c s).nodes p).zero_level ≡ (s.nodes p).zero_level
  unfolding rise set_next set_hits set_top_level
  zero-rise pp cur c p s = ground arith

  pub top-rise :
      (pp cur c p : ℕ) (s : FlexList V)
      → (s.nodes cur).top_level ≡ c
      → ((rise pp cur c s).nodes p).top_level ≡ upd (λ q. (s.nodes q).top_level) cur (c + 1) p
  unfolding rise set_next set_hits set_top_level
  top-rise pp cur c p s e = ground arith

  key-rise : (pp cur c p : ℕ) (s : FlexList V) → ((rise pp cur c s).nodes p).key ≡ (s.nodes p).key
  unfolding rise set_next set_hits set_top_level
  key-rise pp cur c p s = ground arith

  -- A write that keeps the value of the node keeps every value.
  pub value-put :
      (p : ℕ) (n : Node V) (s : FlexList V) (q : ℕ)
      → n.value ≡ (s.nodes p).value
      → ((put p n s).nodes q).value ≡ (s.nodes q).value
  value-put p n s q e = elim (Bool-cases (q == p)) [
    | inl same ↦ rw (put, same) (e ∙ ap (λ r. (s.nodes r).value) (sym (==→eq q p same)))
    | inr other ↦ rw (put, other) refl
  ]

  pub value-set_next :
      (p h : ℕ) (o : Option ℕ) (s : FlexList V) (q : ℕ)
      → ((set_next p h o s).nodes q).value ≡ (s.nodes q).value
  unfolding set_next
  value-set_next p h o s q =
      value-put p (record (s.nodes p) { next = upd (s.nodes p).next h o }) s q refl

  pub value-set_hits :
      (p h : ℕ) (c : ℤ) (s : FlexList V) (q : ℕ)
      → ((set_hits p h c s).nodes q).value ≡ (s.nodes q).value
  unfolding set_hits
  value-set_hits p h c s q =
      value-put p (record (s.nodes p) { hits = upd (s.nodes p).hits h c }) s q refl

  value-set_top_level :
      (p h : ℕ) (s : FlexList V) (q : ℕ) → ((set_top_level p h s).nodes q).value ≡ (s.nodes q).value
  unfolding set_top_level
  value-set_top_level p h s q = value-put p (record (s.nodes p) { top_level = h }) s q refl

  ruleset values = (value-set_next, value-set_hits, value-set_top_level)

  value-rise :
      (pp cur c p : ℕ) (s : FlexList V) → ((rise pp cur c s).nodes p).value ≡ (s.nodes p).value
  unfolding rise
  value-rise pp cur c p s = simp values

  next-unlink :
      (pred cur h p l : ℕ) (s : FlexList V)
      → cur ≢ pred
      → ((unlink pred cur h s).nodes p).next l ≡ (
          if l == h
          then (if p == cur
              then none
              else if p == pred
              then (s.nodes cur).next h
              else (s.nodes p).next l)
          else (s.nodes p).next l)
  unfolding unlink set_next set_hits set_top_level
  next-unlink pred cur h p l s ne = ground arith

  pub zero-unlink :
      (pred cur h p : ℕ) (s : FlexList V)
      → ((unlink pred cur h s).nodes p).zero_level ≡ (s.nodes p).zero_level
  unfolding unlink set_next set_hits set_top_level
  zero-unlink pred cur h p s = ground arith

  pub top-unlink :
      (pred cur h p : ℕ) (s : FlexList V)
      → (s.nodes cur).top_level ≡ h
      → ((unlink pred cur h s).nodes p).top_level ≡ upd (λ q. (s.nodes q).top_level) cur (h - 1) p
  unfolding unlink set_next set_hits set_top_level
  top-unlink pred cur h p s e = ground arith

  key-unlink :
      (pred cur h p : ℕ) (s : FlexList V) → ((unlink pred cur h s).nodes p).key ≡ (s.nodes p).key
  unfolding unlink set_next set_hits set_top_level
  key-unlink pred cur h p s = ground arith

  value-unlink :
      (pred cur h p : ℕ) (s : FlexList V)
      → ((unlink pred cur h s).nodes p).value ≡ (s.nodes p).value
  unfolding unlink
  value-unlink pred cur h p s = simp values

  link-rise :
      (pp cur c : ℕ) (s : FlexList V)
      → cur ≢ pp
      → (s.nodes pp).zero_level ≤ c
      → (s.nodes cur).zero_level ≤ c
      → (p l : ℕ) → link_of (rise pp cur c s) p l ≡ (risen (view s) pp cur c).link p l
  link-rise pp cur c s ne zp zc p l =
      let at : max (c + 1) (s.nodes pp).zero_level ≡ c + 1 = omega arith in
      ap (λ z. ((rise pp cur c s).nodes p).next (max l z)) (zero-rise pp cur c p s)
      ∙ next-rise pp cur c p (max l (s.nodes p).zero_level) s ne
      ∙ link_written (s.nodes p).zero_level (c + 1) l (p == cur) (p == pp) _ _ _ _ (s.nodes p).next
          (ap (s.nodes pp).next (sym at)) refl
          (written_low cur pp (c + 1) (λ q. (s.nodes q).zero_level) p (omega arith) (omega arith))

  link-unlink :
      (pred cur h : ℕ) (s : FlexList V)
      → cur ≢ pred
      → (s.nodes pred).zero_level < h
      → (s.nodes cur).zero_level < h
      → (p l : ℕ) → link_of (unlink pred cur h s) p l ≡ (fallen (view s) pred cur h).link p l
  link-unlink pred cur h s ne zp zc p l =
      let at : max h (s.nodes cur).zero_level ≡ h = omega arith in
      ap (λ z. ((unlink pred cur h s).nodes p).next (max l z)) (zero-unlink pred cur h p s)
      ∙ next-unlink pred cur h p (max l (s.nodes p).zero_level) s ne
      ∙ link_written (s.nodes p).zero_level h l (p == cur) (p == pred) _ _ _ _ (s.nodes p).next refl
          (ap (s.nodes cur).next (sym at))
          (written_low cur pred h (λ q. (s.nodes q).zero_level) p zc zp)

  pub view-rise :
      (v : View V) (pp cur c : ℕ) (s : FlexList V)
      → StandsFor v s
      → cur ≢ pp
      → (s.nodes pp).zero_level ≤ c
      → (s.nodes cur).zero_level ≤ c
      → v.top cur ≡ c
      → view (rise pp cur c s) ≡ risen v pp cur c
  unfolding rise set_next set_hits set_top_level
  view-rise v pp cur c s st ne zp zc e =
      View-ext (view (rise pp cur c s)) (risen (view s) pp cur c) refl refl refl refl
        (λ p. key-rise pp cur c p s) (λ p. value-rise pp cur c p s)
        (λ p. top-rise pp cur c p s (ap (λ (w : View V). w.top cur) st.shown ∙ e))
        (link-rise pp cur c s ne zp zc)
      ∙ ap (λ (w : View V). risen w pp cur c) st.shown

  pub view-unlink :
      (v : View V) (pred cur h : ℕ) (s : FlexList V)
      → StandsFor v s
      → cur ≢ pred
      → (s.nodes pred).zero_level < h
      → (s.nodes cur).zero_level < h
      → v.top cur ≡ h
      → view (unlink pred cur h s) ≡ fallen v pred cur h
  unfolding unlink set_next set_hits set_top_level
  view-unlink v pred cur h s st ne zp zc e =
      View-ext (view (unlink pred cur h s)) (fallen (view s) pred cur h) refl refl refl refl
        (λ p. key-unlink pred cur h p s) (λ p. value-unlink pred cur h p s)
        (λ p. top-unlink pred cur h p s (ap (λ (w : View V). w.top cur) st.shown ∙ e))
        (link-unlink pred cur h s ne zp zc)
      ∙ ap (λ (w : View V). fallen w pred cur h) st.shown
