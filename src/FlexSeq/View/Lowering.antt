-- ===== src/FlexSeq/View/Lowering.antt =====
-- Writing out the links below a node's zero level changes nothing that the list stands for.
use Prim.Native.Nat.{max}
use splaylist.Base.{
  ℕ, zero, suc, ◌+◌, ◌-◌, ◌≤◌, ◌<◌, ◌≡◌, ◌∙◌, refl, ap, Option, arith, ◌==◌, ltb, if◌then◌else◌,
  Bool-cases, inl, inr, ltb→lt, ltb→le, ==_self, ne→==,
}
use splaylist.Base.Run.{Returns, returns, Returns-mono}
use splaylist.FlexSeq.State.{FlexList, upd, update_zero_level, lower, lower_to}
use splaylist.FlexSeq.View.{View, view, link_of, StandsFor, View-ext}

-- The links after one level is written out.
next_lowered :
    (next : ℕ → Option ℕ) (z h : ℕ)
    → 0 < z
    → upd next (z - 1) (next z) (max h (z - 1)) ≡ next (max h z)
next_lowered next z h pos = elim (Bool-cases (ltb h z)) [
  | inl lt ↦
      let h' = ltb→lt h z lt in
      let low : max h (z - 1) ≡ z - 1 = omega arith in
      let high : max h z ≡ z = omega arith in rw (low, high, ==_self (z - 1)) refl
  | inr ge ↦
      let h' = ltb→le h z ge in
      let low : max h (z - 1) ≡ h = omega arith in
      let high : max h z ≡ h = omega arith in rw (low, high, ne→== h (z - 1) (omega arith)) refl
]

module _ {ℓ} {V : Type ℓ} where
  -- Zero levels only go down, and that of `p` is at most `h`.
  pub record Lowered (v : View V) (s : FlexList V) (p h : ℕ) (s' : FlexList V) : Type ℓ where
    pub stands : StandsFor v s'
    pub reached : (s'.nodes p).zero_level ≤ h
    pub kept : (q : ℕ) → (s'.nodes q).zero_level ≤ (s.nodes q).zero_level

  link-update_zero_level :
      (p : ℕ) (s : FlexList V) (q h : ℕ) → link_of (update_zero_level p s) q h ≡ link_of s q h
  unfolding update_zero_level
  link-update_zero_level p s q h =
      ground (arith, next_lowered (s.nodes p).next (s.nodes p).zero_level h)

  view-update_zero_level : (p : ℕ) (s : FlexList V) → view (update_zero_level p s) ≡ view s
  unfolding update_zero_level
  view-update_zero_level p s =
      View-ext _ _ (ground arith) (ground arith) (ground arith) (ground arith) (λ q. ground arith)
        (λ q. ground arith) (λ q. ground arith) (link-update_zero_level p s)

  pub zero-update_zero_level :
      (p : ℕ) (s : FlexList V) (q : ℕ)
      → s.zero_level < (s.nodes p).zero_level
      → ((update_zero_level p s).nodes q).zero_level
        ≡ (if q == p then (s.nodes p).zero_level - 1 else (s.nodes q).zero_level)
  unfolding update_zero_level
  zero-update_zero_level p s q h = ground arith

  pub update_zero_level-StandsFor :
      (v : View V) (p : ℕ) (s : FlexList V) → StandsFor v s → StandsFor v (update_zero_level p s)
  unfolding update_zero_level
  update_zero_level-StandsFor v p s h = record {
    shown = view-update_zero_level p s ∙ h.shown;
    levels = λ q live. ground (arith, h.levels q);
  }

  kept_by :
      (p : ℕ) (s : FlexList V) (q : ℕ) (s' : FlexList V)
      → s.zero_level < (s.nodes p).zero_level
      → (s'.nodes q).zero_level ≤ ((update_zero_level p s).nodes q).zero_level
      → (s'.nodes q).zero_level ≤ (s.nodes q).zero_level
  kept_by p s q s' h k = ground (arith, zero-update_zero_level p s q h)

  -- One round for each level above `h` is enough, where `h` is no lower than the list.
  lower-Lowered :
      (fuel : ℕ) (v : View V) (p h : ℕ) (s : FlexList V)
      → StandsFor v s
      → v.zero_level ≤ h
      → 0 < fuel
      → (s.nodes p).zero_level < h + fuel
      → Returns (Lowered v s p h) (lower fuel p h s)
  unfolding lower
  lower-Lowered zero v p h s st le pos fuel = absurd (omega arith)
  lower-Lowered (suc f) v p h s st le pos fuel = elim (Bool-cases (ltb h (s.nodes p).zero_level)) [
    | inl more ↦
        let high = ltb→lt h (s.nodes p).zero_level more in
        let same : s.zero_level ≡ v.zero_level = ap (λ w. w.zero_level) st.shown in
        let at = zero-update_zero_level p s p (omega arith) in
        let after : ((update_zero_level p s).nodes p).zero_level ≡ (s.nodes p).zero_level - 1 =
          ground arith in
        rw more (
          Returns-mono
            (lower-Lowered f v p h (update_zero_level p s) (update_zero_level-StandsFor v p s st) le
              (omega arith) (omega arith))
            λ s' w. record {
              stands = w.stands;
              reached = w.reached;
              kept = λ q. kept_by p s q s' (omega arith) (w.kept q);
            })
    | inr ok ↦ rw ok (
        returns (record {
          stands = st;
          reached = ltb→le h (s.nodes p).zero_level ok;
          kept = λ q. omega arith;
        }))
  ]

  -- `lower_to` returns, at a live node and a level that the list uses.
  pub lower_to-Lowered :
      (v : View V) (p h : ℕ) (s : FlexList V)
      → StandsFor v s
      → v.zero_level ≤ h
      → p < v.size
      → Returns (Lowered v s p h) (lower_to p h s)
  unfolding lower_to
  lower_to-Lowered v p h s st le live =
      let size : s.size ≡ v.size = ap (λ w. w.size) st.shown in
      let l = st.levels p (omega arith) in
      lower-Lowered (s.highest + 1) v p h s st le (omega arith) (omega arith)
