-- ===== src/FlexSeq/View/Search.antt =====
-- `find` on a linked list: it returns, and stops at the node with the key or at the two around it.
use Prim.Native.Nat.{max}
use mathlib.Core.Path.{subst}
use native.Mathlib.Nat.{le_trans}
use splaylist.Base.{
  ℕ, zero, suc, ◌+◌, ◌≤◌, ◌<◌, ◌≡◌, ◌∙◌, refl, ap, sym, Bool, true, false, Option, none, some,
  arith, ◌==◌, ltb, leb, if◌then◌else◌, Bool-cases, inl, inr, ltb→lt, ltb→le, ==→eq, ==→ne,
}
use splaylist.Base.Run.{done, Returns, returns, Returns-bind}
use splaylist.FlexSeq.State.{FlexList, head, tail, read_next}
use splaylist.FlexSeq.Find.{find_walk, find_levels, find}
use splaylist.FlexSeq.View.{View, StandsFor, Follows, IsLinked}
use splaylist.FlexSeq.View.Lowering.{lower_to-Lowered}

module _ {ℓ} {V : Type ℓ} where
  -- A link that is written out is the one that the view shows.
  pub read_link :
      (v : View V) (s : FlexList V) (p h q : ℕ)
      → StandsFor v s
      → (s.nodes p).zero_level ≤ h
      → v.link p h ≡ some q
      → (s.nodes p).next h ≡ some q
  read_link v s p h q st le e =
      let same : max h (s.nodes p).zero_level ≡ h = omega arith in
      (ap (s.nodes p).next (sym same) ∙ ap (λ (w : View V). w.link p h) st.shown) ∙ e

  pub read_next-done :
      (v : View V) (s : FlexList V) (p h q : ℕ)
      → StandsFor v s
      → (s.nodes p).zero_level ≤ h
      → v.link p h ≡ some q
      → read_next p h s ≡ done q
  read_next-done v s p h q st le e = rw (read_link v s p h q st le e, read_next) refl

  pub key_shown : (v : View V) (s : FlexList V) (p : ℕ) → StandsFor v s → (s.nodes p).key ≡ v.key p
  key_shown v s p st = ap (λ (w : View V). w.key p) st.shown

  -- The counters are no part of what the list stands for.
  counted :
      (v : View V) (s : FlexList V)
      → StandsFor v s
      → StandsFor v (record s { path_lengths = s.path_lengths + 1 })
  counted v s st = record { shown = st.shown; levels = st.levels }

  -- The two nodes between which the key lies at a level.
  pub record Between (v : View V) (key level pred succ : ℕ) : Type 0 where
    pub live : pred < v.size
    pub before : v.key pred < key
    pub wide : level ≤ v.top pred
    pub follows : Follows v level pred succ

  abbrev pub Stops : View V → ℕ → ℕ → ℕ × ℕ × FlexList V → Type ℓ
  Stops v key level (pred, succ, s) =
      StandsFor v s
      × Between v key level pred succ
      × (key ≤ v.key succ)
      × ((s.nodes pred).zero_level ≤ level)
      × ((s.nodes succ).zero_level ≤ level)

  module _ (v : View V) (linked : IsLinked v) (key : ℕ) (below : key ≤ v.key tail) where
    find_walk-Stops :
        (fuel level pred succ : ℕ) (s : FlexList V)
        → StandsFor v s
        → v.zero_level ≤ level
        → Between v key level pred succ
        → (s.nodes pred).zero_level ≤ level
        → (s.nodes succ).zero_level ≤ level
        → 0 < fuel
        → key < v.key succ + fuel
        → Returns (Stops v key level) (find_walk fuel key level pred succ s)
    unfolding find_walk
    find_walk-Stops zero level pred succ s st le b zp zs pos fuel = absurd (omega arith)
    find_walk-Stops (suc f) level pred succ s st le b zp zs pos fuel =
        let k = key_shown v s succ st in
        elim (Bool-cases (ltb (s.nodes succ).key key)) [
          | inl more ↦
              let lt = ltb→lt (s.nodes succ).key key more in
              let (q, e, fq) =
                linked.links succ level b.follows.live (omega arith) le b.follows.reaches in
              let s₁ = record s { path_lengths = s.path_lengths + 1 } in
              let st₁ = counted v s st in
              let grows = fq.above in
              rw (more, read_next-done v s₁ succ level q st₁ zs e)
                (Returns-bind (lower_to-Lowered v q level s₁ st₁ le fq.live) λ s₂ w.
                  let kept = w.kept succ in
                  find_walk-Stops f level succ q s₂ w.stands le
                    (record {
                      live = b.follows.live;
                      before = omega arith;
                      wide = b.follows.reaches;
                      follows = fq;
                    })
                    (omega arith) w.reached (omega arith) (omega arith))
          | inr stop ↦
              rw stop (returns (st, b, omega (arith, ltb→le (s.nodes succ).key key stop), zp, zs))
        ]

    -- What `find` returns: the node with the key, or the two nodes around the key at the lowest level.
    abbrev pub Found : Bool × ℕ × Option ℕ × FlexList V → Type ℓ
    Found (b, pred, succ, s) =
        StandsFor v s
        × ((q : ℕ) × (succ ≡ some q)
            × (q < v.size)
            × ((b ≡ true) → v.key q ≡ key)
            × ((b ≡ false)
                → Between v key v.zero_level pred q
                  × (key < v.key q)
                  × ((s.nodes pred).zero_level ≤ v.zero_level)))

    find_levels_end :
        (n pred : ℕ) (succ : Option ℕ) (s : FlexList V)
        → n ≤ s.zero_level
        → find_levels n key pred succ s ≡ done (false, pred, succ, s)
    unfolding find_levels
    find_levels_end zero pred succ s le = refl
    find_levels_end (suc l) pred succ s le =
        let stop : leb s.zero_level l ≡ false = ground arith in rw stop refl

    -- The end of a round, with the key between `pred` and `succ` at its level.
    find_round :
        (level pred succ : ℕ) (s : FlexList V)
        → Stops v key level (pred, succ, s)
        → v.zero_level ≤ level
        → (v.zero_level < level → Returns Found (find_levels level key pred (some succ) s))
        → Returns Found (
            if key == (s.nodes succ).key
            then done (true, pred, some succ, s)
            else find_levels level key pred (some succ) s)
    find_round level pred succ s (st, b, le, zp, zs) down rest =
        let k = key_shown v s succ st in
        let z : s.zero_level ≡ v.zero_level = ap (λ (w : View V). w.zero_level) st.shown in
        elim (Bool-cases (key == (s.nodes succ).key)) [
          | inl same ↦ rw same (
              returns (
                st,
                (
                  succ,
                  refl,
                  b.follows.live,
                  (λ _. omega (arith, ==→eq key (s.nodes succ).key same)),
                  λ n. cc,
                ),
              ))
          | inr other ↦ elim (Bool-cases (ltb v.zero_level level)) [
            | inl more ↦ rw other (rest (ltb→lt v.zero_level level more))
            | inr last ↦
                let bottom : level ≡ v.zero_level = omega (arith, ltb→le v.zero_level level last) in
                let lt : key < v.key succ = omega (arith, ==→ne key (s.nodes succ).key other) in
                rw (other, find_levels_end level pred (some succ) s (omega arith))
                  (returns (
                    st,
                    (
                      succ,
                      refl,
                      b.follows.live,
                      (λ n. cc),
                      λ _. (subst (λ l. Between v key l pred succ) bottom b, lt, omega arith),
                    ),
                  ))
          ]
        ]

    find_levels-Found :
        (n pred : ℕ) (succ : Option ℕ) (s : FlexList V)
        → StandsFor v s
        → v.zero_level < n
        → pred < v.size
        → v.key pred < key
        → n ≤ suc (v.top pred)
        → Returns Found (find_levels n key pred succ s)
    unfolding find_levels
    find_levels-Found zero pred succ s st le live lt wide = absurd (omega arith)
    find_levels-Found (suc level) pred succ s st le live lt wide =
        let z : s.zero_level ≡ v.zero_level = ap (λ (w : View V). w.zero_level) st.shown in
        let go : leb s.zero_level level ≡ true = ground arith in
        let (q, e, fq) = linked.links pred level live (omega arith) (omega arith) (omega arith) in
        rw go (
          Returns-bind
            (lower_to-Lowered v pred level (record s { path_lengths = s.path_lengths + 1 })
              (counted v s st) (omega arith) live)
            λ s₁ w₁. rw (read_next-done v s₁ pred level q w₁.stands w₁.reached e) (
              Returns-bind (lower_to-Lowered v q level s₁ w₁.stands (omega arith) fq.live) λ s₂ w₂.
                Returns-bind
                  (find_walk-Stops (key + 1) level pred q s₂ w₂.stands (omega arith)
                    (record { live = live; before = lt; wide = omega arith; follows = fq })
                    (le_trans (w₂.kept pred) w₁.reached) w₂.reached (omega arith) (omega arith))
                  λ (pred', succ', s₃) stops.
                    find_round level pred' succ' s₃ stops (omega arith) λ more.
                      find_levels-Found level pred' (some succ') s₃ stops.0 more stops.1.live
                        stops.1.before (omega (arith, stops.1.wide))))

    -- From a list that stands for a linked view, for a key above that of `head` and at most that of
    -- `tail`, `find` returns and changes nothing that the list stands for.
    pub find-Found :
        (s : FlexList V) → StandsFor v s → v.key head < key → Returns Found (find key s)
    unfolding find
    find-Found s st lt =
        let top = ap (λ (w : View V). w.highest) st.shown in
        find_levels-Found s.highest head none s st (omega (arith, linked.shallow))
          (omega (arith, linked.sized)) lt (omega (arith, linked.head_top))
