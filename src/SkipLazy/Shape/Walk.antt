-- ===== src/SkipLazy/Shape/Walk.antt =====
-- The walk along a level, and the public searches.
use mathlib.Core.Path.{subst}
use splaylist.Base.{
  ℕ, zero, suc, ◌+◌, ◌≤◌, ◌<◌, ◌≡◌, refl, sym, Option, none, some, arith, ◌==◌, ltb, if◌then◌else◌,
  Bool-cases, inl, inr, ltb→lt, ltb→le, ==→eq, ==→ne, ◌⊎◌,
}
use splaylist.Base.Run.{done, Returns, returns, Returns-bind, Returns-mono, Returns-if}
use splaylist.SkipLazy.State.{SkipList, max_level, head, tail, count_step}
use splaylist.SkipLazy.Search.{walk, walk_counted, search_levels}
use splaylist.SkipLazy.Shape.{
  shape, Follows, IsLinked, Between, IsAbsent, Between-IsAbsent, next_of,
}

-- The step from a node before the key.
next-Between :
    (s : SkipList) (key p q level : ℕ)
    → p < s.size
    → s.nodes.key p < key
    → level ≤ s.nodes.top_level p
    → Follows (shape s) level p q
    → (s.nodes.key q < key) ⊎ Between (shape s) key level p q
next-Between s key p q level live lt wide f = elim (Bool-cases (ltb (s.nodes.key q) key)) [
  | inl l ↦ inl (ltb→lt (s.nodes.key q) key l)
  | inr g ↦ inr (record {
    live = live;
    before = lt;
    wide = wide;
    follows = f;
    at_most = ltb→le (s.nodes.key q) key g;
  })
]

-- The list with other counts of steps.
abbrev pub counting : SkipList → (ℕ → ℕ) → SkipList
counting s l = record s { sum_lengths = l }

module _ (s : SkipList) (linked : IsLinked (shape s)) (key : ℕ)
    (below : key ≤ s.nodes.key tail) where
  -- A walk that starts before the key stops around it.
  pub walk-Between :
      (fuel level pred curr : ℕ)
      → curr < s.size
      → level ≤ s.nodes.top_level curr
      → (s.nodes.key curr < key) ⊎ Between (shape s) key level pred curr
      → 0 < fuel
      → key < s.nodes.key curr + fuel
      → Returns (λ (p, c). Between (shape s) key level p c) (walk fuel key level pred curr s)
  unfolding walk
  walk-Between zero level pred curr live wide b some_fuel fuel = absurd (omega arith)
  walk-Between (suc n) level pred curr live wide b some_fuel fuel =
      elim (Bool-cases (ltb (s.nodes.key curr) key)) [
        | inl more ↦
            let lt = ltb→lt (s.nodes.key curr) key more in
            let (q, e, f) = next_of s curr level linked live (omega arith) wide in
            rw (more, e)
              (walk-Between n level curr q f.live f.reaches
                (next-Between s key curr q level live lt wide f) (omega (arith, f.above))
                (omega (arith, f.above)))
        | inr stop ↦ rw stop (
            returns (elim b [
              | inl lt ↦ absurd (omega (arith, ltb→le (s.nodes.key curr) key stop))
              | inr at ↦ at
            ]))
      ]

-- The public searches walk the same way, and count.
walk_counted-Between :
    (fuel tid key level pred curr : ℕ) (s : SkipList)
    → IsLinked (shape s)
    → key ≤ s.nodes.key tail
    → curr < s.size
    → level ≤ s.nodes.top_level curr
    → (s.nodes.key curr < key) ⊎ Between (shape s) key level pred curr
    → 0 < fuel
    → key < s.nodes.key curr + fuel
    → Returns
        (λ (p, c, s'). Between (shape s) key level p c × ((l : ℕ → ℕ) × (s' ≡ counting s l)))
        (walk_counted fuel tid key level pred curr s)
unfolding walk_counted
walk_counted-Between zero tid key level pred curr s linked below live wide b some_fuel fuel =
    absurd (omega arith)
walk_counted-Between (suc n) tid key level pred curr s linked below live wide b some_fuel fuel =
    elim (Bool-cases (ltb (s.nodes.key curr) key)) [
      | inl more ↦
          let lt = ltb→lt (s.nodes.key curr) key more in
          let (q, e, f) = next_of s curr level linked live (omega arith) wide in
          rw (more, e)
            (walk_counted-Between n tid key level curr q (count_step tid s) linked below f.live
              f.reaches (next-Between s key curr q level live lt wide f) (omega (arith, f.above))
              (omega (arith, f.above)))
      | inr stop ↦ rw stop (
          returns (
            elim b [
              | inl lt ↦ absurd (omega (arith, ltb→le (s.nodes.key curr) key stop))
              | inr at ↦ at
            ],
            (s.sum_lengths, refl),
          ))
    ]

-- What a public search finds: the node with the key, or that there is none.
abbrev pub Searched : SkipList → ℕ → Option ℕ × SkipList → Type 0
Searched s key (o, s') =
    ((l : ℕ → ℕ) × (s' ≡ counting s l))
    × (((p : ℕ) × (o ≡ some p) × (p < s.size) × (s.nodes.key p ≡ key))
        ⊎ ((o ≡ none) × IsAbsent (shape s) key))

search_levels-Searched :
    (n tid key pred : ℕ) (s : SkipList)
    → IsLinked (shape s)
    → key ≤ s.nodes.key tail
    → pred < s.size
    → s.nodes.key pred < key
    → n ≤ suc (s.nodes.top_level pred)
    → (n ≡ 0 → IsAbsent (shape s) key)
    → Returns (Searched s key) (search_levels n tid key pred s)
unfolding search_levels
search_levels-Searched zero tid key pred s linked below live lt wide absent =
    returns ((s.sum_lengths, refl), inr (refl, absent refl))
search_levels-Searched (suc level) tid key pred s linked below live lt wide absent =
    Returns-bind
      (walk_counted-Between (key + 1) tid key level pred pred s linked below live (omega arith)
        (inl lt) (omega arith) (omega arith))
      λ (p, c, s') (b, (l, e)).
        subst
          (λ t.
            Returns (Searched s key)
              (if key == t.nodes.key c then done (some c, t) else search_levels level tid key p t))
          (sym e)
          (Returns-if (key == s.nodes.key c)
            (λ hit.
              returns
                ((l, refl), inl (c, refl, b.follows.live, sym (==→eq key (s.nodes.key c) hit))))
            λ miss.
              let ne = ==→ne key (s.nodes.key c) miss in
              Returns-mono
                (search_levels-Searched level tid key p (counting s l) linked below b.live b.before
                  (omega (arith, b.wide))
                  λ z.
                    Between-IsAbsent (shape s) key p c
                      (subst (λ h. Between (shape s) key h p c) z b) (λ k. ne (sym k)))
                λ (o, t) ((l', e'), found). ((l', e'), found))

pub search-Searched :
    (tid key top : ℕ) (s : SkipList)
    → IsLinked (shape s)
    → s.nodes.key head < key
    → key ≤ s.nodes.key tail
    → top ≤ max_level
    → Returns (Searched s key) (search_levels (top + 1) tid key head s)
search-Searched tid key top s linked above below le =
    search_levels-Searched (top + 1) tid key head s linked below (omega (arith, linked.sized)) above
      (omega (arith, linked.head_top)) (λ z. absurd (omega arith))
