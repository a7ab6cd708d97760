-- ===== src/FlexSeq/View/Risen.antt =====
-- A node rises by one level: the links stay those of the nodes that follow each other.
use native.Mathlib.Nat.{le_trans}
use splaylist.Base.{
  ℕ, ◌+◌, ◌≤◌, ◌<◌, ◌≡◌, ◌≢◌, ◌∙◌, ap, some, arith, ◌==◌, ltb, if◌then◌else◌, Bool-cases, inl, inr,
  ltb→lt, ltb→le, ==→eq, ==→ne, trichotomy,
}
use splaylist.FlexSeq.State.{head, tail, upd}
use splaylist.FlexSeq.View.{View, Follows, IsLinked}

module _ {ℓ} {V : Type ℓ} where
  -- The view after `cur`, of height `c`, has risen behind `pp`.
  abbrev pub risen : View V → ℕ → ℕ → ℕ → View V
  risen v pp cur c = record v {
    top = upd v.top cur (c + 1);
    link = λ p h.
        if h == c + 1
        then (if p == cur then v.link pp (c + 1) else if p == pp then some cur else v.link p h)
        else v.link p h;
  }

  -- Where a node may rise: `cur` follows `pp` at some level, reaches `c`, and `pp` reaches further.
  pub record MayRise (v : View V) (pp cur c : ℕ) : Type 0 where
    pub from : ℕ
    pub live : pp < v.size
    pub follows : Follows v from pp cur
    pub low : v.zero_level ≤ from
    pub deep : from ≤ c
    pub height : v.top cur ≡ c
    pub room : c < v.top pp
    pub limit : c + 1 < v.highest

  module _ (v : View V) (linked : IsLinked v) (pp cur c : ℕ) (m : MayRise v pp cur c) where
    cur-ne-pp : cur ≢ pp
    cur-ne-pp e = absurd (omega (arith, m.follows.above, ap v.key e))

    cur-lt-tail : v.key cur < v.key tail
    cur-lt-tail = elim (Bool-cases (cur == tail)) [
      | inl e ↦
          absurd (omega (arith, ap v.top (==→eq cur tail e), m.height, m.limit, linked.tail_top))
      | inr n ↦ elim (Bool-cases (v.key cur == v.key tail)) [
        | inl e ↦ absurd (
            ==→ne cur tail n
              (linked.keys cur tail m.follows.live linked.sized (==→eq (v.key cur) (v.key tail) e)))
        | inr k ↦
            omega (arith, ==→ne (v.key cur) (v.key tail) k, linked.below_tail cur m.follows.live)
      ]
    ]

    least_risen :
        (h p q : ℕ)
        → Follows v h p q
        → (h ≡ c + 1 → v.key p < v.key cur → v.key q ≤ v.key cur)
        → (r : ℕ) → r < v.size
        → v.key p < v.key r
        → h ≤ (risen v pp cur c).top r
        → v.key q ≤ v.key r
    least_risen h p q f extra r live lt top = elim (Bool-cases (r == cur)) [
      | inl e ↦
          let same = ap v.key (==→eq r cur e) in
          let high : h ≤ c + 1 = ground arith in
          elim (Bool-cases (ltb c h)) [
            | inl over ↦
                le_trans (extra (omega (arith, ltb→lt c h over)) (omega arith)) (omega arith)
            | inr under ↦
                f.least r live lt
                  (omega (arith, ltb→le c h under, m.height, ap v.top (==→eq r cur e)))
          ]
      | inr n ↦ let same : h ≤ v.top r = ground arith in f.least r live lt same
    ]

    pub Follows-risen :
        (h p q : ℕ)
        → Follows v h p q
        → (h ≡ c + 1 → v.key p < v.key cur → v.key q ≤ v.key cur)
        → Follows (risen v pp cur c) h p q
    Follows-risen h p q f extra = record {
      live = f.live;
      above = f.above;
      reaches = ground (arith, f.reaches, m.height);
      least = λ r live lt top. least_risen h p q f extra r live lt top;
    }

    -- The node that follows `pp` at the new level comes after `cur`.
    beyond : (q : ℕ) → Follows v (c + 1) pp q → v.key cur < v.key q
    beyond q f =
        let le = m.follows.least q f.live f.above (le_trans m.deep (omega (arith, f.reaches))) in
        elim (Bool-cases (v.key cur == v.key q)) [
          | inl e ↦ absurd (
              omega (
                arith,
                f.reaches,
                m.height,
                ap v.top (linked.keys cur q m.follows.live f.live (==→eq (v.key cur) (v.key q) e)),
              ))
          | inr n ↦ omega (arith, ==→ne (v.key cur) (v.key q) n)
        ]

    -- What a live node links to at a level, in the new view.
    abbrev Linked : ℕ → ℕ → Type 0
    Linked p h = (q : ℕ) × ((risen v pp cur c).link p h ≡ some q) × Follows (risen v pp cur c) h p q

    top_risen : (r : ℕ) → r ≢ cur → (risen v pp cur c).top r ≡ v.top r
    top_risen r n = ground arith

    Follows-cur :
        (p h q : ℕ)
        → p ≡ cur
        → h ≡ c + 1
        → Follows v (c + 1) pp q
        → Follows (risen v pp cur c) h p q
    Follows-cur p h q e eh f = record {
      live = f.live;
      above = omega (arith, beyond q f, ap v.key e);
      reaches = ground (arith, f.reaches);
      least = λ r live lt top. elim (Bool-cases (r == cur)) [
        | inl same ↦ absurd (omega (arith, ap v.key e, ap v.key (==→eq r cur same)))
        | inr n ↦
            f.least r live (omega (arith, ap v.key e, m.follows.above))
              (omega (arith, top_risen r (==→ne r cur n)))
      ];
    }

    Linked-cur : (p h : ℕ) → p ≡ cur → h ≡ c + 1 → Linked p h
    Linked-cur p h e eh =
        let (q, lq, f) =
          linked.links pp (c + 1) m.live
            (omega (arith, m.follows.above, linked.below_tail cur m.follows.live))
            (omega (arith, m.low, m.deep)) (omega (arith, m.room)) in
        (q, ground arith, Follows-cur p h q e eh f)

    Linked-pp : (p h : ℕ) → p ≡ pp → h ≡ c + 1 → Linked p h
    Linked-pp p h e eh = (
      cur,
      ground (arith, cur-ne-pp),
      record {
        live = m.follows.live;
        above = omega (arith, m.follows.above, ap v.key e);
        reaches = ground arith;
        least = λ r live lt top. elim (Bool-cases (r == cur)) [
          | inl same ↦ omega (arith, ap v.key (==→eq r cur same))
          | inr n ↦
              m.follows.least r live (omega (arith, ap v.key e))
                (omega (arith, m.deep, top_risen r (==→ne r cur n)))
        ];
      },
    )

    -- At the new level the others pass by `cur` as they did.
    passes :
        (p q h : ℕ)
        → p < v.size
        → p ≢ pp
        → Follows v h p q
        → h ≤ v.top p
        → h ≡ c + 1
        → v.key p < v.key cur
        → v.key q ≤ v.key cur
    passes p q h live ne f wide eh lt = elim (trichotomy (v.key p) (v.key pp)) [
      | inl before ↦
          le_trans (f.least pp m.live before (omega (arith, m.room)))
            (omega (arith, m.follows.above))
      | inr (inl same) ↦ absurd (ne (linked.keys p pp live m.live same))
      | inr (inr after) ↦
          absurd (omega (arith, m.follows.least p live after (omega (arith, m.deep))))
    ]

    Linked-other :
        (p h : ℕ)
        → p < v.size
        → v.key p < v.key tail
        → v.zero_level ≤ h
        → h ≤ v.top p
        → (h ≡ c + 1 → (p ≢ cur) × (p ≢ pp))
        → Linked p h
    Linked-other p h live lt low wide other =
        let (q, lq, f) = linked.links p h live lt low wide in
        (
          q,
          ground (arith, lq, other),
          Follows-risen h p q f λ eh. passes p q h live (other eh).1 f wide eh,
        )

    links-risen :
        (p h : ℕ)
        → p < v.size
        → v.key p < v.key tail
        → v.zero_level ≤ h
        → h ≤ (risen v pp cur c).top p
        → Linked p h
    links-risen p h live lt low wide = elim (Bool-cases (h == c + 1)) [
      | inl new ↦ elim (Bool-cases (p == cur)) [
        | inl e ↦ Linked-cur p h (==→eq p cur e) (==→eq h (c + 1) new)
        | inr n ↦ elim (Bool-cases (p == pp)) [
          | inl e ↦ Linked-pp p h (==→eq p pp e) (==→eq h (c + 1) new)
          | inr k ↦
              Linked-other p h live lt low (omega (arith, top_risen p (==→ne p cur n)))
                λ _. (==→ne p cur n, ==→ne p pp k)
        ]
      ]
      | inr old ↦
          Linked-other p h live lt low (ground (arith, m.height))
            λ e. absurd (==→ne h (c + 1) old e)
    ]

    pub risen-IsLinked : IsLinked (risen v pp cur c)
    risen-IsLinked = record {
      sized = linked.sized;
      shallow = linked.shallow;
      head_top =
          top_risen head
            (λ e. absurd (omega (arith, ap v.top e, m.height, m.limit, linked.head_top)))
          ∙ linked.head_top;
      tail_top =
          top_risen tail
            (λ e. absurd (omega (arith, ap v.top e, m.height, m.limit, linked.tail_top)))
          ∙ linked.tail_top;
      low = λ p live. ground (arith, linked.low p live, m.height);
      keys = linked.keys;
      above_head = linked.above_head;
      below_tail = linked.below_tail;
      links = links-risen;
    }
