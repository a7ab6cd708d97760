-- ===== src/FlexSeq/View/Fallen.antt =====
-- A node leaves its highest level, and the list gets one more level below: the links stay right.
use mathlib.Core.Path.{subst}
use native.Mathlib.Nat.{le_trans}
use splaylist.Base.{
  ℕ, suc, ◌-◌, ◌≤◌, ◌<◌, ◌≡◌, ◌≢◌, ◌∙◌, ap, sym, none, some, arith, ◌==◌, if◌then◌else◌, Bool-cases,
  inl, inr, ==→eq, ==→ne, trichotomy,
}
use splaylist.FlexSeq.State.{head, tail, upd}
use splaylist.FlexSeq.View.{View, Follows, IsLinked}

module _ {ℓ} {V : Type ℓ} where
  -- The view after `cur` has left level `h` behind `pred`.
  abbrev pub fallen : View V → ℕ → ℕ → ℕ → View V
  fallen v pred cur h = record v {
    top = upd v.top cur (h - 1);
    link = λ p l.
        if l == h
        then (if p == cur then none else if p == pred then v.link cur h else v.link p l)
        else v.link p l;
  }

  -- Where a node may fall: it follows `pred` at its highest level, which is not the lowest of all.
  pub record MayFall (v : View V) (pred cur h : ℕ) : Type 0 where
    pub live : pred < v.size
    pub wide : h ≤ v.top pred
    pub follows : Follows v h pred cur
    pub height : v.top cur ≡ h
    pub room : v.zero_level < h
    pub limit : v.key cur < v.key tail
    pub inner : h < v.highest

  module _ (v : View V) (linked : IsLinked v) (pred cur h : ℕ) (m : MayFall v pred cur h) where
    pub top_fallen : (r : ℕ) → r ≢ cur → (fallen v pred cur h).top r ≡ v.top r
    top_fallen r n = ground arith

    top_fallen-cur : (r : ℕ) → r ≡ cur → (fallen v pred cur h).top r ≡ h - 1
    top_fallen-cur r e = ground arith

    top_fallen-le : (r : ℕ) → (fallen v pred cur h).top r ≤ v.top r
    top_fallen-le r = elim (Bool-cases (r == cur)) [
      | inl e ↦ omega (arith, top_fallen-cur r (==→eq r cur e), ap v.top (==→eq r cur e), m.height)
      | inr n ↦ omega (arith, top_fallen r (==→ne r cur n))
    ]

    Follows-fallen :
        (l p q : ℕ) → Follows v l p q → (l ≡ h → q ≢ cur) → Follows (fallen v pred cur h) l p q
    Follows-fallen l p q f other = record {
      live = f.live;
      above = f.above;
      reaches = elim (Bool-cases (q == cur)) [
        | inl e ↦ elim (Bool-cases (l == h)) [
          | inl at ↦ absurd (other (==→eq l h at) (==→eq q cur e))
          | inr n ↦ omega (
            arith,
            top_fallen-cur q (==→eq q cur e),
            f.reaches,
            m.height,
            ap v.top (==→eq q cur e),
            ==→ne l h n,
          )
        ]
        | inr n ↦ omega (arith, f.reaches, top_fallen q (==→ne q cur n))
      ];
      least = λ r live lt top. f.least r live lt (le_trans top (top_fallen-le r));
    }

    abbrev Linked : ℕ → ℕ → Type 0
    Linked p l =
        (q : ℕ) × ((fallen v pred cur h).link p l ≡ some q) × Follows (fallen v pred cur h) l p q

    Follows-skip :
        (p q l : ℕ) → p ≡ pred → l ≡ h → Follows v h cur q → Follows (fallen v pred cur h) l p q
    Follows-skip p q l e el f =
        let n : q ≢ cur = λ same. absurd (omega (arith, f.above, ap v.key same)) in
        record {
          live = f.live;
          above = omega (arith, f.above, m.follows.above, ap v.key e);
          reaches = omega (arith, f.reaches, top_fallen q n);
          least = λ r live lt top. elim (Bool-cases (r == cur)) [
            | inl same ↦ absurd (omega (arith, top_fallen-cur r (==→eq r cur same), m.room))
            | inr k ↦
                let reach : h ≤ v.top r = omega (arith, top_fallen-le r) in
                let le = m.follows.least r live (omega (arith, ap v.key e)) reach in
                elim (Bool-cases (v.key cur == v.key r)) [
                  | inl same ↦ absurd (
                      ==→ne r cur k (
                        linked.keys r cur live m.follows.live
                          (sym (==→eq (v.key cur) (v.key r) same))))
                  | inr ne ↦ f.least r live (omega (arith, ==→ne (v.key cur) (v.key r) ne)) reach
                ]
          ];
        }

    Linked-pred : (p l : ℕ) → p ≡ pred → l ≡ h → Linked p l
    Linked-pred p l e el =
        let (q, lq, f) =
          linked.links cur h m.follows.live m.limit (omega (arith, m.room))
            (omega (arith, m.height)) in
        let n : pred ≢ cur = λ same. absurd (omega (arith, m.follows.above, ap v.key same)) in
        (q, ground arith, Follows-skip p q l e el f)

    -- No other node is followed by `cur` at its highest level.
    not_cur : (p q : ℕ) → p < v.size → p ≢ pred → h ≤ v.top p → Follows v h p q → q ≢ cur
    not_cur p q live ne wide f same = elim (trichotomy (v.key p) (v.key pred)) [
      | inl before ↦
          absurd (omega (arith, f.least pred m.live before m.wide, m.follows.above, ap v.key same))
      | inr (inl e) ↦ absurd (ne (linked.keys p pred live m.live e))
      | inr (inr after) ↦
          absurd (omega (arith, m.follows.least p live after wide, f.above, ap v.key same))
    ]

    links-fallen :
        (p l : ℕ)
        → p < v.size
        → v.key p < v.key tail
        → v.zero_level ≤ l
        → l ≤ (fallen v pred cur h).top p
        → Linked p l
    links-fallen p l live lt low wide =
        let (q, lq, f) = linked.links p l live lt low (le_trans wide (top_fallen-le p)) in
        elim (Bool-cases (l == h)) [
          | inr n ↦ (q, ground (arith, lq), Follows-fallen l p q f λ e. absurd (==→ne l h n e))
          | inl at ↦ elim (Bool-cases (p == pred)) [
            | inl e ↦ Linked-pred p l (==→eq p pred e) (==→eq l h at)
            | inr n ↦ elim (Bool-cases (p == cur)) [
              | inl e ↦
                  absurd (omega (arith, top_fallen-cur p (==→eq p cur e), m.room, ==→eq l h at))
              | inr k ↦ (
                q,
                ground (arith, lq),
                Follows-fallen l p q f λ el.
                    not_cur p q live (==→ne p pred n) (omega (arith, top_fallen-le p))
                      (subst (λ j. Follows v j p q) el f),
              )
            ]
          ]
        ]

    pub fallen-IsLinked : IsLinked (fallen v pred cur h)
    fallen-IsLinked = record {
      sized = linked.sized;
      shallow = linked.shallow;
      head_top =
          top_fallen head
            (λ e. absurd (omega (arith, ap v.top e, m.height, m.inner, linked.head_top)))
          ∙ linked.head_top;
      tail_top =
          top_fallen tail
            (λ e. absurd (omega (arith, ap v.top e, m.height, m.inner, linked.tail_top)))
          ∙ linked.tail_top;
      low = λ p live. ground (arith, linked.low p live, m.room);
      keys = linked.keys;
      above_head = linked.above_head;
      below_tail = linked.below_tail;
      links = links-fallen;
    }

  -- One more level below: each node links there as at the level above.
  abbrev pub deepened : View V → ℕ → View V
  deepened v z = record v { zero_level = z }

  pub deepened-IsLinked :
      (v : View V) (z : ℕ)
      → IsLinked v
      → v.zero_level ≡ suc z
      → ((p : ℕ) → p < v.size → v.link p z ≡ v.link p (suc z))
      → IsLinked (deepened v z)
  deepened-IsLinked v z linked e same = record {
    sized = linked.sized;
    shallow = omega (arith, linked.shallow);
    head_top = linked.head_top;
    tail_top = linked.tail_top;
    low = λ p live. omega (arith, linked.low p live);
    keys = linked.keys;
    above_head = linked.above_head;
    below_tail = linked.below_tail;
    links = λ p h live lt low wide. elim (Bool-cases (h == z)) [
      | inr n ↦
          let (q, lq, f) = linked.links p h live lt (omega (arith, ==→ne h z n)) wide in
          (q, lq, record { live = f.live; above = f.above; reaches = f.reaches; least = f.least })
      | inl at ↦
          let eh = ==→eq h z at in
          let (q, lq, f) =
            linked.links p (suc z) live lt (omega arith) (omega (arith, linked.low p live)) in
          (
            q,
            ap (v.link p) eh ∙ same p live ∙ lq,
            record {
              live = f.live;
              above = f.above;
              reaches = omega (arith, f.reaches);
              least = λ r l k t. f.least r l k (omega (arith, linked.low r l));
            },
          )
    ];
  }
