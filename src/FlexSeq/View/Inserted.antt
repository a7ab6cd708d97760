-- ===== src/FlexSeq/View/Inserted.antt =====
-- A new node at the lowest level: the links are right again.
use splaylist.Base.{
  ◌∙◌, sym, ℕ, ◌+◌, ◌≤◌, ◌<◌, ◌≡◌, ◌≢◌, refl, ap, none, some, arith, ◌==◌, leb, if◌then◌else◌,
  Bool-cases, inl, inr, ==→eq, ==→ne, trichotomy,
}
use splaylist.FlexSeq.State.{head, tail, upd}
use splaylist.FlexSeq.View.{View, Follows, IsLinked}
use splaylist.FlexSeq.View.Search.{Between}

module _ {ℓ} {V : Type ℓ} where
  -- The view with a new node between `pred` and `succ`.
  abbrev pub inserted : View V → ℕ → ℕ → ℕ → V → View V
  inserted v pred succ key value = record v {
    size = v.size + 1;
    key = upd v.key v.size key;
    value = upd v.value v.size value;
    top = upd v.top v.size v.zero_level;
    link = λ p l.
        if leb l v.zero_level
        then (if p == pred then some v.size else if p == v.size then some succ else v.link p l)
        else if p == v.size
        then none
        else v.link p l;
  }

  module _ (v : View V) (linked : IsLinked v) (key pred succ : ℕ) (value : V)
      (between : Between v key v.zero_level pred succ) (after : key < v.key succ) where
    abbrev new : View V
    new = inserted v pred succ key value

    pub key_old : (r : ℕ) → r ≢ v.size → new.key r ≡ v.key r
    key_old r n = ground arith

    key_new : (r : ℕ) → r ≡ v.size → new.key r ≡ key
    key_new r e = ground arith

    pub top_old : (r : ℕ) → r ≢ v.size → new.top r ≡ v.top r
    top_old r n = ground arith

    top_new : (r : ℕ) → r ≡ v.size → new.top r ≡ v.zero_level
    top_new r e = ground arith

    pub key_absent : (r : ℕ) → r < v.size → v.key r ≢ key
    key_absent r live same = absurd (
        omega
          (arith, between.follows.least r live (omega (arith, between.before)) (linked.low r live)))

    old_live : (r : ℕ) → r < new.size → r ≢ v.size → r < v.size
    old_live r live n = omega (arith, live)

    abbrev Linked : ℕ → ℕ → Type 0
    Linked p l = (q : ℕ) × (new.link p l ≡ some q) × Follows new l p q

    -- An old node that is followed by `q` still is, if the new node does not lie between.
    Follows-inserted :
        (l p q : ℕ)
        → p < v.size
        → Follows v l p q
        → (l ≤ v.zero_level → v.key p < key → v.key q ≤ key)
        → Follows new l p q
    Follows-inserted l p q live f extra =
        let p_old = key_old p (omega arith) in
        let q_old = key_old q (omega (arith, f.live)) in
        record {
          live = omega (arith, f.live);
          above = omega (arith, f.above);
          reaches = omega (arith, f.reaches, top_old q (omega (arith, f.live)));
          least = λ r lr lt top. elim (Bool-cases (r == v.size)) [
            | inl e ↦
                let at = ==→eq r v.size e in
                omega (
                  arith,
                  extra (omega (arith, top_new r at)) (omega (arith, key_new r at)),
                  key_new r at,
                )
            | inr n ↦
                let other = ==→ne r v.size n in
                omega (
                  arith,
                  f.least r (old_live r lr other) (omega (arith, key_old r other))
                      (omega (arith, top_old r other)),
                  key_old r other,
                )
          ];
        }

    Linked-new : (p l : ℕ) → p ≡ v.size → l ≡ v.zero_level → Linked p l
    Linked-new p l e el =
        let q_old = key_old succ (omega (arith, between.follows.live)) in
        let other : p ≢ pred = λ same. absurd (omega (arith, between.live)) in
        (
          succ,
          ground arith,
          record {
            live = omega (arith, between.follows.live);
            above = omega (arith, key_new p e);
            reaches = omega (
              arith,
              between.follows.reaches,
              top_old succ (omega (arith, between.follows.live)),
            );
            least = λ r lr lt top. elim (Bool-cases (r == v.size)) [
              | inl same ↦ absurd (omega (arith, key_new r (==→eq r v.size same), key_new p e))
              | inr n ↦
                  let k = ==→ne r v.size n in
                  omega (
                    arith,
                    key_old r k,
                    between.follows.least r (old_live r lr k)
                        (omega (arith, key_old r k, key_new p e, between.before))
                        (linked.low r (old_live r lr k)),
                  )
            ];
          },
        )

    Linked-pred : (p l : ℕ) → p ≡ pred → l ≡ v.zero_level → Linked p l
    Linked-pred p l e el =
        let p_old = key_old p (omega (arith, between.live)) in
        (
          v.size,
          ground arith,
          record {
            live = omega arith;
            above = omega (arith, key_new v.size refl, between.before, ap v.key e);
            reaches = omega (arith, top_new v.size refl);
            least = λ r lr lt top. elim (Bool-cases (r == v.size)) [
              | inl same ↦ omega (arith, key_new r (==→eq r v.size same), key_new v.size refl)
              | inr n ↦
                  let k = ==→ne r v.size n in
                  omega (
                    arith,
                    key_new v.size refl,
                    key_old r k,
                    between.follows.least r (old_live r lr k)
                        (omega (arith, key_old r k, ap v.key e)) (linked.low r (old_live r lr k)),
                  )
            ];
          },
        )

    -- The new node lies behind `pred` only.
    passes :
        (l p q : ℕ)
        → p < v.size
        → p ≢ pred
        → Follows v l p q
        → l ≤ v.zero_level
        → v.key p < key
        → v.key q ≤ key
    passes l p q live ne f le lt = elim (trichotomy (v.key p) (v.key pred)) [
      | inl before ↦ omega (
        arith,
        f.least pred between.live before
            (omega (arith, between.wide, linked.low pred between.live)),
        between.before,
      )
      | inr (inl same) ↦ absurd (ne (linked.keys p pred live between.live same))
      | inr (inr behind) ↦
          absurd (omega (arith, between.follows.least p live behind (linked.low p live)))
    ]

    Linked-old :
        (p l : ℕ)
        → p < v.size
        → v.key p < v.key tail
        → v.zero_level ≤ l
        → l ≤ v.top p
        → (l ≡ v.zero_level → p ≢ pred)
        → Linked p l
    Linked-old p l live lt low wide other =
        let (q, lq, f) = linked.links p l live lt low wide in
        let old : p ≢ v.size = λ e. absurd (omega arith) in
        (
          q,
          ground (arith, lq, other),
          Follows-inserted l p q live f λ le k. passes l p q live (other (omega arith)) f le k,
        )

    links-inserted :
        (p l : ℕ)
        → p < new.size
        → new.key p < new.key tail
        → new.zero_level ≤ l
        → l ≤ new.top p
        → Linked p l
    links-inserted p l live lt low wide =
        let tail_old = key_old tail (omega (arith, linked.sized)) in
        elim (Bool-cases (p == v.size)) [
          | inl e ↦ let at = ==→eq p v.size e in Linked-new p l at (omega (arith, top_new p at))
          | inr n ↦
              let k = ==→ne p v.size n in
              let lt' : v.key p < v.key tail = omega (arith, key_old p k) in
              let wide' : l ≤ v.top p = omega (arith, top_old p k) in
              elim (Bool-cases (p == pred)) [
                | inr other ↦
                    Linked-old p l (old_live p live k) lt' low wide' λ e. ==→ne p pred other
                | inl same ↦ elim (Bool-cases (l == v.zero_level)) [
                  | inl bottom ↦ Linked-pred p l (==→eq p pred same) (==→eq l v.zero_level bottom)
                  | inr up ↦
                      Linked-old p l (old_live p live k) lt' low wide'
                        λ e. absurd (==→ne l v.zero_level up e)
                ]
              ]
        ]

    keys-inserted : (p q : ℕ) → p < new.size → q < new.size → new.key p ≡ new.key q → p ≡ q
    keys-inserted p q lp lq e = elim (Bool-cases (p == v.size)) [
      | inl a ↦
          let pa = ==→eq p v.size a in
          elim (Bool-cases (q == v.size)) [
            | inl b ↦ pa ∙ sym (==→eq q v.size b)
            | inr n ↦
                let k = ==→ne q v.size n in
                absurd (key_absent q (old_live q lq k) (sym (key_old q k) ∙ sym e ∙ key_new p pa))
          ]
      | inr m ↦
          let j = ==→ne p v.size m in
          elim (Bool-cases (q == v.size)) [
            | inl b ↦ absurd (
                key_absent p (old_live p lp j)
                  (sym (key_old p j) ∙ e ∙ key_new q (==→eq q v.size b)))
            | inr n ↦
                let k = ==→ne q v.size n in
                linked.keys p q (old_live p lp j) (old_live q lq k)
                  (sym (key_old p j) ∙ e ∙ key_old q k)
          ]
    ]

    pub inserted-IsLinked : v.key head < key → IsLinked new
    inserted-IsLinked above =
        let h_old = key_old head (omega (arith, linked.sized)) in
        let t_old = key_old tail (omega (arith, linked.sized)) in
        record {
          sized = omega (arith, linked.sized);
          shallow = linked.shallow;
          head_top = top_old head (omega (arith, linked.sized)) ∙ linked.head_top;
          tail_top = top_old tail (omega (arith, linked.sized)) ∙ linked.tail_top;
          low = λ p live. elim (Bool-cases (p == v.size)) [
            | inl e ↦ omega (arith, top_new p (==→eq p v.size e))
            | inr n ↦
                let k = ==→ne p v.size n in
                omega (arith, top_old p k, linked.low p (old_live p live k))
          ];
          keys = keys-inserted;
          above_head = λ p live. elim (Bool-cases (p == v.size)) [
            | inl e ↦ omega (arith, key_new p (==→eq p v.size e))
            | inr n ↦
                let k = ==→ne p v.size n in
                omega (arith, key_old p k, linked.above_head p (old_live p live k))
          ];
          below_tail = λ p live. elim (Bool-cases (p == v.size)) [
            | inl e ↦
                omega
                  (arith, key_new p (==→eq p v.size e), linked.below_tail succ between.follows.live)
            | inr n ↦
                let k = ==→ne p v.size n in
                omega (arith, key_old p k, linked.below_tail p (old_live p live k))
          ];
          links = links-inserted;
        }
