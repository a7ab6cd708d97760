-- ===== src/SkipLazy/Shape/Inserted.antt =====
-- A new node at several levels: the links are right again.
use mathlib.Core.Path.{subst}
use splaylist.Base.{
  ℕ, ◌+◌, ◌≤◌, ◌<◌, ◌≡◌, ◌≢◌, ◌∙◌, refl, sym, true, false, Option, some, arith, ◌==◌, leb,
  Bool-cases, inl, inr, ==→eq, ==→ne, ◌&&◌, trichotomy,
}
use splaylist.Base.Memory.{upd, upd-same, upd-other}
use splaylist.SkipLazy.State.{max_level, head, tail}
use splaylist.SkipLazy.Shape.{Shape, Follows, IsLinked, Between, IsAbsent}

-- The shape with one more node of the height `t`, and the links `link`.
abbrev pub inserted : Shape → ℕ → ℕ → (ℕ → ℕ → Option ℕ) → Shape
inserted w t key link = record {
  size = w.size + 1;
  key = upd w.key w.size key;
  top = upd w.top w.size t;
  link = link;
  linked = upd (upd w.linked w.size false) w.size true;
  marked = upd w.marked w.size false;
}

-- The links of the new node and to it, up to the height `t`; the others stay.
pub record AreSpliced (w : Shape) (t : ℕ) (preds succs : ℕ → ℕ) (link : ℕ → ℕ → Option ℕ)
    : Type 0 where
  pub to_new : (l : ℕ) → l ≤ t → link (preds l) l ≡ some w.size
  pub from_new : (l : ℕ) → l ≤ t → link w.size l ≡ some (succs l)
  pub kept : (p l : ℕ) → p ≢ w.size → (l ≤ t → p ≢ preds l) → link p l ≡ w.link p l

module _ (w : Shape) (linked : IsLinked w) (t key : ℕ) (preds succs : ℕ → ℕ)
    (link : ℕ → ℕ → Option ℕ) (height : t ≤ max_level)
    (between : (l : ℕ) → l ≤ t → Between w key l (preds l) (succs l)) (absent : IsAbsent w key)
    (spliced : AreSpliced w t preds succs link) where
  abbrev new : Shape
  new = inserted w t key link

  key_old : (r : ℕ) → r ≢ w.size → new.key r ≡ w.key r
  key_old r n = upd-other w.key w.size key r n

  key_new : (r : ℕ) → r ≡ w.size → new.key r ≡ key
  key_new r e = upd-same w.key w.size key r e

  top_old : (r : ℕ) → r ≢ w.size → new.top r ≡ w.top r
  top_old r n = upd-other w.top w.size t r n

  top_new : (r : ℕ) → r ≡ w.size → new.top r ≡ t
  top_new r e = upd-same w.top w.size t r e

  old_live : (r : ℕ) → r < new.size → r ≢ w.size → r < w.size
  old_live r live n = omega (arith, live)

  -- The key behind the new node is greater.
  after : (l : ℕ) → l ≤ t → key < w.key (succs l)
  after l le =
      let b = between l le in
      elim (Bool-cases (w.key (succs l) == key)) [
        | inl e ↦ absurd (absent (succs l) b.follows.live (==→eq (w.key (succs l)) key e))
        | inr n ↦ omega (arith, b.at_most, ==→ne (w.key (succs l)) key n)
      ]

  abbrev Linked : ℕ → ℕ → Type 0
  Linked p l = (q : ℕ) × (new.link p l ≡ some q) × Follows new l p q

  -- An old node that is followed by `q` still is, if the new node does not lie between.
  Follows-inserted :
      (l p q : ℕ)
      → p < w.size
      → Follows w l p q
      → (l ≤ t → w.key p < key → w.key q ≤ key)
      → Follows new l p q
  Follows-inserted l p q live f extra =
      let p_old = key_old p (omega arith) in
      let q_old = key_old q (omega (arith, f.live)) in
      record {
        live = omega (arith, f.live);
        above = omega (arith, f.above);
        reaches = omega (arith, f.reaches, top_old q (omega (arith, f.live)));
        least = λ r lr lt top. elim (Bool-cases (r == w.size)) [
          | inl e ↦
              let at = ==→eq r w.size e in
              omega (
                arith,
                extra (omega (arith, top_new r at)) (omega (arith, key_new r at)),
                key_new r at,
              )
          | inr n ↦
              let other = ==→ne r w.size n in
              omega (
                arith,
                f.least r (old_live r lr other) (omega (arith, key_old r other))
                    (omega (arith, top_old r other)),
                key_old r other,
              )
        ];
      }

  Linked-new : (l : ℕ) → l ≤ t → Linked w.size l
  Linked-new l le =
      let b = between l le in
      let f = b.follows in
      let q_old = key_old (succs l) (omega (arith, f.live)) in
      let at = key_new w.size refl in
      (
        succs l,
        spliced.from_new l le,
        record {
          live = omega (arith, f.live);
          above = omega (arith, after l le);
          reaches = omega (arith, f.reaches, top_old (succs l) (omega (arith, f.live)));
          least = λ r lr lt top. elim (Bool-cases (r == w.size)) [
            | inl same ↦ absurd (omega (arith, key_new r (==→eq r w.size same)))
            | inr n ↦
                let k = ==→ne r w.size n in
                omega (
                  arith,
                  key_old r k,
                  f.least r (old_live r lr k) (omega (arith, key_old r k, b.before))
                      (omega (arith, top_old r k)),
                )
          ];
        },
      )

  Linked-pred : (l : ℕ) → l ≤ t → Linked (preds l) l
  Linked-pred l le =
      let b = between l le in
      let f = b.follows in
      let p_old = key_old (preds l) (omega (arith, b.live)) in
      let at = key_new w.size refl in
      (
        w.size,
        spliced.to_new l le,
        record {
          live = omega arith;
          above = omega (arith, b.before);
          reaches = omega (arith, top_new w.size refl);
          least = λ r lr lt top. elim (Bool-cases (r == w.size)) [
            | inl same ↦ omega (arith, key_new r (==→eq r w.size same))
            | inr n ↦
                let k = ==→ne r w.size n in
                omega (
                  arith,
                  key_old r k,
                  b.at_most,
                  f.least r (old_live r lr k) (omega (arith, key_old r k))
                      (omega (arith, top_old r k)),
                )
          ];
        },
      )

  -- The new node lies behind `preds` only.
  passes :
      (l p q : ℕ)
      → p < w.size
      → (l ≤ t → p ≢ preds l)
      → l ≤ w.top p
      → Follows w l p q
      → l ≤ t
      → w.key p < key
      → w.key q ≤ key
  passes l p q live ne wide f le lt =
      let b = between l le in
      elim (trichotomy (w.key p) (w.key (preds l))) [
        | inl before ↦ omega (arith, f.least (preds l) b.live before b.wide, b.before)
        | inr (inl same) ↦ absurd (ne le (linked.keys p (preds l) live b.live same))
        | inr (inr behind) ↦ absurd (omega (arith, b.follows.least p live behind wide, b.at_most))
      ]

  Linked-old :
      (p l : ℕ)
      → p < w.size
      → w.key p < w.key tail
      → l ≤ w.top p
      → (l ≤ t → p ≢ preds l)
      → Linked p l
  Linked-old p l live lt wide other =
      let (q, lq, f) = linked.links p l live lt wide in
      let old : p ≢ w.size = λ e. absurd (omega arith) in
      (
        q,
        spliced.kept p l old other ∙ lq,
        Follows-inserted l p q live f λ le k. passes l p q live other wide f le k,
      )

  links-inserted : (p l : ℕ) → p < new.size → new.key p < new.key tail → l ≤ new.top p → Linked p l
  links-inserted p l live lt wide =
      let tail_old = key_old tail (omega (arith, linked.sized)) in
      elim (Bool-cases (p == w.size)) [
        | inl e ↦
            let at = ==→eq p w.size e in
            subst (λ x. Linked x l) (sym at) (Linked-new l (omega (arith, top_new p at)))
        | inr n ↦
            let k = ==→ne p w.size n in
            let lt' : w.key p < w.key tail = omega (arith, key_old p k) in
            let wide' : l ≤ w.top p = omega (arith, top_old p k) in
            elim (Bool-cases (leb l t && (p == preds l))) [
              | inl same ↦
                  let at : p ≡ preds l = ground arith in
                  subst (λ x. Linked x l) (sym at) (Linked-pred l (ground arith))
              | inr other ↦
                  Linked-old p l (old_live p live k) lt' wide' λ le e. absurd (ground arith)
            ]
      ]

  keys-inserted : (p q : ℕ) → p < new.size → q < new.size → new.key p ≡ new.key q → p ≡ q
  keys-inserted p q lp lq e = elim (Bool-cases (p == w.size)) [
    | inl a ↦
        let pa = ==→eq p w.size a in
        elim (Bool-cases (q == w.size)) [
          | inl b ↦ pa ∙ sym (==→eq q w.size b)
          | inr n ↦
              let k = ==→ne q w.size n in
              absurd (absent q (old_live q lq k) (sym (key_old q k) ∙ sym e ∙ key_new p pa))
        ]
    | inr m ↦
        let j = ==→ne p w.size m in
        elim (Bool-cases (q == w.size)) [
          | inl b ↦
              absurd
                (absent p (old_live p lp j) (sym (key_old p j) ∙ e ∙ key_new q (==→eq q w.size b)))
          | inr n ↦
              let k = ==→ne q w.size n in
              linked.keys p q (old_live p lp j) (old_live q lq k)
                (sym (key_old p j) ∙ e ∙ key_old q k)
        ]
  ]

  pub inserted-IsLinked : w.key head < key → IsLinked new
  inserted-IsLinked above =
      let not_head : head ≢ w.size = λ e. absurd (omega (arith, linked.sized)) in
      let not_tail : tail ≢ w.size = λ e. absurd (omega (arith, linked.sized)) in
      let h_old = key_old head not_head in
      let t_old = key_old tail not_tail in
      record {
        sized = omega (arith, linked.sized);
        head_top = top_old head not_head ∙ linked.head_top;
        tail_top = top_old tail not_tail ∙ linked.tail_top;
        keys = keys-inserted;
        above_head = λ p live. elim (Bool-cases (p == w.size)) [
          | inl e ↦ omega (arith, key_new p (==→eq p w.size e))
          | inr n ↦
              let k = ==→ne p w.size n in
              omega (arith, key_old p k, linked.above_head p (old_live p live k))
        ];
        below_tail = λ p live. elim (Bool-cases (p == w.size)) [
          | inl e ↦
              let b = between 0 (omega arith) in
              omega (
                arith,
                key_new p (==→eq p w.size e),
                b.at_most,
                linked.below_tail (succs 0) b.follows.live,
              )
          | inr n ↦
              let k = ==→ne p w.size n in
              omega (arith, key_old p k, linked.below_tail p (old_live p live k))
        ];
        unmarked = λ p live. elim (Bool-cases (p == w.size)) [
          | inl e ↦ rw e refl
          | inr n ↦ rw n (linked.unmarked p (old_live p live (==→ne p w.size n)))
        ];
        is_linked = λ p live low high. elim (Bool-cases (p == w.size)) [
          | inl e ↦ rw e refl
          | inr n ↦
              let k = ==→ne p w.size n in
              rw n (
                linked.is_linked p (old_live p live k) (omega (arith, key_old p k))
                  (omega (arith, key_old p k)))
        ];
        links = links-inserted;
      }
