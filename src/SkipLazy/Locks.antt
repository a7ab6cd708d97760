-- ===== src/SkipLazy/Locks.antt =====
-- The locks of an insertion: each is free when it is taken, and all are given back.
use mathlib.Core.Path.{subst}
use splaylist.Base.{
  ℕ, zero, suc, ◌+◌, ◌-◌, ◌≤◌, ◌<◌, ◌≡◌, ◌≢◌, ◌∙◌, refl, ap, sym, Bool, true, false, Option, none,
  some, arith, ◌==◌, ltb, if◌then◌else◌, Bool-cases, inl, inr, ltb→lt, ltb→le, ==→eq, ==→ne,
  ==_self, ◌⊎◌,
}
use splaylist.Base.Memory.{upd, upd-other}
use splaylist.Base.Run.{done, Returns, returns, Returns-bind, Returns-if}
use splaylist.SkipLazy.State.{SkipList, acquire_lock, tail}
use splaylist.SkipLazy.Search.{Places}
use splaylist.SkipLazy.Change.{lock_levels, is_new_pred, is_valid}
use splaylist.SkipLazy.Shape.{Shape, shape, IsLinked, Between}

-- The list with other locks.
abbrev pub with_locks : SkipList → (ℕ → Bool) → SkipList
with_locks s lock = record s { nodes = record (s.nodes) { lock = lock } }

-- `pred` is linked to the node behind the key.
pub link-Between :
    (w : Shape) (key l p q : ℕ)
    → IsLinked w
    → key ≤ w.key tail
    → Between w key l p q
    → w.link p l ≡ some q
link-Between w key l p q linked below b =
    let (r, e, f) = linked.links p l b.live (omega (arith, b.before)) b.wide in
    let k : w.key r ≡ w.key q = omega (
      arith,
      f.least q b.follows.live b.follows.above b.follows.reaches,
      b.follows.least r f.live f.above f.reaches,
    ) in
    e ∙ ap (λ x. some x) (linked.keys r q f.live b.follows.live k)

-- Further down `pred` is no earlier.
preds_mono :
    (w : Shape) (key m l p q p' q' : ℕ)
    → l ≤ m
    → Between w key m p q
    → Between w key l p' q'
    → w.key p ≤ w.key p'
preds_mono w key m l p q p' q' le b b' = elim (Bool-cases (ltb (w.key p') (w.key p))) [
  | inl lt ↦ absurd (
      omega (
        arith,
        b'.follows.least p b.live (ltb→lt (w.key p') (w.key p) lt) (omega (arith, b.wide)),
        b'.at_most,
        b.before,
      ))
  | inr le ↦ ltb→le (w.key p') (w.key p) le
]

links_to-hit :
    (o : Option ℕ) (q : ℕ) → o ≡ some q → (elim o [ none ↦ false | some r ↦ r == q ]) ≡ true
links_to-hit o q e =
    subst (λ x. (elim x [ none ↦ false | some r ↦ r == q ]) ≡ true) (sym e) (==_self q)

pub old-eq :
    (level : ℕ) (preds : ℕ → ℕ)
    → is_new_pred level preds ≡ false
    → (j : ℕ) × (suc j ≡ level) × (preds level ≡ preds j)
old-eq level preds old = (level - 1, ground arith, ground arith)

module _ (s : SkipList) (linked : IsLinked (shape s)) (key top : ℕ) (below : key ≤ s.nodes.key tail)
    (r : Places)
    (between : (l : ℕ) → l ≤ top → Between (shape s) key l (r.preds l) (r.succs l)) where
  -- The locks that are held are those of `preds` below `level`.
  pub record AreHeld (level : ℕ) (lock : ℕ → Bool) : Type 0 where
    pub held : (p : ℕ) → p < s.size → (lock p ≡ false) ⊎ ((j : ℕ) × (j < level) × (p ≡ r.preds j))
    pub free :
        (p : ℕ)
        → p < s.size
        → ((j : ℕ) → suc j ≡ level → s.nodes.key p < s.nodes.key (r.preds j))
        → lock p ≡ false

  is_valid-here :
      (level : ℕ) (lock : ℕ → Bool)
      → level ≤ top
      → is_valid (r.preds level) level (r.succs level) (with_locks s lock) ≡ true
  is_valid-here level lock le =
      let b = between level le in
      rw (linked.unmarked (r.preds level) b.live, linked.unmarked (r.succs level) b.follows.live)
        (links_to-hit (s.nodes.next (r.preds level) level) (r.succs level)
          (link-Between (shape s) key level (r.preds level) (r.succs level) linked below b))

  new-lt :
      (level : ℕ)
      → level ≤ top
      → is_new_pred level r.preds ≡ true
      → (j : ℕ) → suc j ≡ level
      → s.nodes.key (r.preds level) < s.nodes.key (r.preds j)
  new-lt level le new j e =
      let b = between level le in
      let b' = between j (omega arith) in
      let mono =
        preds_mono (shape s) key level j (r.preds level) (r.succs level) (r.preds j) (r.succs j)
          (omega arith) b b' in
      elim (Bool-cases (s.nodes.key (r.preds level) == s.nodes.key (r.preds j))) [
        | inr n ↦ omega (arith, ==→ne (s.nodes.key (r.preds level)) (s.nodes.key (r.preds j)) n)
        | inl same ↦
            let eq =
              linked.keys (r.preds level) (r.preds j) b.live b'.live
                (==→eq (s.nodes.key (r.preds level)) (s.nodes.key (r.preds j)) same) in
            let at : level - 1 ≡ j = omega arith in absurd (ground (arith, ap r.preds at, eq))
      ]

  taken-AreHeld :
      (level : ℕ) (lock : ℕ → Bool)
      → level ≤ top
      → AreHeld level lock
      → AreHeld (level + 1) (upd lock (r.preds level) true)
  taken-AreHeld level lock le h = record {
    held = λ p live. elim (Bool-cases (p == r.preds level)) [
      | inl e ↦ inr (level, omega arith, ==→eq p (r.preds level) e)
      | inr n ↦ elim (h.held p live) [
        | inl off ↦ inl (upd-other lock (r.preds level) true p (==→ne p (r.preds level) n) ∙ off)
        | inr (j, lt, at) ↦ inr (j, omega arith, at)
      ]
    ];
    free = λ p live lt.
        let here = lt level (omega arith) in
        let other : p ≢ r.preds level = λ e. absurd (omega (arith, ap s.nodes.key e)) in
        upd-other lock (r.preds level) true p other
        ∙ h.free p live λ j e. omega (
          arith,
          preds_mono (shape s) key level j (r.preds level) (r.succs level) (r.preds j) (r.succs j)
              (omega arith) (between level le) (between j (omega arith)),
        );
  }

  same-AreHeld :
      (level : ℕ) (lock : ℕ → Bool)
      → level ≤ top
      → AreHeld level lock
      → is_new_pred level r.preds ≡ false
      → AreHeld (level + 1) lock
  same-AreHeld level lock le h old = record {
    held = λ p live. elim (h.held p live) [
      | inl off ↦ inl off
      | inr (j, lt, at) ↦ inr (j, omega arith, at)
    ];
    free = λ p live lt.
        let (i, ei, same) = old-eq level r.preds old in
        h.free p live λ j e.
          let ij : i ≡ j = omega arith in
          omega (
            arith,
            lt level (omega arith),
            ap s.nodes.key same,
            ap (λ x. s.nodes.key (r.preds x)) ij,
          );
  }

  -- The lock of `preds[level]` is free where it differs from the one before, and so before it.
  acquired :
      (level : ℕ) (lock : ℕ → Bool)
      → level ≤ top
      → AreHeld level lock
      → Returns
          (λ s'. (lock' : ℕ → Bool) × (s' ≡ with_locks s lock') × AreHeld (level + 1) lock')
          (if is_new_pred level r.preds
            then acquire_lock (r.preds level) (with_locks s lock)
            else done (with_locks s lock))
  unfolding acquire_lock
  acquired level lock le h =
      Returns-if (is_new_pred level r.preds)
        (λ new.
          rw (h.free (r.preds level) (between level le).live (new-lt level le new))
            (returns (upd lock (r.preds level) true, refl, taken-AreHeld level lock le h)))
        λ old. returns (lock, refl, same-AreHeld level lock le h old)

  pub lock_levels-AreHeld :
      (n level stop : ℕ) (lock : ℕ → Bool)
      → level + n ≡ stop
      → stop ≤ suc top
      → AreHeld level lock
      → Returns
          (λ (valid, locked, s').
            (valid ≡ true)
            × (locked ≡ stop)
            × ((lock' : ℕ → Bool) × (s' ≡ with_locks s lock') × AreHeld stop lock'))
          (lock_levels n level r (with_locks s lock))
  unfolding lock_levels
  lock_levels-AreHeld zero level stop lock e le h =
      let same : level ≡ stop = omega arith in
      returns (refl, same, (lock, refl, subst (λ l. AreHeld l lock) same h))
  lock_levels-AreHeld (suc n) level stop lock e le h =
      Returns-bind (acquired level lock (omega arith) h) λ s' (lock', es, h').
        subst
          (λ t.
            Returns
              (λ (valid, locked, s').
                (valid ≡ true)
                × (locked ≡ stop)
                × ((lock' : ℕ → Bool) × (s' ≡ with_locks s lock') × AreHeld stop lock'))
              (if is_valid (r.preds level) level (r.succs level) t
                then lock_levels n (level + 1) r t
                else done (false, level + 1, t)))
          (sym es)
          (rw (is_valid-here level lock' (omega arith))
            (lock_levels-AreHeld n (level + 1) stop lock' (omega arith) le h'))
