-- ===== src/SkipLazy/Unlocks.antt =====
-- The loop that gives the locks back.
use splaylist.Base.{
  ℕ, zero, suc, ◌+◌, ◌≤◌, ◌<◌, ◌≡◌, ◌∙◌, refl, ap, Bool, false, arith, ◌==◌, Bool-cases, inl, inr,
  ==→eq, ==→ne, ◌⊎◌,
}
use splaylist.Base.Memory.{upd, upd-same, upd-other}
use splaylist.SkipLazy.State.{SkipList, release_lock}
use splaylist.SkipLazy.Search.{Places}
use splaylist.SkipLazy.Change.{unlock_levels, is_new_pred}
use splaylist.SkipLazy.Locks.{with_locks, old-eq}

-- The locks that are still to be given back, those of `preds` from `level` to below `stop`.
pub record AreOwed (size : ℕ) (r : Places) (level stop : ℕ) (lock : ℕ → Bool) : Type 0 where
  pub owed :
      (p : ℕ) → p < size → (lock p ≡ false) ⊎ ((j : ℕ) × (level ≤ j) × (j < stop) × (p ≡ r.preds j))
  pub given : (j : ℕ) → suc j ≡ level → lock (r.preds j) ≡ false

released-AreOwed :
    (size : ℕ) (r : Places) (level stop : ℕ) (lock : ℕ → Bool)
    → AreOwed size r level stop lock
    → AreOwed size r (level + 1) stop (upd lock (r.preds level) false)
released-AreOwed size r level stop lock o = record {
  owed = λ p live. elim (Bool-cases (p == r.preds level)) [
    | inl e ↦ inl (upd-same lock (r.preds level) false p (==→eq p (r.preds level) e))
    | inr n ↦
        let other = ==→ne p (r.preds level) n in
        elim (o.owed p live) [
          | inl off ↦ inl (upd-other lock (r.preds level) false p other ∙ off)
          | inr (j, low, high, at) ↦ elim (Bool-cases (j == level)) [
            | inl here ↦ absurd (other (at ∙ ap r.preds (==→eq j level here)))
            | inr further ↦ inr (j, omega (arith, ==→ne j level further), high, at)
          ]
        ]
  ];
  given = λ j e.
      let at : j ≡ level = omega arith in
      upd-same lock (r.preds level) false (r.preds j) (ap r.preds at);
}

same-AreOwed :
    (size : ℕ) (r : Places) (level stop : ℕ) (lock : ℕ → Bool)
    → is_new_pred level r.preds ≡ false
    → AreOwed size r level stop lock
    → AreOwed size r (level + 1) stop lock
same-AreOwed size r level stop lock old o =
    let (i, ei, same) = old-eq level r.preds old in
    let off = o.given i ei in
    record {
      owed = λ p live. elim (o.owed p live) [
        | inl off ↦ inl off
        | inr (j, low, high, at) ↦ elim (Bool-cases (j == level)) [
          | inl here ↦ inl (ap lock (at ∙ ap r.preds (==→eq j level here) ∙ same) ∙ off)
          | inr further ↦ inr (j, omega (arith, ==→ne j level further), high, at)
        ]
      ];
      given = λ j e. let at : j ≡ level = omega arith in ap lock (ap r.preds at ∙ same) ∙ off;
    }

-- Afterwards no lock is held.
pub unlock_levels-free :
    (n level stop : ℕ) (r : Places) (s : SkipList) (lock : ℕ → Bool)
    → level + n ≡ stop
    → AreOwed s.size r level stop lock
    → (lock' : ℕ → Bool) × (unlock_levels n level r (with_locks s lock) ≡ with_locks s lock')
      × ((p : ℕ) → p < s.size → lock' p ≡ false)
unfolding unlock_levels release_lock
unlock_levels-free zero level stop r s lock e o = (
  lock,
  refl,
  λ p live. elim (o.owed p live) [
    | inl free ↦ free
    | inr (j, low, high, at) ↦ absurd (omega arith)
  ],
)
unlock_levels-free (suc n) level stop r s lock e o = elim (Bool-cases (is_new_pred level r.preds)) [
  | inl new ↦ rw new (
      unlock_levels-free n (level + 1) stop r s (upd lock (r.preds level) false) (omega arith)
        (released-AreOwed s.size r level stop lock o))
  | inr old ↦ rw old (
      unlock_levels-free n (level + 1) stop r s lock (omega arith)
        (same-AreOwed s.size r level stop lock old o))
]
