-- ===== src/CbShared/Safety.antt =====
-- What holds in every state that the threads reach, from a valid tree whose lock is free.
use mathlib.Core.Path.{subst}
use splaylist.Base.{
  ℕ, ◌≡◌, ◌≢◌, ◌∙◌, refl, ap, sym, Bool, true, false, ◌||◌, List, [], inl, inr, Bool-cases, arith,
  some, ◌==◌,
}
use splaylist.CbTree.Tree.{Tree}
use splaylist.CbTree.Entries.{entries}
use splaylist.CbTree.Laws.{IsValid, find-lookup, insert_if_absent-lookup}
use splaylist.CbTree.NoRestructure.{search_no_restructure-lookup}
use splaylist.CbShared.RwLock.{RwLock, IsRwLock}
use splaylist.CbShared.State.{
  Shared, seen_by, seen_at, reads, inserts, Pc, idle, entered, wants_exclusive, restructuring,
  splaying, restructured, resets, wants_shared, reading, walking, has_read, found, wants_insert,
  inserting, placing, inserted, Event, is_writer, is_reader, is_waiting, snapshot,
}
use splaylist.CbShared.Steps.{
  Move, call_find, go_exclusive, go_shared, lock_exclusive, begin_restructure, begin_read,
  begin_insert, restructure, unlock_exclusive, reset, lock_shared, read, unlock_shared,
  return_found, return_present, go_insert, lock_insert, insert, unlock_insert, System, pick, Reach,
  here, later,
}
use splaylist.CbShared.Locked.{IsLocked, IsFresh, Move-IsLocked, Move-IsFresh, isolated}
use splaylist.CbShared.Linear.{IsSound, IsLegal, entries_after, Move-IsSound}

module _ (k : RwLock) (laws : IsRwLock k) (eps : ℕ) (test : ℕ → Shared → Bool) where
  -- Before any call.
  abbrev pub start : Shared → k.State → System k eps test
  start s l = record { shared = s; state = l; pc = λ i. Pc.idle; history = [] }

  -- Nobody holds the lock.
  abbrev pub IsFree : k.State → Type 0
  IsFree l = (i : ℕ) → (k.writes l i ≡ false) × (k.reads l i ≡ false)

  pub record Inv (d : ℕ) (xs : List (ℕ × ℕ)) (s : System k eps test) : Type 0 where
    pub locked : IsLocked k laws eps test s.state s.pc
    pub fresh : IsFresh k laws eps test s.pc s.shared.root
    pub sound : IsSound d xs s.shared s.history

  abbrev pub CanMove : ℕ → System k eps test → Pc → Type 0
  CanMove i s p =
      (t : Shared) × (l : k.State) × (q : Pc) × (es : List Event) × Move k eps test i s.shared
        s.state p t l q es

  module _ (s₀ : Shared) (l₀ : k.State) (valid : IsValid (seen_by 0 s₀)) (free : IsFree l₀) where
    start-Inv : Inv s₀.no_value (entries s₀.root) (start s₀ l₀)
    start-Inv = record {
      locked = record {
        writer = λ i. (free i).0;
        reader = λ i. (free i).1;
        alone = λ i j w n. absurd (cc ((free i).0, w));
      };
      fresh = λ j u e. absurd cc;
      sound = record { valid = valid; now = refl; legal = tt; default = refl };
    }

    pub Reach-Inv :
        {s : System k eps test}
        → Reach k eps test (start s₀ l₀) s
        → Inv s₀.no_value (entries s₀.root) s
    Reach-Inv here = start-Inv
    Reach-Inv (later {s} r (pick i m)) =
        let inv = Reach-Inv r in
        record {
          locked = Move-IsLocked k laws eps test s.pc inv.locked m;
          fresh = Move-IsFresh k laws eps test s.pc inv.locked inv.fresh m;
          sound =
              Move-IsSound k eps test s₀.no_value (entries s₀.root) s.history inv.sound
                (inv.fresh i) m;
        }

    -- Whatever the order of the steps, each settled call has the reply of a map that holds the entries
    -- of the tree at first and takes the settled calls one after the other, and the tree holds the
    -- entries of that map.
    pub Reach-IsLegal :
        {s : System k eps test}
        → Reach k eps test (start s₀ l₀) s
        → IsLegal s₀.no_value (entries s₀.root) s.history
          × (entries s.shared.root ≡ entries_after (entries s₀.root) s.history)
    Reach-IsLegal r = ((Reach-Inv r).sound.legal, (Reach-Inv r).sound.now)

    -- While a thread holds the lock, in every state that the threads reach, no step of another thread
    -- writes the tree.
    pub Reach-isolated :
        {s : System k eps test}
        → Reach k eps test (start s₀ l₀) s
        → (i j : ℕ) → i ≢ j
        → (is_writer (s.pc j) || is_reader (s.pc j)) ≡ true
        → {t : Shared} {l : k.State} {q : Pc} {es : List Event}
        → Move k eps test i s.shared s.state (s.pc i) t l q es
        → t.root ≡ s.shared.root
    Reach-isolated {s} r i j n h m =
        isolated k laws eps test s.pc j (Reach-Inv r).locked m n (ground arith)

    section-IsValid :
        (i : ℕ) (s : System k eps test) (d : ℕ) (xs : List (ℕ × ℕ))
        → Inv d xs s
        → (u : Tree ℕ) → snapshot (s.pc i) ≡ some u
        → IsValid (seen_at i u s.shared)
    section-IsValid i s d xs inv u e =
        let v = inv.sound.valid in
        subst (λ r. IsValid (seen_at i r s.shared)) (sym (inv.fresh i u e))
          (record { rooted = v.rooted; sorted = v.sorted })

    can_move :
        (i : ℕ) (s : System k eps test) (d : ℕ) (xs : List (ℕ × ℕ))
        → Inv d xs s
        → (p : Pc) → s.pc i ≡ p
        → (is_waiting p ≡ true → IsFree s.state)
        → CanMove i s p
    can_move i s d xs inv idle e w = (_, _, _, _, call_find 0)
    can_move i s d xs inv (entered g key) e w = elim (Bool-cases (test i s.shared)) [
      | inl y ↦ (_, _, _, _, go_exclusive y)
      | inr n ↦ (_, _, _, _, go_shared n)
    ]
    can_move i s d xs inv (wants_exclusive g key) e w =
        let f = w refl in
        let (l, m) = laws.can_exclude s.state i (λ j. (f j).0) (λ j. (f j).1) in
        (_, _, _, _, lock_exclusive m)
    can_move i s d xs inv (restructuring g key) e w = (_, _, _, _, begin_restructure)
    can_move i s d xs inv (splaying g key u) e w =
        let v = section-IsValid i s d xs inv u (ap snapshot e) in
        let (t, run, _, _, _, _) = find-lookup eps (seen_at i u s.shared) key v in
        (_, _, _, _, restructure run)
    can_move i s d xs inv (restructured g key v) e w =
        let (l, m) = laws.can_unexclude s.state i (inv.locked.writer i ∙ ap is_writer e) in
        (_, _, _, _, unlock_exclusive m)
    can_move i s d xs inv (resets g key v) e w = (_, _, _, _, reset)
    can_move i s d xs inv (wants_shared g key) e w =
        let f = w refl in
        let (l, m) = laws.can_share s.state i (λ j. (f j).0) in (_, _, _, _, lock_shared m)
    can_move i s d xs inv (reading g key) e w = (_, _, _, _, begin_read)
    can_move i s d xs inv (walking g key u) e w =
        let v = section-IsValid i s d xs inv u (ap snapshot e) in
        let (n, run, le) = search_no_restructure-lookup (seen_at i u s.shared) key v in
        (_, _, _, _, read run)
    can_move i s d xs inv (has_read g key v) e w =
        let (l, m) = laws.can_unshare s.state i (inv.locked.reader i ∙ ap is_reader e) in
        (_, _, _, _, unlock_shared m)
    can_move i s d xs inv (found reads key v) e w = (_, _, _, _, return_found)
    can_move i s d xs inv (found (inserts x) key v) e w =
        elim (Bool-cases (v == s.shared.no_value)) [
          | inl y ↦ (_, _, _, _, go_insert y)
          | inr n ↦ (_, _, _, _, return_present n)
        ]
    can_move i s d xs inv (wants_insert key x) e w =
        let f = w refl in
        let (l, m) = laws.can_exclude s.state i (λ j. (f j).0) (λ j. (f j).1) in
        (_, _, _, _, lock_insert m)
    can_move i s d xs inv (inserting key x) e w = (_, _, _, _, begin_insert)
    can_move i s d xs inv (placing key x u) e w =
        let v = section-IsValid i s d xs inv u (ap snapshot e) in
        let (p, run, rest) = insert_if_absent-lookup eps (seen_at i u s.shared) key x v in
        (_, _, _, _, insert run)
    can_move i s d xs inv (inserted key x v) e w =
        let (l, m) = laws.can_unexclude s.state i (inv.locked.writer i ∙ ap is_writer e) in
        (_, _, _, _, unlock_insert m)

    -- No thread is ever stuck: one that does not wait for the lock can step, and one that waits can
    -- step as soon as no thread is between taking the lock and giving it back.
    pub Reach-CanMove :
        {s : System k eps test}
        → Reach k eps test (start s₀ l₀) s
        → (i : ℕ)
        → (is_waiting (s.pc i) ≡ true
            → (j : ℕ) → (is_writer (s.pc j) ≡ false) × (is_reader (s.pc j) ≡ false))
        → CanMove i s (s.pc i)
    Reach-CanMove {s} r i w =
        let inv = Reach-Inv r in
        can_move i s s₀.no_value (entries s₀.root) inv (s.pc i) refl
          λ e j. (inv.locked.writer j ∙ (w e j).0, inv.locked.reader j ∙ (w e j).1)
