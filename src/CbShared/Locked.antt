-- ===== src/CbShared/Locked.antt =====
-- Who holds the lock, and that an exclusive holder is alone.
use splaylist.Base.{
  ℕ, ◌≡◌, ◌≢◌, ◌∙◌, refl, sym, ap, some, Bool, true, false, List, ◌==◌, inl, inr, ==→eq, ==→ne,
  Bool-cases, arith, ◌⊎◌, ne→==,
}
use splaylist.Base.Memory.{upd, upd-id, upd-same, upd-other}
use splaylist.CbTree.Tree.{Tree}
use splaylist.CbShared.RwLock.{RwLock, IsRwLock}
use splaylist.CbShared.State.{Shared, Pc, Event, snapshot, set_cops, is_writer, is_reader}
use splaylist.CbShared.Steps.{
  Move, call_find, call_insert, call_set_cops, go_exclusive, go_shared, lock_exclusive,
  begin_restructure, begin_read, begin_insert, restructure, unlock_exclusive, reset, lock_shared,
  read, unlock_shared, return_found, return_present, go_insert, lock_insert, insert, unlock_insert,
}

kept : (f : ℕ → Bool) (i : ℕ) (b : Bool) → f i ≡ b → (j : ℕ) → f j ≡ upd f i b j
kept f i b e j = sym (upd-id f i b e j)

module _ (k : RwLock) (laws : IsRwLock k) (eps : ℕ) (test : ℕ → Shared → Bool) where
  -- The lock says who stands where it is held, and an exclusive holder is alone.
  pub record IsLocked (l : k.State) (pc : ℕ → Pc) : Type 0 where
    pub writer : (i : ℕ) → k.writes l i ≡ is_writer (pc i)
    pub reader : (i : ℕ) → k.reads l i ≡ is_reader (pc i)
    pub alone :
        (i j : ℕ) → k.writes l i ≡ true → i ≢ j → (k.writes l j ≡ false) × (k.reads l j ≡ false)

  -- A step changes the lock as it changes the place of the thread.
  abbrev Held : ℕ → k.State → k.State → Pc → ℕ → Type 0
  Held i l l' q j =
      (k.writes l' j ≡ upd (k.writes l) i (is_writer q) j)
      × (k.reads l' j ≡ upd (k.reads l) i (is_reader q) j)

  quiet :
      (l : k.State) (i : ℕ) {a b : Bool}
      → k.writes l i ≡ a
      → k.reads l i ≡ b
      → (j : ℕ) → (k.writes l j ≡ upd (k.writes l) i a j) × (k.reads l j ≡ upd (k.reads l) i b j)
  quiet l i {a} {b} w r j = (kept (k.writes l) i a w j, kept (k.reads l) i b r j)

  Move-Held :
      {i : ℕ} {s t : Shared} {l l' : k.State} {p q : Pc} {es : List Event}
      → Move k eps test i s l p t l' q es
      → k.writes l i ≡ is_writer p
      → k.reads l i ≡ is_reader p
      → (j : ℕ) → Held i l l' q j
  Move-Held {i} {l} (call_find key) w r j = quiet l i w r j
  Move-Held {i} {l} (call_insert key x) w r j = quiet l i w r j
  Move-Held {i} {l} (call_set_cops n) w r j = quiet l i w r j
  Move-Held {i} {l} (go_exclusive e) w r j = quiet l i w r j
  Move-Held {i} {l} (go_shared e) w r j = quiet l i w r j
  Move-Held {i} {l} {l'} (lock_exclusive e) w r j = (
    laws.exclusive_writes l l' i j e,
    laws.exclusive_reads l l' i j e ∙ kept (k.reads l) i false r j,
  )
  Move-Held {i} {l} (restructure e) w r j = quiet l i w r j
  Move-Held {i} {l} {l'} (unlock_exclusive e) w r j = (
    laws.unexclusive_writes l l' i j e,
    laws.unexclusive_reads l l' i j e ∙ kept (k.reads l) i false r j,
  )
  Move-Held {i} {l} begin_restructure w r j = quiet l i w r j
  Move-Held {i} {l} begin_read w r j = quiet l i w r j
  Move-Held {i} {l} begin_insert w r j = quiet l i w r j
  Move-Held {i} {l} reset w r j = quiet l i w r j
  Move-Held {i} {l} {l'} (lock_shared e) w r j =
      (laws.shared_writes l l' i j e ∙ kept (k.writes l) i false w j, laws.shared_reads l l' i j e)
  Move-Held {i} {l} (read e) w r j = quiet l i w r j
  Move-Held {i} {l} {l'} (unlock_shared e) w r j = (
    laws.unshared_writes l l' i j e ∙ kept (k.writes l) i false w j,
    laws.unshared_reads l l' i j e,
  )
  Move-Held {i} {l} return_found w r j = quiet l i w r j
  Move-Held {i} {l} (return_present e) w r j = quiet l i w r j
  Move-Held {i} {l} (go_insert e) w r j = quiet l i w r j
  Move-Held {i} {l} {l'} (lock_insert e) w r j = (
    laws.exclusive_writes l l' i j e,
    laws.exclusive_reads l l' i j e ∙ kept (k.reads l) i false r j,
  )
  Move-Held {i} {l} (insert e) w r j = quiet l i w r j
  Move-Held {i} {l} {l'} (unlock_insert e) w r j = (
    laws.unexclusive_writes l l' i j e,
    laws.unexclusive_reads l l' i j e ∙ kept (k.reads l) i false r j,
  )

  -- A thread that comes to hold the lock finds it free.
  abbrev Entry : k.State → Pc → Pc → Type 0
  Entry l p q =
      (is_writer q ≡ true
        → (is_writer p ≡ true) ⊎ ((j : ℕ) → (k.writes l j ≡ false) × (k.reads l j ≡ false)))
      × (is_reader q ≡ true → (is_reader p ≡ true) ⊎ ((j : ℕ) → k.writes l j ≡ false))

  outside : (l : k.State) (p q : Pc) → is_writer q ≡ false → is_reader q ≡ false → Entry l p q
  outside l p q w r = ((λ e. absurd cc), λ e. absurd cc)

  Move-Entry :
      {i : ℕ} {s t : Shared} {l l' : k.State} {p q : Pc} {es : List Event}
      → Move k eps test i s l p t l' q es
      → Entry l p q
  Move-Entry {i} {l} {l'} (lock_exclusive e) =
      ((λ w. inr (λ j. laws.exclusive_alone l l' i j e)), λ r. absurd cc)
  Move-Entry {i} {l} {l'} (lock_insert e) =
      ((λ w. inr (λ j. laws.exclusive_alone l l' i j e)), λ r. absurd cc)
  Move-Entry {i} {l} {l'} (lock_shared e) =
      ((λ w. absurd cc), λ r. inr (λ j. laws.shared_alone l l' i j e))
  Move-Entry begin_restructure = ((λ w. inl refl), λ r. absurd cc)
  Move-Entry begin_insert = ((λ w. inl refl), λ r. absurd cc)
  Move-Entry begin_read = ((λ w. absurd cc), λ r. inl refl)
  Move-Entry (restructure e) = ((λ w. inl refl), λ r. absurd cc)
  Move-Entry (insert e) = ((λ w. inl refl), λ r. absurd cc)
  Move-Entry (read e) = ((λ w. absurd cc), λ r. inl refl)
  Move-Entry {l} {p} {q} (call_find key) = outside l p q refl refl
  Move-Entry {l} {p} {q} (call_insert key x) = outside l p q refl refl
  Move-Entry {l} {p} {q} (call_set_cops n) = outside l p q refl refl
  Move-Entry {l} {p} {q} (go_exclusive e) = outside l p q refl refl
  Move-Entry {l} {p} {q} (go_shared e) = outside l p q refl refl
  Move-Entry {l} {p} {q} (unlock_exclusive e) = outside l p q refl refl
  Move-Entry {l} {p} {q} reset = outside l p q refl refl
  Move-Entry {l} {p} {q} (unlock_shared e) = outside l p q refl refl
  Move-Entry {l} {p} {q} return_found = outside l p q refl refl
  Move-Entry {l} {p} {q} (return_present e) = outside l p q refl refl
  Move-Entry {l} {p} {q} (go_insert e) = outside l p q refl refl
  Move-Entry {l} {p} {q} (unlock_insert e) = outside l p q refl refl

  placed :
      (f : ℕ → Bool) (g : Pc → Bool) (pc : ℕ → Pc) (i : ℕ) (q : Pc)
      → ((j : ℕ) → f j ≡ g (pc j))
      → (j : ℕ) → upd f i (g q) j ≡ g (upd pc i q j)
  placed f g pc i q h j = elim (Bool-cases (j == i)) [ inl e ↦ rw e refl | inr e ↦ rw e (h j) ]

  -- Every step keeps it.
  pub Move-IsLocked :
      {i : ℕ} {s t : Shared} {l l' : k.State} {q : Pc} {es : List Event} (pc : ℕ → Pc)
      → IsLocked l pc
      → Move k eps test i s l (pc i) t l' q es
      → IsLocked l' (upd pc i q)
  Move-IsLocked {i} {l} {l'} {q} pc h m =
      let held = Move-Held m (h.writer i) (h.reader i) in
      let (writer, reader) = Move-Entry m in
      record {
        writer = λ j. (held j).0 ∙ placed (k.writes l) is_writer pc i q h.writer j;
        reader = λ j. (held j).1 ∙ placed (k.reads l) is_reader pc i q h.reader j;
        alone = λ a b w n. elim (Bool-cases (a == i)) [
          | inl ea ↦
              let b_other : (b == i) ≡ false = ne→== b i (λ eb. n (==→eq a i ea ∙ sym eb)) in
              let here : is_writer q ≡ true =
                sym (upd-same (k.writes l) i (is_writer q) a (==→eq a i ea)) ∙ sym (held a).0 ∙ w in
              let (wb, rb) : (k.writes l b ≡ false) × (k.reads l b ≡ false) = elim (writer here) [
                | inl was ↦ h.alone i b (h.writer i ∙ was) (λ e. n (==→eq a i ea ∙ e))
                | inr free ↦ free b
              ] in
              ((held b).0 ∙ rw b_other wb, (held b).1 ∙ rw b_other rb)
          | inr ea ↦
              let wa : k.writes l a ≡ true =
                sym (upd-other (k.writes l) i (is_writer q) a (==→ne a i ea))
                ∙ sym (held a).0
                ∙ w in
              elim (Bool-cases (b == i)) [
                | inr eb ↦
                    let (wb, rb) = h.alone a b wa n in
                    ((held b).0 ∙ rw eb wb, (held b).1 ∙ rw eb rb)
                | inl eb ↦
                    let other : i ≢ a = λ e. ==→ne a i ea (sym e) in
                    let no_writer : is_writer q ≡ false = elim (Bool-cases (is_writer q)) [
                      | inr off ↦ off
                      | inl on ↦ elim (writer on) [
                        | inl was ↦ absurd (cc ((h.alone i a (h.writer i ∙ was) other).0, wa))
                        | inr free ↦ absurd (cc ((free a).0, wa))
                      ]
                    ] in
                    let no_reader : is_reader q ≡ false = elim (Bool-cases (is_reader q)) [
                      | inr off ↦ off
                      | inl on ↦ elim (reader on) [
                        | inl was ↦
                            absurd (cc ((h.alone a i wa (λ e. other (sym e))).1, h.reader i, was))
                        | inr free ↦ absurd (cc (free a, wa))
                      ]
                    ] in
                    ((held b).0 ∙ rw eb no_writer, (held b).1 ∙ rw eb no_reader)
              ]
        ];
      }

  -- Only an exclusive holder writes the tree.
  Move-root :
      {i : ℕ} {s t : Shared} {l l' : k.State} {p q : Pc} {es : List Event}
      → Move k eps test i s l p t l' q es
      → (is_writer p ≡ true) ⊎ (t.root ≡ s.root)
  Move-root (restructure e) = inl refl
  Move-root (insert e) = inl refl
  Move-root (read e) = inr refl
  Move-root (call_find key) = inr refl
  Move-root (call_insert key x) = inr refl
  Move-root (call_set_cops n) = inr (unfold set_cops in refl)
  Move-root (go_exclusive e) = inr refl
  Move-root (go_shared e) = inr refl
  Move-root (lock_exclusive e) = inr refl
  Move-root begin_restructure = inr refl
  Move-root begin_read = inr refl
  Move-root begin_insert = inr refl
  Move-root (unlock_exclusive e) = inr refl
  Move-root reset = inr refl
  Move-root (lock_shared e) = inr refl
  Move-root (unlock_shared e) = inr refl
  Move-root return_found = inr refl
  Move-root (return_present e) = inr refl
  Move-root (go_insert e) = inr refl
  Move-root (lock_insert e) = inr refl
  Move-root (unlock_insert e) = inr refl

  -- A step by which a critical section begins takes the tree as it is.
  Move-snapshot :
      {i : ℕ} {s t : Shared} {l l' : k.State} {p q : Pc} {es : List Event} {u : Tree ℕ}
      → Move k eps test i s l p t l' q es
      → snapshot q ≡ some u
      → u ≡ t.root
  Move-snapshot begin_restructure e = cc
  Move-snapshot begin_read e = cc
  Move-snapshot begin_insert e = cc
  Move-snapshot (restructure r) e = absurd cc
  Move-snapshot (insert r) e = absurd cc
  Move-snapshot (read r) e = absurd cc
  Move-snapshot (call_find key) e = absurd cc
  Move-snapshot (call_insert key x) e = absurd cc
  Move-snapshot (call_set_cops n) e = absurd cc
  Move-snapshot (go_exclusive r) e = absurd cc
  Move-snapshot (go_shared r) e = absurd cc
  Move-snapshot (lock_exclusive r) e = absurd cc
  Move-snapshot (unlock_exclusive r) e = absurd cc
  Move-snapshot reset e = absurd cc
  Move-snapshot (lock_shared r) e = absurd cc
  Move-snapshot (unlock_shared r) e = absurd cc
  Move-snapshot return_found e = absurd cc
  Move-snapshot (return_present r) e = absurd cc
  Move-snapshot (go_insert r) e = absurd cc
  Move-snapshot (lock_insert r) e = absurd cc
  Move-snapshot (unlock_insert r) e = absurd cc

  holder : (p : Pc) (u : Tree ℕ) → snapshot p ≡ some u → (is_writer p ≡ true) ⊎ (is_reader p ≡ true)
  holder p u e = ground arith

  -- Every critical section works on the tree as it is.
  abbrev pub IsFresh : (ℕ → Pc) → Tree ℕ → Type 0
  IsFresh pc root = (j : ℕ) (u : Tree ℕ) → snapshot (pc j) ≡ some u → u ≡ root

  -- While a thread stands in a critical section no step of another thread writes the tree.
  pub isolated :
      {i : ℕ} {s t : Shared} {l l' : k.State} {q : Pc} {es : List Event} (pc : ℕ → Pc) (j : ℕ)
      → IsLocked l pc
      → Move k eps test i s l (pc i) t l' q es
      → i ≢ j
      → (is_writer (pc j) ≡ true) ⊎ (is_reader (pc j) ≡ true)
      → t.root ≡ s.root
  isolated {i} pc j h m n held = elim (Move-root m) [
    | inr same ↦ same
    | inl w ↦
        let (no_writer, no_reader) = h.alone i j (h.writer i ∙ w) n in
        elim held [
          | inl wj ↦ absurd (cc (no_writer, h.writer j, wj))
          | inr rj ↦ absurd (cc (no_reader, h.reader j, rj))
        ]
  ]

  pub Move-IsFresh :
      {i : ℕ} {s t : Shared} {l l' : k.State} {q : Pc} {es : List Event} (pc : ℕ → Pc)
      → IsLocked l pc
      → IsFresh pc s.root
      → Move k eps test i s l (pc i) t l' q es
      → IsFresh (upd pc i q) t.root
  Move-IsFresh {i} {q} pc h fresh m j u e = elim (Bool-cases (j == i)) [
    | inl same ↦ Move-snapshot m (sym (ap snapshot (upd-same pc i q j (==→eq j i same))) ∙ e)
    | inr other ↦
        let e' = sym (ap snapshot (upd-other pc i q j (==→ne j i other))) ∙ e in
        fresh j u e' ∙ sym (isolated pc j h m (λ ij. ==→ne j i other (sym ij)) (holder (pc j) u e'))
  ]
