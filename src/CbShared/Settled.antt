-- ===== src/CbShared/Settled.antt =====
-- What a thread returns is the reply of a call that is settled.
use mathlib.Core.Path.{subst}
use mathlib.Core.List.{Memᴰ}
use splaylist.Base.{
  ℕ, ◌≡◌, ap, sym, ◌∙◌, Bool, List, [], ◌∷◌, ◌++◌, ◌⊎◌, inl, inr, Bool-cases, ◌==◌, ==→eq, ==→ne,
}
use splaylist.Base.Memory.{upd, upd-same, upd-other}
use splaylist.CbTree.Laws.{IsValid}
use splaylist.CbTree.Client.{insert_key}
use splaylist.CbShared.RwLock.{RwLock, IsRwLock}
use splaylist.CbShared.State.{
  Shared, seen_by, Pc, restructured, resets, has_read, found, inserted, Event, settled,
}
use splaylist.CbShared.Steps.{
  Move, call_find, call_insert, call_set_cops, go_exclusive, go_shared, lock_exclusive,
  begin_restructure, begin_read, begin_insert, restructure, unlock_exclusive, reset, lock_shared,
  read, unlock_shared, return_found, return_present, go_insert, lock_insert, insert, unlock_insert,
  System, pick, Reach, here, later,
}
use splaylist.CbShared.Safety.{start, IsFree, Reach-Inv}

-- The settled call whose reply the thread is about to return, if any.
abbrev pub owed : ℕ → Pc → List Event
owed d (restructured g key v) = settled d g key v
owed d (resets g key v) = settled d g key v
owed d (has_read g key v) = settled d g key v
owed d (found g key v) = settled d g key v
owed d (inserted key x v) = record { call = insert_key key x; reply = v } ∷ []
owed d p = []

append_left : (e : Event) (es h : List Event) → Memᴰ e es → Memᴰ e (es ++ h)
append_left e [] h m = elim m [ ]
append_left e (x ∷ es) h (Memᴰ.head p) = Memᴰ.head p
append_left e (x ∷ es) h (Memᴰ.tail m) = Memᴰ.tail (append_left e es h m)

append_right : (e : Event) (es h : List Event) → Memᴰ e h → Memᴰ e (es ++ h)
append_right e [] h m = m
append_right e (x ∷ es) h m = Memᴰ.tail (append_right e es h m)

module _ (k : RwLock) (eps : ℕ) (test : ℕ → Shared → Bool) where
  -- A step owes what was owed before, or what it settles.
  Move-owed :
      {i : ℕ} {s t : Shared} {l l' : k.State} {p q : Pc} {es : List Event} (e : Event)
      → Move k eps test i s l p t l' q es
      → Memᴰ e (owed s.no_value q)
      → Memᴰ e (owed s.no_value p) ⊎ Memᴰ e es
  Move-owed e (restructure r) m = inr m
  Move-owed e (read r) m = inr m
  Move-owed e (insert r) m = inr m
  Move-owed e (unlock_exclusive r) m = inl m
  Move-owed e reset m = inl m
  Move-owed e (unlock_shared r) m = inl m
  Move-owed e (call_find key) m = elim m [ ]
  Move-owed e (call_insert key x) m = elim m [ ]
  Move-owed e (call_set_cops n) m = elim m [ ]
  Move-owed e (go_exclusive r) m = elim m [ ]
  Move-owed e (go_shared r) m = elim m [ ]
  Move-owed e (lock_exclusive r) m = elim m [ ]
  Move-owed e begin_restructure m = elim m [ ]
  Move-owed e begin_read m = elim m [ ]
  Move-owed e begin_insert m = elim m [ ]
  Move-owed e (lock_shared r) m = elim m [ ]
  Move-owed e return_found m = elim m [ ]
  Move-owed e (return_present r) m = elim m [ ]
  Move-owed e (go_insert r) m = elim m [ ]
  Move-owed e (lock_insert r) m = elim m [ ]
  Move-owed e (unlock_insert r) m = elim m [ ]

  module _ (laws : IsRwLock k) (s₀ : Shared) (l₀ : k.State) (valid : IsValid (seen_by 0 s₀))
      (free : IsFree k laws eps test l₀) where
    -- In every state that the threads reach from a valid tree whose lock is free, the call whose reply a
    -- thread is about to return is settled with that reply.
    pub Reach-owed :
        {s : System k eps test}
        → Reach k eps test (start k laws eps test s₀ l₀) s
        → (j : ℕ) (e : Event) → Memᴰ e (owed s₀.no_value (s.pc j))
        → Memᴰ e s.history
    Reach-owed here j e m = elim m [ ]
    Reach-owed (later {s} r (pick i {t} {l} {p = q} {es} mv)) j e m = elim (Bool-cases (j == i)) [
      | inl same ↦
          let nv = (Reach-Inv k laws eps test s₀ l₀ valid free r).sound.default in
          let at : owed s₀.no_value (upd s.pc i q j) ≡ owed s.shared.no_value q =
            ap (owed s₀.no_value) (upd-same s.pc i q j (==→eq j i same))
            ∙ ap (λ d. owed d q) (sym nv) in
          elim (Move-owed e mv (subst (Memᴰ e) at m)) [
            | inl before ↦
                append_right e es s.history
                  (Reach-owed r i e (subst (λ d. Memᴰ e (owed d (s.pc i))) nv before))
            | inr now ↦ append_left e es s.history now
          ]
      | inr other ↦ append_right e es s.history (
          Reach-owed r j e
            (subst (λ p. Memᴰ e (owed s₀.no_value p)) (upd-other s.pc i q j (==→ne j i other)) m))
    ]
