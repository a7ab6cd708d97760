-- ===== src/SpinLock/Safety.antt =====
-- At most one thread is inside, and one that spins gets in unless another is inside.
use mathlib.Core.Path.{subst}
use splaylist.Base.{
  ℕ, ◌≡◌, ◌≢◌, ◌∙◌, refl, ap, sym, Bool, true, false, ◌⊎◌, inl, inr, ◌==◌, ==→eq, ==→ne, Bool-cases,
}
use splaylist.Base.Memory.{upd, upd-same, upd-other}
use splaylist.SpinLock.Steps.{
  Pc, outside, spinning, saw_free, inside, Move, call_acquire, pause, see_free, swap_win, swap_lose,
  call_release, System, pick, start, Reach, here, later, OwnSteps, none_yet, one_more, is_inside,
}

-- The lock is set if and only if a thread is inside, and then it is the only one.
record Inv (lock : Bool) (pc : ℕ → Pc) : Type 0 where
  free : (i : ℕ) → is_inside (pc i) ≡ true → lock ≡ true
  held : lock ≡ true → (i : ℕ) × (is_inside (pc i) ≡ true)
  unique : (i j : ℕ) → is_inside (pc i) ≡ true → is_inside (pc j) ≡ true → i ≡ j

-- After a thread has come to `p`, another is where it was.
at_other : (pc : ℕ → Pc) (i j : ℕ) (p : Pc) → j ≢ i → is_inside (upd pc i p j) ≡ is_inside (pc j)
at_other pc i j p n = ap is_inside (upd-other pc i p j n)

at_self : (pc : ℕ → Pc) (i : ℕ) (p : Pc) → is_inside (upd pc i p i) ≡ is_inside p
at_self pc i p = ap is_inside (upd-same pc i p i refl)

-- A thread that is inside is the one that moved, or was inside.
came_inside :
    (pc : ℕ → Pc) (i j : ℕ) (p : Pc)
    → is_inside (upd pc i p j) ≡ true
    → ((j ≡ i) × (is_inside p ≡ true)) ⊎ ((j ≢ i) × (is_inside (pc j) ≡ true))
came_inside pc i j p e = elim (Bool-cases (j == i)) [
  | inl same ↦ let at = ==→eq j i same in inl (at, sym (ap is_inside (upd-same pc i p j at)) ∙ e)
  | inr other ↦ let n = ==→ne j i other in inr (n, sym (at_other pc i j p n) ∙ e)
]

enter-Inv : (pc : ℕ → Pc) (i : ℕ) → Inv false pc → Inv true (upd pc i inside)
enter-Inv pc i inv = record {
  free = λ j e. refl;
  held = λ e. (i, at_self pc i inside);
  unique = λ a b ea eb. elim (came_inside pc i a inside ea) [
    | inr (n, was) ↦ absurd (cc (inv.free a was))
    | inl (aa, _) ↦ elim (came_inside pc i b inside eb) [
      | inr (n, was) ↦ absurd (cc (inv.free b was))
      | inl (bb, _) ↦ aa ∙ sym bb
    ]
  ];
}

leave-Inv :
    (pc : ℕ → Pc) (i : ℕ) (l : Bool) → pc i ≡ inside → Inv l pc → Inv false (upd pc i outside)
leave-Inv pc i l at inv = record {
  free = λ j e. elim (came_inside pc i j outside e) [
    | inl (_, came) ↦ absurd cc
    | inr (n, was) ↦ absurd (n (inv.unique j i was (ap is_inside at)))
  ];
  held = λ e. absurd cc;
  unique = λ a b ea eb. elim (came_inside pc i a outside ea) [
    | inl (_, came) ↦ absurd cc
    | inr (n, was) ↦ absurd (n (inv.unique a i was (ap is_inside at)))
  ];
}

-- A step from outside to outside.
still-Inv :
    (pc : ℕ → Pc) (i : ℕ) (l : Bool) (p : Pc)
    → is_inside (pc i) ≡ false
    → is_inside p ≡ false
    → Inv l pc
    → Inv l (upd pc i p)
still-Inv pc i l p was now inv =
    let back : (j : ℕ) → is_inside (upd pc i p j) ≡ true → is_inside (pc j) ≡ true =
      λ j e. elim (came_inside pc i j p e) [ inl (_, came) ↦ absurd cc | inr (_, h) ↦ h ] in
    record {
      free = λ j e. inv.free j (back j e);
      held = λ e.
          let (j, h) = inv.held e in
          (
            j,
            elim (Bool-cases (j == i)) [
              | inl same ↦ absurd (cc (ap (λ x. is_inside (pc x)) (==→eq j i same), h, was))
              | inr other ↦ at_other pc i j p (==→ne j i other) ∙ h
            ],
          );
      unique = λ a b ea eb. inv.unique a b (back a ea) (back b eb);
    }

Move-Inv :
    (pc : ℕ → Pc) (i : ℕ) (l l' : Bool) (p q : Pc)
    → pc i ≡ p
    → Inv l pc
    → Move l p l' q
    → Inv l' (upd pc i q)
Move-Inv pc i l l' p q at inv call_acquire = still-Inv pc i l spinning (ap is_inside at) refl inv
Move-Inv pc i l l' p q at inv (pause e) = still-Inv pc i l spinning (ap is_inside at) refl inv
Move-Inv pc i l l' p q at inv (see_free e) = still-Inv pc i l saw_free (ap is_inside at) refl inv
Move-Inv pc i l l' p q at inv (swap_win e) = enter-Inv pc i (subst (λ b. Inv b pc) e inv)
Move-Inv pc i l l' p q at inv (swap_lose e) = still-Inv pc i l spinning (ap is_inside at) refl inv
Move-Inv pc i l l' p q at inv call_release = leave-Inv pc i l at inv

Reach-Inv : {s : System} → Reach start s → Inv s.lock s.pc
Reach-Inv here = record {
  free = λ i e. absurd cc;
  held = λ e. absurd cc;
  unique = λ i j e. absurd cc;
}
Reach-Inv (later {t} r (pick i {l} {p} m)) =
    Move-Inv t.pc i t.lock l (t.pc i) p refl (Reach-Inv r) m

-- In every state that the threads reach, two are never inside together.
pub mutual_exclusion :
    {s : System}
    → Reach start s
    → (i j : ℕ) → is_inside (s.pc i) ≡ true
    → is_inside (s.pc j) ≡ true
    → i ≡ j
mutual_exclusion r = (Reach-Inv r).unique

-- In every state that the threads reach, if a thread spins, then a thread is inside, or the thread that
-- spins gets inside by two steps, both its own.
pub no_deadlock :
    {s : System}
    → Reach start s
    → (i : ℕ) → s.pc i ≡ spinning
    → ((j : ℕ) × (is_inside (s.pc j) ≡ true))
      ⊎ ((t : System) × OwnSteps i s 2 t × (t.pc i ≡ inside))
no_deadlock {s} r i at = elim (Bool-cases s.lock) [
  | inl set ↦ inl ((Reach-Inv r).held set)
  | inr clear ↦
      let first : Move s.lock (s.pc i) s.lock saw_free =
        subst (λ p. Move s.lock p s.lock saw_free) (sym at) (see_free clear) in
      let saw : upd s.pc i saw_free i ≡ saw_free = upd-same s.pc i saw_free i refl in
      let second : Move s.lock (upd s.pc i saw_free i) true inside =
        subst (λ p. Move s.lock p true inside) (sym saw) (swap_win clear) in
      inr (
        _,
        one_more (one_more none_yet first) second,
        upd-same (upd s.pc i saw_free) i inside i refl,
      )
]
