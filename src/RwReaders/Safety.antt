-- ===== src/RwReaders/Safety.antt =====
-- What holds in every state that the threads reach from a free lock.
use mathlib.Core.Path.{subst}
use splaylist.Base.{
  ℕ, ◌+◌, ◌*◌, ◌^◌, ◌≤◌, ◌<◌, ◌≡◌, ◌≢◌, ap, sym, refl, ◌⊎◌, inl, inr, arith, ltb, ltb→lt, ltb→le,
  Bool-cases,
}
use splaylist.Base.Memory.{upd, upd-same}
use splaylist.RwReaders.Steps.{
  Pc, outside, waits_read, reading, waits_write, swaps_write, writing, Move, call_read, wait_read,
  enter_read, read_unlock, call_upgrade, load, give_up, upgrade_win, upgrade_lose, wait_upgrade,
  see_upgrade, swap_upgrade_win, swap_upgrade_lose, call_write, wait_write, see_write,
  swap_write_win, swap_write_lose, write_unlock, System, pick, start, Reach, here, later, OwnSteps,
  none_yet, one_more, counted, reads, upgrades, writes,
}
use splaylist.Base.Total.{
  total, total-upd, total_at, total_two, total_mono, total_le, total_zero, total_none,
}

-- The word says how many threads are counted, upgrade and write; one at most upgrades and one at most
-- writes, and then nobody reads.
pub record Inv (n w : ℕ) (pc : ℕ → Pc) : Type 0 where
  pub word : w ≡ 4 * total n counted pc + 2 * total n upgrades pc + total n writes pc
  pub one_upgrades : total n upgrades pc ≤ 1
  pub one_writes : total n writes pc ≤ 1
  pub apart : (total n writes pc ≡ 0) ⊎ (total n reads pc ≡ 0)

reads-le-counted : (p : Pc) → reads p ≤ counted p
reads-le-counted p = ground arith

counted-le-one : (p : Pc) → counted p ≤ 1
counted-le-one p = ground arith

-- At most one of two threads counts.
two_write :
    (n : ℕ) (pc : ℕ → Pc) (i j : ℕ)
    → i < n
    → j < n
    → i ≢ j
    → writes (pc i) ≡ 1
    → total n writes pc ≤ 1
    → writes (pc j) ≡ 0
two_write n pc i j li lj ne w one = elim (Bool-cases (ltb i j)) [
  | inl lt ↦ omega (arith, total_two n writes pc i j (ltb→lt i j lt) lj)
  | inr le ↦ omega (arith, total_two n writes pc j i (omega (arith, ltb→le i j le)) li)
]

module _ (n w : ℕ) (pc : ℕ → Pc) (i : ℕ) (lt : i < n) (few : n < 2 ^ 61) (inv : Inv n w pc) where
  -- How a step changes a sum.
  abbrev Changes : (Pc → ℕ) → Pc → Pc → Type 0
  Changes f p q = (total n f (upd pc i q) + f p ≡ total n f pc + f q) × (f p ≤ total n f pc)

  changes : (f : Pc → ℕ) (p q : Pc) → pc i ≡ p → Changes f p q
  changes f p q e =
      let c = total-upd n f pc i q lt in
      let b = total_at n f pc i lt in let at = ap f e in (omega arith, omega arith)

  few_counted : total n counted pc ≤ n
  few_counted = total_le n counted pc counted-le-one

  few_read : total n reads pc ≤ total n counted pc
  few_read = total_mono n reads counted pc reads-le-counted

  -- A step by which the word changes as the sums do.
  moved-Inv :
      (w' : ℕ) (p q : Pc)
      → pc i ≡ p
      → w' + 4 * counted p + 2 * upgrades p + writes p
        ≡ w + 4 * counted q + 2 * upgrades q + writes q
      → total n upgrades pc + upgrades q ≤ 1 + upgrades p
      → total n writes pc + writes q ≤ 1 + writes p
      → (total n writes pc + writes q ≡ writes p) ⊎ (total n reads pc + reads q ≡ reads p)
      → Inv n w' (upd pc i q)
  moved-Inv w' p q e word up wr apart =
      let c = changes counted p q e in
      let r = changes reads p q e in
      let u = changes upgrades p q e in
      let v = changes writes p q e in
      record {
        word = omega (arith, inv.word);
        one_upgrades = omega arith;
        one_writes = omega arith;
        apart = elim apart [
          | inl none_writes ↦ inl (omega arith)
          | inr none_reads ↦ inr (omega arith)
        ];
      }

  -- A step that leaves the word and the sums.
  still-Inv :
      (p q : Pc)
      → pc i ≡ p
      → counted p ≡ counted q
      → reads p ≡ reads q
      → upgrades p ≡ upgrades q
      → writes p ≡ writes q
      → Inv n w (upd pc i q)
  still-Inv p q e ec er eu ew =
      moved-Inv w p q e (omega arith) (omega (arith, inv.one_upgrades))
        (omega (arith, inv.one_writes))
        (elim inv.apart [
          | inl none_writes ↦ inl (omega (arith, (changes writes p q e).1))
          | inr none_reads ↦ inr (omega (arith, (changes reads p q e).1))
        ])

  Move-Inv : (w' : ℕ) (p q : Pc) → pc i ≡ p → Move w p w' q → Inv n w' (upd pc i q)
  Move-Inv w' p q e (wait_read g) = still-Inv p q e refl refl refl refl
  Move-Inv w' p q e call_upgrade = still-Inv p q e refl refl refl refl
  Move-Inv w' p q e load = still-Inv p q e refl refl refl refl
  Move-Inv w' p q e (give_up g) = still-Inv p q e refl refl refl refl
  Move-Inv w' p q e (upgrade_lose g h) = still-Inv p q e refl refl refl refl
  Move-Inv w' p q e (wait_upgrade g) = still-Inv p q e refl refl refl refl
  Move-Inv w' p q e (see_upgrade g) = still-Inv p q e refl refl refl refl
  Move-Inv w' p q e (swap_upgrade_lose g) = still-Inv p q e refl refl refl refl
  Move-Inv w' p q e call_write = still-Inv p q e refl refl refl refl
  Move-Inv w' p q e (wait_write g) = still-Inv p q e refl refl refl refl
  Move-Inv w' p q e (see_write g) = still-Inv p q e refl refl refl refl
  Move-Inv w' p q e (swap_write_lose g) = still-Inv p q e refl refl refl refl
  Move-Inv w' p q e call_read =
      moved-Inv w' p q e (omega (arith, inv.word, inv.one_upgrades, inv.one_writes, few_counted))
        (omega (arith, inv.one_upgrades)) (omega (arith, inv.one_writes))
        (elim inv.apart [
          | inl none_writes ↦ inl (omega arith)
          | inr none_reads ↦ inr (omega arith)
        ])
  Move-Inv w' p q e (enter_read g) =
      moved-Inv w' p q e (omega arith) (omega (arith, inv.one_upgrades))
        (omega (arith, inv.one_writes)) (inl (omega (arith, inv.word, inv.one_writes)))
  Move-Inv w' p q e read_unlock =
      moved-Inv w' p q e
        (omega (
          arith,
          inv.word,
          inv.one_upgrades,
          inv.one_writes,
          few_counted,
          (changes counted p q e).1,
        ))
        (omega (arith, inv.one_upgrades)) (omega (arith, inv.one_writes))
        (elim inv.apart [
          | inl none_writes ↦ inl (omega arith)
          | inr none_reads ↦ absurd (omega (arith, (changes reads p q e).1))
        ])
  Move-Inv w' p q e (upgrade_win {e = x} g h) =
      moved-Inv w' p q e
        (omega (
          arith,
          inv.word,
          inv.one_upgrades,
          inv.one_writes,
          few_counted,
          (changes counted p q e).1,
        ))
        (omega (arith, inv.word, inv.one_upgrades, inv.one_writes)) (omega (arith, inv.one_writes))
        (elim inv.apart [
          | inl none_writes ↦ inl (omega arith)
          | inr none_reads ↦ absurd (omega (arith, (changes reads p q e).1))
        ])
  Move-Inv w' p q e (swap_upgrade_win g) =
      moved-Inv w' p q e (omega arith) (omega (arith, inv.one_upgrades))
        (omega (arith, inv.word, (changes upgrades p q e).1))
        (inr (omega (arith, inv.word, few_read, (changes upgrades p q e).1)))
  Move-Inv w' p q e (swap_write_win g) =
      moved-Inv w' p q e (omega arith) (omega (arith, inv.one_upgrades)) (omega (arith, inv.word))
        (inr (omega (arith, inv.word, few_read)))
  Move-Inv w' p q e write_unlock =
      moved-Inv w' p q e
        (omega (
          arith,
          inv.word,
          inv.one_upgrades,
          inv.one_writes,
          few_counted,
          (changes writes p q e).1,
        ))
        (omega (arith, inv.one_upgrades)) (omega (arith, inv.one_writes))
        (inl (omega (arith, inv.one_writes, (changes writes p q e).1)))

start-Inv : (n : ℕ) → Inv n 0 (λ i. outside)
start-Inv n =
    let c = total_zero n counted outside refl in
    let u = total_zero n upgrades outside refl in
    let v = total_zero n writes outside refl in
    record {
      word = omega arith;
      one_upgrades = omega arith;
      one_writes = omega arith;
      apart = inl v;
    }

Reach-Inv : {n : ℕ} {s : System} → n < 2 ^ 61 → Reach n start s → Inv n s.word s.pc
Reach-Inv {n} few here = start-Inv n
Reach-Inv {n} few (later {t} r (pick i {w} {p} lt m)) =
    Move-Inv n t.word t.pc i lt few (Reach-Inv few r) w (t.pc i) p refl m

-- With fewer than 2^61 threads, in every state that they reach from a free lock, a thread that writes
-- is the only one that writes, and nobody reads.
pub writer_alone :
    {n : ℕ} {s : System}
    → n < 2 ^ 61
    → Reach n start s
    → (i j : ℕ) → i < n
    → j < n
    → writes (s.pc i) ≡ 1
    → i ≢ j
    → (writes (s.pc j) ≡ 0) × (reads (s.pc j) ≡ 0)
writer_alone {n} {s} few r i j li lj w ne =
    let inv = Reach-Inv few r in
    (
      two_write n s.pc i j li lj ne w inv.one_writes,
      elim inv.apart [
        | inl none_writes ↦ absurd (omega (arith, total_at n writes s.pc i li))
        | inr none_reads ↦ omega (arith, total_at n reads s.pc j lj)
      ],
    )

-- With fewer than 2^61 threads, in every state that they reach from a free lock, the word is 4 for each
-- thread that reads or waits to read, 2 if a thread upgrades, and 1 if a thread writes.
pub word-total :
    {n : ℕ} {s : System}
    → n < 2 ^ 61
    → Reach n start s
    → s.word ≡ 4 * total n counted s.pc + 2 * total n upgrades s.pc + total n writes s.pc
word-total few r = (Reach-Inv few r).word

-- With fewer than 2^61 threads, in every state that they reach from a free lock, a thread that waits to
-- read gets in by its next step if no thread writes.
pub reader_enters :
    {n : ℕ} {s : System}
    → n < 2 ^ 61
    → Reach n start s
    → (i : ℕ) → s.pc i ≡ waits_read
    → ((j : ℕ) → j < n → writes (s.pc j) ≡ 0)
    → Move s.word (s.pc i) s.word reading
reader_enters {n} {s} few r i at none_writes =
    let inv = Reach-Inv few r in
    let v = total_none n writes s.pc none_writes in
    subst (λ p. Move s.word p s.word reading) (sym at) (enter_read (omega (arith, inv.word)))

-- With fewer than 2^61 threads, in every state that they reach from a free lock, a thread that waits to
-- write gets in by two steps, both its own, if no thread reads, waits to read, upgrades or writes.
pub writer_enters :
    {n : ℕ} {s : System}
    → n < 2 ^ 61
    → Reach n start s
    → (i : ℕ) → i < n
    → s.pc i ≡ waits_write
    → ((j : ℕ) → j < n → counted (s.pc j) + upgrades (s.pc j) + writes (s.pc j) ≡ 0)
    → (t : System) × OwnSteps n i s 2 t × (t.pc i ≡ writing)
writer_enters {n} {s} few r i lt at none =
    let inv = Reach-Inv few r in
    let c = total_none n counted s.pc (λ j l. omega (arith, none j l)) in
    let u = total_none n upgrades s.pc (λ j l. omega (arith, none j l)) in
    let v = total_none n writes s.pc (λ j l. omega (arith, none j l)) in
    let free : s.word ≡ 0 = omega (arith, inv.word) in
    let first : Move s.word (s.pc i) s.word swaps_write =
      subst (λ p. Move s.word p s.word swaps_write) (sym at) (see_write free) in
    let saw = upd-same s.pc i swaps_write i refl in
    let second : Move s.word (upd s.pc i swaps_write i) 1 writing =
      subst (λ p. Move s.word p 1 writing) (sym saw) (swap_write_win free) in
    (
      _,
      one_more (one_more none_yet lt first) lt second,
      upd-same (upd s.pc i swaps_write) i writing i refl,
    )
