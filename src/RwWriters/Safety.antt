-- ===== src/RwWriters/Safety.antt =====
-- What holds in every state that the threads reach from a free lock.
use mathlib.Core.Path.{subst}
use splaylist.Base.{
  ℕ, ◌+◌, ◌*◌, ◌^◌, ◌%◌, ◌-◌, ◌/◌, ◌≤◌, ◌<◌, ◌≡◌, ◌≢◌, ap, sym, refl, ◌⊎◌, inl, inr, arith, ltb,
  ltb→lt, ltb→le, Bool-cases, ◌==◌, ==→eq, ==→ne,
}
use splaylist.Base.Memory.{upd, upd-same}
use splaylist.Base.Total.{
  total, total-upd, total_at, total_two, total_mono, total_le, total_zero, total_none,
}
use splaylist.RwWriters.Steps.{
  Pc, outside, drains, writing, Move, call_read, wait_read, see_read, add_read, enter_read,
  back_off, read_unlock, call_write, load, swap_win, swap_lose, wait_readers, enter_write,
  write_unlock, System, pick, start, Reach, here, later, OwnSteps, none_yet, one_more, u64, counted,
  claims, admits, settles, reads, writes,
}

-- The word says how many threads are counted and whether the write bit is taken; one thread at most has
-- taken it, and if it may write then nobody may read.
pub record Inv (n w : ℕ) (pc : ℕ → Pc) : Type 0 where
  pub word : w ≡ 2 * total n counted pc + total n claims pc
  pub one_claims : total n claims pc ≤ 1
  pub apart : (total n settles pc ≡ 0) ⊎ (total n admits pc ≡ 0)

admits-le-counted : (p : Pc) → admits p ≤ counted p
admits-le-counted p = ground arith

settles-le-claims : (p : Pc) → settles p ≤ claims p
settles-le-claims p = ground arith

counted-le-one : (p : Pc) → counted p ≤ 1
counted-le-one p = ground arith

reads-le-admits : (p : Pc) → reads p ≤ admits p
reads-le-admits p = ground arith

writes-le-claims : (p : Pc) → writes p ≤ claims p
writes-le-claims p = ground arith

writes-le-settles : (p : Pc) → writes p ≤ settles p
writes-le-settles p = ground arith

module _ (n w : ℕ) (pc : ℕ → Pc) (i : ℕ) (lt : i < n) (few : n < 2 ^ 62) (inv : Inv n w pc) where
  -- How a step changes a sum.
  abbrev Changes : (Pc → ℕ) → Pc → Pc → Type 0
  Changes f p q = (total n f (upd pc i q) + f p ≡ total n f pc + f q) × (f p ≤ total n f pc)

  changes : (f : Pc → ℕ) (p q : Pc) → pc i ≡ p → Changes f p q
  changes f p q e =
      let c = total-upd n f pc i q lt in
      let b = total_at n f pc i lt in let at = ap f e in (omega arith, omega arith)

  few_counted : total n counted pc ≤ n
  few_counted = total_le n counted pc counted-le-one

  few_admits : total n admits pc ≤ total n counted pc
  few_admits = total_mono n admits counted pc admits-le-counted

  few_settles : total n settles pc ≤ total n claims pc
  few_settles = total_mono n settles claims pc settles-le-claims

  -- A step by which the word changes as the sums do.
  moved-Inv :
      (w' : ℕ) (p q : Pc)
      → pc i ≡ p
      → w' + 2 * counted p + claims p ≡ w + 2 * counted q + claims q
      → total n claims pc + claims q ≤ 1 + claims p
      → (total n settles pc + settles q ≡ settles p) ⊎ (total n admits pc + admits q ≡ admits p)
      → Inv n w' (upd pc i q)
  moved-Inv w' p q e word one apart =
      let c = changes counted p q e in
      let u = changes claims p q e in
      let s = changes settles p q e in
      let a = changes admits p q e in
      record {
        word = omega (arith, inv.word);
        one_claims = omega arith;
        apart = elim apart [
          | inl none_settles ↦ inl (omega arith)
          | inr none_admits ↦ inr (omega arith)
        ];
      }

  -- A step that leaves the word and the sums.
  still-Inv :
      (p q : Pc)
      → pc i ≡ p
      → counted p ≡ counted q
      → claims p ≡ claims q
      → settles p ≡ settles q
      → admits p ≡ admits q
      → Inv n w (upd pc i q)
  still-Inv p q e ec el es ea =
      moved-Inv w p q e (omega arith) (omega (arith, inv.one_claims)) (elim inv.apart [
        | inl none_settles ↦ inl (omega (arith, (changes settles p q e).1))
        | inr none_admits ↦ inr (omega (arith, (changes admits p q e).1))
      ])

  -- A reader is no longer counted.
  left-Inv :
      (p q : Pc)
      → pc i ≡ p
      → counted p ≡ 1
      → counted q ≡ 0
      → claims p ≡ claims q
      → settles p ≡ settles q
      → admits q ≡ 0
      → Inv n (u64 (w + 2 ^ 64 - 2)) (upd pc i q)
  left-Inv p q e ep eq el es ea =
      moved-Inv (u64 (w + 2 ^ 64 - 2)) p q e
        (omega (arith, inv.word, inv.one_claims, few_counted, (changes counted p q e).1))
        (omega (arith, inv.one_claims))
        (elim inv.apart [
          | inl none_settles ↦ inl (omega (arith, (changes settles p q e).1))
          | inr none_admits ↦ inr (omega (arith, (changes admits p q e).1))
        ])

  -- A thread that has the write bit, or takes it, looks at the readers that the word counts.
  looked-Inv :
      (w' v : ℕ) (p : Pc)
      → pc i ≡ p
      → w' + 2 * counted p + claims p ≡ w + 1
      → total n claims pc ≤ claims p
      → settles p ≡ 0
      → admits p ≡ 0
      → w / 2 ≡ v / 2
      → Inv n w' (upd pc i (drains v))
  looked-Inv w' v p e word one es ea same =
      moved-Inv w' p (drains v) e (omega arith) (omega arith) (elim (Bool-cases (v / 2 == 0)) [
        | inl none ↦ inr (omega (arith, few_admits, inv.word, ==→eq (v / 2) 0 none))
        | inr some_read ↦ elim inv.apart [
          | inl none_settles ↦ inl (omega (arith, ==→ne (v / 2) 0 some_read))
          | inr none_admits ↦ inr (omega arith)
        ]
      ])

  Move-Inv : (w' : ℕ) (p q : Pc) → pc i ≡ p → Move w p w' q → Inv n w' (upd pc i q)
  Move-Inv w' p q e call_read = still-Inv p q e refl refl refl refl
  Move-Inv w' p q e (wait_read g) = still-Inv p q e refl refl refl refl
  Move-Inv w' p q e (see_read g) = still-Inv p q e refl refl refl refl
  Move-Inv w' p q e call_write = still-Inv p q e refl refl refl refl
  Move-Inv w' p q e load = still-Inv p q e refl refl refl refl
  Move-Inv w' p q e (swap_lose g) = still-Inv p q e refl refl refl refl
  Move-Inv w' p q e (enter_read g) = still-Inv p q e refl refl refl (omega arith)
  Move-Inv w' p q e (enter_write g) = still-Inv p q e refl refl (omega arith) refl
  Move-Inv w' p q e (back_off g) = left-Inv p q e refl refl refl refl refl
  Move-Inv w' p q e read_unlock = left-Inv p q e refl refl refl refl refl
  Move-Inv w' p q e add_read =
      moved-Inv w' p q e (omega (arith, inv.word, inv.one_claims, few_counted))
        (omega (arith, inv.one_claims))
        (elim (Bool-cases (w % 2 == 0)) [
          | inl even ↦
              inl (omega (arith, few_settles, inv.word, inv.one_claims, ==→eq (w % 2) 0 even))
          | inr odd ↦ elim inv.apart [
            | inl none_settles ↦ inl (omega arith)
            | inr none_admits ↦ inr (omega (arith, ==→ne (w % 2) 0 odd))
          ]
        ])
  Move-Inv w' p q e (swap_win {v} g) =
      looked-Inv w' v p e (omega arith) (omega (arith, inv.word, inv.one_claims)) refl refl
        (omega arith)
  Move-Inv w' p q e (wait_readers {v} g) =
      looked-Inv w' w p e (omega arith) inv.one_claims (omega arith) refl refl
  Move-Inv w' p q e write_unlock =
      moved-Inv w' p q e
        (omega (arith, inv.word, inv.one_claims, few_counted, (changes claims p q e).1))
        (omega (arith, inv.one_claims))
        (inl (omega (arith, few_settles, inv.one_claims, (changes settles p q e).1)))

start-Inv : (n : ℕ) → Inv n 0 (λ i. outside)
start-Inv n =
    let c = total_zero n counted outside refl in
    let u = total_zero n claims outside refl in
    record {
      word = omega arith;
      one_claims = omega arith;
      apart = inl (total_zero n settles outside refl);
    }

Reach-Inv : {n : ℕ} {s : System} → n < 2 ^ 62 → Reach n start s → Inv n s.word s.pc
Reach-Inv {n} few here = start-Inv n
Reach-Inv {n} few (later {t} r (pick i {w} {p} lt m)) =
    Move-Inv n t.word t.pc i lt few (Reach-Inv few r) w (t.pc i) p refl m

-- At most one of two threads counts.
two_write :
    (n : ℕ) (pc : ℕ → Pc) (i j : ℕ)
    → i < n
    → j < n
    → i ≢ j
    → writes (pc i) ≡ 1
    → total n claims pc ≤ 1
    → writes (pc j) ≡ 0
two_write n pc i j li lj ne w one =
    let fewer = total_mono n writes claims pc writes-le-claims in
    elim (Bool-cases (ltb i j)) [
      | inl lt ↦ omega (arith, total_two n writes pc i j (ltb→lt i j lt) lj)
      | inr le ↦ omega (arith, total_two n writes pc j i (omega (arith, ltb→le i j le)) li)
    ]

-- With fewer than 2^62 threads, in every state that they reach from a free lock, a thread that writes
-- is the only one that writes, and nobody reads.
pub writer_excludes :
    {n : ℕ} {s : System}
    → n < 2 ^ 62
    → Reach n start s
    → (i j : ℕ) → i < n
    → j < n
    → writes (s.pc i) ≡ 1
    → i ≢ j
    → (writes (s.pc j) ≡ 0) × (reads (s.pc j) ≡ 0)
writer_excludes {n} {s} few r i j li lj w ne =
    let inv = Reach-Inv few r in
    (
      two_write n s.pc i j li lj ne w inv.one_claims,
      elim inv.apart [
        | inl none_settles ↦
            absurd (omega (arith, total_at n settles s.pc i li, writes-le-settles (s.pc i)))
        | inr none_admits ↦ omega (arith, total_at n admits s.pc j lj, reads-le-admits (s.pc j))
      ],
    )

-- With fewer than 2^62 threads, in every state that they reach from a free lock, a thread that waits
-- for readers to leave gets in by at most two steps, all its own, if no thread is counted as a reader.
pub writer_drains :
    {n : ℕ} {s : System}
    → n < 2 ^ 62
    → Reach n start s
    → (i v : ℕ) → i < n
    → s.pc i ≡ drains v
    → ((j : ℕ) → j < n → counted (s.pc j) ≡ 0)
    → (k : ℕ) × (k ≤ 2) × (t : System) × OwnSteps n i s k t × (t.pc i ≡ writing)
writer_drains {n} {s} few r i v lt at none =
    let inv = Reach-Inv few r in
    let c = total_none n counted s.pc none in
    let free : s.word / 2 * 2 ≡ 0 = omega (arith, inv.word, inv.one_claims) in
    elim (Bool-cases (v / 2 * 2 == 0)) [
      | inl clear ↦
          let last : Move s.word (s.pc i) s.word writing =
            subst (λ p. Move s.word p s.word writing) (sym at)
              (enter_write (==→eq (v / 2 * 2) 0 clear)) in
          (1, omega arith, _, one_more none_yet lt last, upd-same s.pc i writing i refl)
      | inr full ↦
          let first : Move s.word (s.pc i) s.word (drains s.word) =
            subst (λ p. Move s.word p s.word (drains s.word)) (sym at)
              (wait_readers (==→ne (v / 2 * 2) 0 full)) in
          let saw = upd-same s.pc i (drains s.word) i refl in
          let second : Move s.word (upd s.pc i (drains s.word) i) s.word writing =
            subst (λ p. Move s.word p s.word writing) (sym saw) (enter_write free) in
          (
            2,
            omega arith,
            _,
            one_more (one_more none_yet lt first) lt second,
            upd-same (upd s.pc i (drains s.word)) i writing i refl,
          )
    ]
