-- ===== src/RwReaders/Tests.antt =====
-- Runs of three threads at the lock, and the theorems at these runs.
use splaylist.Base.{ℕ, ◌+◌, ◌*◌, ◌<◌, ◌≡◌, refl, arith, zero, suc}
use splaylist.RwReaders.Steps.{
  reading, writing, Move, call_read, enter_read, call_upgrade, load, upgrade_win, see_upgrade,
  swap_upgrade_win, call_write, System, pick, start, Reach, here, later, OwnSteps, counted, reads,
  upgrades, writes,
}
use splaylist.Base.Total.{total}
use splaylist.RwReaders.Safety.{writer_alone, word-total, reader_enters, writer_enters}

-- Thread 0 reads, upgrades and writes; thread 1 waits to read.
abbrev wrote : (s : System) × Reach 3 start s
wrote = (
  _,
  later
      (later
        (later
          (later
            (later
              (later
                (later (later here (pick 0 (omega arith) call_read))
                  (pick 0 (omega arith) (enter_read refl)))
                (pick 0 (omega arith) call_upgrade))
              (pick 0 (omega arith) load))
            (pick 0 (omega arith) (upgrade_win refl refl)))
          (pick 0 (omega arith) (see_upgrade refl)))
        (pick 0 (omega arith) (swap_upgrade_win refl)))
      (pick 1 (omega arith) call_read),
)

wrote-word : wrote.0.word ≡ 5
wrote-word = refl

writer_alone_example : (writes (wrote.0.pc 1) ≡ 0) × (reads (wrote.0.pc 1) ≡ 0)
writer_alone_example =
    writer_alone (omega arith) wrote.1 0 1 (omega arith) (omega arith) refl
      (λ e. absurd (omega arith))

word-total_example :
    wrote.0.word
    ≡ 4 * total 3 counted wrote.0.pc + 2 * total 3 upgrades wrote.0.pc + total 3 writes wrote.0.pc
word-total_example = word-total (omega arith) wrote.1

-- Thread 1 waits to read while thread 2 waits to write.
abbrev waits : (s : System) × Reach 3 start s
waits = (_, later (later here (pick 2 (omega arith) call_write)) (pick 1 (omega arith) call_read))

below_three : (P : ℕ → Type 0) → P 0 → P 1 → P 2 → (j : ℕ) → j < 3 → P j
below_three P a b c zero lt = a
below_three P a b c (suc zero) lt = b
below_three P a b c (suc (suc zero)) lt = c
below_three P a b c (suc (suc (suc j))) lt = absurd (omega arith)

reader_enters_example : Move waits.0.word (waits.0.pc 1) waits.0.word reading
reader_enters_example =
    reader_enters (omega arith) waits.1 1 refl
      (below_three (λ j. writes (waits.0.pc j) ≡ 0) refl refl refl)

-- Thread 2 waits to write, and no other thread is at the lock.
abbrev alone : (s : System) × Reach 3 start s
alone = (_, later here (pick 2 (omega arith) call_write))

writer_enters_example : (t : System) × OwnSteps 3 2 alone.0 2 t × (t.pc 2 ≡ writing)
writer_enters_example = writer_enters (omega arith) alone.1 2 (omega arith) refl (
    below_three (λ j. counted (alone.0.pc j) + upgrades (alone.0.pc j) + writes (alone.0.pc j) ≡ 0)
      refl refl refl)
