-- ===== src/RwWriters/Tests.antt =====
-- A run of three threads at the lock, and the theorems at this run.
use splaylist.Base.{ℕ, ◌≤◌, ◌<◌, ◌≡◌, refl, arith, zero, suc}
use splaylist.RwWriters.Steps.{
  writing, call_read, see_read, add_read, enter_read, read_unlock, back_off, call_write, load,
  swap_win, wait_readers, enter_write, System, pick, start, Reach, here, later, OwnSteps, counted,
  reads, writes,
}
use splaylist.RwWriters.Safety.{writer_excludes, writer_drains}

-- Thread 0 reads; thread 1 has seen a free lock; thread 2 takes the write bit; thread 1 backs off, and
-- thread 0 leaves.
abbrev waits : (s : System) × Reach 3 start s
waits = (
  _,
  later
      (later
        (later
          (later
            (later
              (later
                (later
                  (later
                    (later
                      (later (later here (pick 0 (omega arith) call_read))
                        (pick 0 (omega arith) (see_read refl)))
                      (pick 1 (omega arith) call_read))
                    (pick 1 (omega arith) (see_read refl)))
                  (pick 0 (omega arith) add_read))
                (pick 0 (omega arith) (enter_read refl)))
              (pick 2 (omega arith) call_write))
            (pick 2 (omega arith) load))
          (pick 2 (omega arith) (swap_win refl)))
        (pick 1 (omega arith) add_read))
      (pick 1 (omega arith) (back_off (λ e. absurd (omega arith)))),
)

abbrev left : (s : System) × Reach 3 start s
left = (_, later waits.1 (pick 0 (omega arith) read_unlock))

abbrev wrote : (s : System) × Reach 3 start s
wrote = (
  _,
  later (later left.1 (pick 2 (omega arith) (wait_readers (λ e. absurd (omega arith)))))
      (pick 2 (omega arith) (enter_write refl)),
)

wrote-word : wrote.0.word ≡ 1
wrote-word = refl

writer_excludes_example : (writes (wrote.0.pc 1) ≡ 0) × (reads (wrote.0.pc 1) ≡ 0)
writer_excludes_example =
    writer_excludes (omega arith) wrote.1 2 1 (omega arith) (omega arith) refl
      (λ e. absurd (omega arith))

nobody_counted : (j : ℕ) → j < 3 → counted (left.0.pc j) ≡ 0
nobody_counted zero lt = refl
nobody_counted (suc zero) lt = refl
nobody_counted (suc (suc zero)) lt = refl
nobody_counted (suc (suc (suc j))) lt = absurd (omega arith)

writer_drains_example :
    (k : ℕ) × (k ≤ 2) × (t : System) × OwnSteps 3 2 left.0 k t × (t.pc 2 ≡ writing)
writer_drains_example = writer_drains (omega arith) left.1 2 2 (omega arith) refl nobody_counted
