-- ===== src/SpinLock/Tests.antt =====
-- A run of two threads at the lock, and the theorems at that run.
use splaylist.Base.{ℕ, ◌≡◌, refl, true, ◌⊎◌}
use splaylist.SpinLock.Steps.{
  inside, call_acquire, pause, see_free, swap_win, System, pick, start, Reach, here, later,
  OwnSteps, is_inside,
}
use splaylist.SpinLock.Safety.{mutual_exclusion, no_deadlock}

-- Thread 1 gets inside, and thread 2 spins.
abbrev ran : (s : System) × Reach start s
ran = (
  _,
  later
      (later
        (later (later (later here (pick 1 call_acquire)) (pick 1 (see_free refl)))
          (pick 1 (swap_win refl)))
        (pick 2 call_acquire))
      (pick 2 (pause refl)),
)

mutual_exclusion_example : ◌≡◌ {A = ℕ} 1 1
mutual_exclusion_example = mutual_exclusion ran.1 1 1 refl refl

no_deadlock_example :
    ((j : ℕ) × (is_inside (ran.0.pc j) ≡ true))
    ⊎ ((t : System) × OwnSteps 2 ran.0 2 t × (t.pc 2 ≡ inside))
no_deadlock_example = no_deadlock ran.1 2 refl
