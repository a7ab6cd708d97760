-- ===== src/SpinLock/Steps.antt =====
-- The threads at one lock, an access to it at a time. A thread gives the lock back only where it holds it.
use splaylist.Base.{ℕ, zero, suc, ◌≡◌, Bool, true, false}
use splaylist.Base.Memory.{upd}

-- Where a thread stands.
pub data Pc : Type 0 where
  outside : Pc
  spinning : Pc  -- head of the loop of `acquireLock`
  saw_free : Pc  -- before the compare-and-swap
  inside : Pc  -- between `acquireLock` and `releaseLock`

-- A step of a thread, with the lock before and after.
pub data Move (lock : Bool) : Pc → Bool → Pc → Type 0 where
  call_acquire : Move lock outside lock spinning
  pause : lock ≡ true → Move lock spinning lock spinning
  see_free : lock ≡ false → Move lock spinning lock saw_free
  swap_win : lock ≡ false → Move lock saw_free true inside
  swap_lose : lock ≡ true → Move lock saw_free lock spinning
  call_release : Move lock inside false outside

pub record System : Type 0 where
  pub lock : Bool
  pub pc : ℕ → Pc

pub data Step (s : System) : System → Type 0 where
  pick :
      (tid : ℕ) {l : Bool} {p : Pc}
      → Move s.lock (s.pc tid) l p
      → Step s (record { lock = l; pc = upd s.pc tid p })

-- The lock as createNode sets it up.
abbrev pub start : System
start = record { lock = false; pc = λ i. outside }

pub data Reach (s : System) : System → Type 0 where
  here : Reach s s
  later : {t u : System} → Reach s t → Step t u → Reach s u

-- A number of steps, all of them of the thread `tid`.
pub data OwnSteps (tid : ℕ) (s : System) : ℕ → System → Type 0 where
  none_yet : OwnSteps tid s zero s
  one_more :
      {k : ℕ} {t : System} {l : Bool} {p : Pc}
      → OwnSteps tid s k t
      → Move t.lock (t.pc tid) l p
      → OwnSteps tid s (suc k) (record { lock = l; pc = upd t.pc tid p })

abbrev pub is_inside : Pc → Bool
is_inside inside = true
is_inside p = false
