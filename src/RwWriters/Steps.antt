-- ===== src/RwWriters/Steps.antt =====
-- The threads at one lock, an access to its word at a time: the number of readers times 2, plus 1 while
-- a thread writes or waits for readers to leave. A thread unlocks only what it holds.
use splaylist.Base.{ℕ, zero, suc, ◌+◌, ◌-◌, ◌*◌, ◌/◌, ◌%◌, ◌^◌, ◌<◌, ◌≡◌, ◌≢◌}
use splaylist.Base.Memory.{upd}

-- The bits of a `long long`, as the number that they are without a sign.
abbrev pub u64 : ℕ → ℕ
u64 n = n % 2 ^ 64

-- `lock & 1` and `lock & ~1`
abbrev pub write_bit : ℕ → ℕ
write_bit w = w % 2

abbrev pub without_write : ℕ → ℕ
without_write w = w / 2 * 2

-- Where a thread stands.
pub data Pc : Type 0 where
  outside : Pc
  waits_read : Pc  -- head of the loop of `readLock`
  adds_read : Pc  -- before it adds 2
  has_added : (sum : ℕ) → Pc  -- before the test of what `__sync_add_and_fetch` returned
  reading : Pc
  waits_write : Pc  -- head of the loop of `writeLock`
  has_loaded : (v : ℕ) → Pc  -- before the compare-and-swap
  drains : (v : ℕ) → Pc  -- head of the loop that waits for readers
  writing : Pc

-- A step of a thread, with the word before and after. The built-in additions and subtractions wrap
-- around.
pub data Move (w : ℕ) : Pc → ℕ → Pc → Type 0 where
  call_read : Move w outside w waits_read
  wait_read : w ≢ 0 → Move w waits_read w waits_read
  see_read : w ≡ 0 → Move w waits_read w adds_read
  add_read : Move w adds_read (u64 (w + 2)) (has_added (u64 (w + 2)))
  enter_read : {v : ℕ} → write_bit v ≡ 0 → Move w (has_added v) w reading
  back_off : {v : ℕ} → write_bit v ≢ 0 → Move w (has_added v) (u64 (w + 2 ^ 64 - 2)) waits_read
  read_unlock : Move w reading (u64 (w + 2 ^ 64 - 2)) outside
  call_write : Move w outside w waits_write
  load : Move w waits_write w (has_loaded w)
  -- `v | 1` is `(v & ~1) + 1`.
  swap_win : {v : ℕ} → w ≡ without_write v → Move w (has_loaded v) (without_write v + 1) (drains v)
  swap_lose : {v : ℕ} → w ≢ without_write v → Move w (has_loaded v) w waits_write
  wait_readers : {v : ℕ} → without_write v ≢ 0 → Move w (drains v) w (drains w)
  enter_write : {v : ℕ} → without_write v ≡ 0 → Move w (drains v) w writing
  write_unlock : Move w writing (u64 (w + 2 ^ 64 - 1)) outside

pub record System : Type 0 where
  pub word : ℕ
  pub pc : ℕ → Pc

pub data Step (n : ℕ) (s : System) : System → Type 0 where
  pick :
      (tid : ℕ) {w : ℕ} {p : Pc}
      → tid < n
      → Move s.word (s.pc tid) w p
      → Step n s (record { word = w; pc = upd s.pc tid p })

-- The lock as its constructor sets it up.
abbrev pub start : System
start = record { word = 0; pc = λ i. outside }

pub data Reach (n : ℕ) (s : System) : System → Type 0 where
  here : Reach n s s
  later : {t u : System} → Reach n s t → Step n t u → Reach n s u

-- A number of steps, all of them of the thread `tid`.
pub data OwnSteps (n tid : ℕ) (s : System) : ℕ → System → Type 0 where
  none_yet : OwnSteps n tid s zero s
  one_more :
      {k : ℕ} {t : System} {w : ℕ} {p : Pc}
      → OwnSteps n tid s k t
      → tid < n
      → Move t.word (t.pc tid) w p
      → OwnSteps n tid s (suc k) (record { word = w; pc = upd t.pc tid p })

-- 1 where a thread is counted in the word as a reader, and where the write bit is its own.
abbrev pub counted : Pc → ℕ
counted (has_added v) = 1
counted reading = 1
counted p = 0

abbrev pub claims : Pc → ℕ
claims (drains v) = 1
claims writing = 1
claims p = 0

-- 1 where a thread reads, or has seen that it may, and where it writes, or has seen that it may.
abbrev pub admits : Pc → ℕ
admits (has_added v) = 1 - write_bit v
admits reading = 1
admits p = 0

abbrev pub settles : Pc → ℕ
settles (drains v) = 1 - v / 2
settles writing = 1
settles p = 0

abbrev pub reads : Pc → ℕ
reads reading = 1
reads p = 0

abbrev pub writes : Pc → ℕ
writes writing = 1
writes p = 0
