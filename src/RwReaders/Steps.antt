-- ===== src/RwReaders/Steps.antt =====
-- The threads at one lock, an access to its word at a time: the number of readers times 4, plus 2 while
-- a reader upgrades, plus 1 while a thread writes. A thread unlocks only what it holds.
use splaylist.Base.{ℕ, zero, suc, ◌+◌, ◌-◌, ◌*◌, ◌/◌, ◌%◌, ◌^◌, ◌<◌, ◌≡◌, ◌≢◌}
use splaylist.Base.Memory.{upd}

-- `size_t`
abbrev pub u64 : ℕ → ℕ
u64 n = n % 2 ^ 64

-- `lock & 1`, `lock & 2` as a bit, and `lock & ~2`
abbrev pub write_bit : ℕ → ℕ
write_bit w = w % 2

abbrev pub upgrade_bit : ℕ → ℕ
upgrade_bit w = w / 2 % 2

abbrev pub without_upgrade : ℕ → ℕ
without_upgrade w = w - 2 * upgrade_bit w

-- Where a thread stands.
pub data Pc : Type 0 where
  outside : Pc
  waits_read : Pc  -- the loop of `readLock`
  reading : Pc
  tries_upgrade : Pc  -- head of the loop of `upgradeLock`
  has_loaded : (expval : ℕ) → Pc
  upgrading : Pc  -- head of the inner loop
  swaps_upgrade : Pc  -- before the inner compare-and-swap
  waits_write : Pc  -- head of the loop of `writeLock`
  swaps_write : Pc  -- before its compare-and-swap
  writing : Pc

-- A step of a thread, with the word before and after.
pub data Move (w : ℕ) : Pc → ℕ → Pc → Type 0 where
  call_read : Move w outside (u64 (w + 4)) waits_read
  wait_read : write_bit w ≢ 0 → Move w waits_read w waits_read
  enter_read : write_bit w ≡ 0 → Move w waits_read w reading
  read_unlock : Move w reading (u64 (w + 2 ^ 64 - 4)) outside
  call_upgrade : Move w reading w tries_upgrade
  load : Move w tries_upgrade w (has_loaded w)
  -- `upgradeLock` returns false, and the thread still reads.
  give_up : {e : ℕ} → upgrade_bit e ≢ 0 → Move w (has_loaded e) w reading
  -- `(expval - 4) | 2`, where the bit is clear
  upgrade_win :
      {e : ℕ}
      → upgrade_bit e ≡ 0
      → w ≡ e
      → Move w (has_loaded e) (u64 (e + 2 ^ 64 - 4) + 2) upgrading
  upgrade_lose : {e : ℕ} → upgrade_bit e ≡ 0 → w ≢ e → Move w (has_loaded e) w tries_upgrade
  wait_upgrade : without_upgrade w ≢ 0 → Move w upgrading w upgrading
  see_upgrade : without_upgrade w ≡ 0 → Move w upgrading w swaps_upgrade
  swap_upgrade_win : w ≡ 2 → Move w swaps_upgrade 1 writing
  swap_upgrade_lose : w ≢ 2 → Move w swaps_upgrade w upgrading
  call_write : Move w outside w waits_write
  wait_write : w ≢ 0 → Move w waits_write w waits_write
  see_write : w ≡ 0 → Move w waits_write w swaps_write
  swap_write_win : w ≡ 0 → Move w swaps_write 1 writing
  swap_write_lose : w ≢ 0 → Move w swaps_write w waits_write
  write_unlock : Move w writing (u64 (w + 2 ^ 64 - 1)) outside

pub record System : Type 0 where
  pub word : ℕ
  pub pc : ℕ → Pc

pub data Step (n : ℕ) (s : System) : System → Type 0 where
  pick :
      (tid : ℕ) {w : ℕ} {p : Pc}
      → tid < n
      → Move s.word (s.pc tid) w p
      → Step n s (record { word = w; pc = upd s.pc tid p })

-- The lock as its constructor sets it up.
abbrev pub start : System
start = record { word = 0; pc = λ i. outside }

pub data Reach (n : ℕ) (s : System) : System → Type 0 where
  here : Reach n s s
  later : {t u : System} → Reach n s t → Step n t u → Reach n s u

-- A number of steps, all of them of the thread `tid`.
pub data OwnSteps (n tid : ℕ) (s : System) : ℕ → System → Type 0 where
  none_yet : OwnSteps n tid s zero s
  one_more :
      {k : ℕ} {t : System} {w : ℕ} {p : Pc}
      → OwnSteps n tid s k t
      → tid < n
      → Move t.word (t.pc tid) w p
      → OwnSteps n tid s (suc k) (record { word = w; pc = upd t.pc tid p })

-- 1 where a thread is counted as a reader, where it may read, where it upgrades, and where it writes.
abbrev pub counted : Pc → ℕ
counted waits_read = 1
counted reading = 1
counted tries_upgrade = 1
counted (has_loaded e) = 1
counted p = 0

abbrev pub reads : Pc → ℕ
reads reading = 1
reads tries_upgrade = 1
reads (has_loaded e) = 1
reads p = 0

abbrev pub upgrades : Pc → ℕ
upgrades upgrading = 1
upgrades swaps_upgrade = 1
upgrades p = 0

abbrev pub writes : Pc → ℕ
writes writing = 1
writes p = 0
