-- ===== src/CbShared/RwLock.antt =====
-- What the tree relies on of its reader-writer lock, which is not part of this model.
use splaylist.Base.{ℕ, ◌≡◌, Bool, true, false}
use splaylist.Base.Memory.{upd}

-- `reads l i` and `writes l i` say whether the thread `i` holds the lock, shared or exclusively.
pub record RwLock : Type 1 where
  pub State : Type 0
  pub reads : State → ℕ → Bool
  pub writes : State → ℕ → Bool
  pub SharedLock : State → ℕ → State → Type 0
  pub SharedUnlock : State → ℕ → State → Type 0
  pub ExclusiveLock : State → ℕ → State → Type 0
  pub ExclusiveUnlock : State → ℕ → State → Type 0

-- A shared holder keeps exclusive ones out, an exclusive holder everybody; a free lock can be taken,
-- and a lock that is held can be given back.
pub record IsRwLock (k : RwLock) : Type 0 where
  pub shared_writes :
      (l l' : k.State) (i j : ℕ) → k.SharedLock l i l' → k.writes l' j ≡ k.writes l j
  pub shared_reads :
      (l l' : k.State) (i j : ℕ) → k.SharedLock l i l' → k.reads l' j ≡ upd (k.reads l) i true j
  pub shared_alone : (l l' : k.State) (i j : ℕ) → k.SharedLock l i l' → k.writes l j ≡ false
  pub unshared_writes :
      (l l' : k.State) (i j : ℕ) → k.SharedUnlock l i l' → k.writes l' j ≡ k.writes l j
  pub unshared_reads :
      (l l' : k.State) (i j : ℕ) → k.SharedUnlock l i l' → k.reads l' j ≡ upd (k.reads l) i false j
  pub exclusive_writes :
      (l l' : k.State) (i j : ℕ)
      → k.ExclusiveLock l i l'
      → k.writes l' j ≡ upd (k.writes l) i true j
  pub exclusive_reads :
      (l l' : k.State) (i j : ℕ) → k.ExclusiveLock l i l' → k.reads l' j ≡ k.reads l j
  pub exclusive_alone :
      (l l' : k.State) (i j : ℕ)
      → k.ExclusiveLock l i l'
      → (k.writes l j ≡ false) × (k.reads l j ≡ false)
  pub unexclusive_writes :
      (l l' : k.State) (i j : ℕ)
      → k.ExclusiveUnlock l i l'
      → k.writes l' j ≡ upd (k.writes l) i false j
  pub unexclusive_reads :
      (l l' : k.State) (i j : ℕ) → k.ExclusiveUnlock l i l' → k.reads l' j ≡ k.reads l j
  pub can_share :
      (l : k.State) (i : ℕ)
      → ((j : ℕ) → k.writes l j ≡ false)
      → (l' : k.State) × k.SharedLock l i l'
  pub can_unshare :
      (l : k.State) (i : ℕ) → k.reads l i ≡ true → (l' : k.State) × k.SharedUnlock l i l'
  pub can_exclude :
      (l : k.State) (i : ℕ)
      → ((j : ℕ) → k.writes l j ≡ false)
      → ((j : ℕ) → k.reads l j ≡ false)
      → (l' : k.State) × k.ExclusiveLock l i l'
  pub can_unexclude :
      (l : k.State) (i : ℕ) → k.writes l i ≡ true → (l' : k.State) × k.ExclusiveUnlock l i l'
