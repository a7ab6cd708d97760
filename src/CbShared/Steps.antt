-- ===== src/CbShared/Steps.antt =====
-- The steps of the threads: every access to the lock is one step. A critical section takes two: it
-- reads the tree, and it writes what its search makes of the tree that it read; steps of others may come
-- between. The value of a node is never written once the node is linked, so it is read with the search
-- that finds the node.
use splaylist.Base.{ℕ, ◌≡◌, Bool, true, false, Option, some, List, [], ◌∷◌, ◌++◌, ◌==◌}
use splaylist.Base.Memory.{upd}
use splaylist.CbTree.Tree.{Tree}
use splaylist.CbTree.Ops.{CbTree, search_no_restructure, insert_if_absent, find}
use splaylist.CbTree.Client.{insert_key, or_else}
use splaylist.CbShared.RwLock.{RwLock}
use splaylist.CbShared.State.{
  Shared, seen_at, put, put_length, count_op, reset_ops, set_cops, Goal, reads, inserts, Pc, Event,
  settled,
}

module _ (lock : RwLock) (rotation_eps : ℕ) (restructures : ℕ → Shared → Bool) where
  -- A step of the thread `tid`, with the calls that it settles.
  pub data Move (tid : ℕ) (s : Shared) (l : lock.State)
      : Pc → Shared → lock.State → Pc → List Event → Type 0 where
    call_find : (key : ℕ) → Move tid s l Pc.idle (count_op tid s) l (Pc.entered reads key) []
    call_insert :
        (key x : ℕ) → Move tid s l Pc.idle (count_op tid s) l (Pc.entered (inserts x) key) []
    call_set_cops : (n : ℕ) → Move tid s l Pc.idle (set_cops n s) l Pc.idle []
    go_exclusive :
        {g : Goal} {key : ℕ}
        → restructures tid s ≡ true
        → Move tid s l (Pc.entered g key) s l (Pc.wants_exclusive g key) []
    go_shared :
        {g : Goal} {key : ℕ}
        → restructures tid s ≡ false
        → Move tid s l (Pc.entered g key) s l (Pc.wants_shared g key) []
    lock_exclusive :
        {g : Goal} {key : ℕ} {l' : lock.State}
        → lock.ExclusiveLock l tid l'
        → Move tid s l (Pc.wants_exclusive g key) s l' (Pc.restructuring g key) []
    begin_restructure :
        {g : Goal} {key : ℕ}
        → Move tid s l (Pc.restructuring g key) s l (Pc.splaying g key s.root) []
    restructure :
        {g : Goal} {key v : ℕ} {u : Tree ℕ} {t : CbTree ℕ}
        → find rotation_eps (seen_at tid u s) key ≡ some (t, v)
        → Move tid s l
            (Pc.splaying g key u)
            (put tid t s)
            l
            (Pc.restructured g key v)
            (settled s.no_value g key v)
    unlock_exclusive :
        {g : Goal} {key v : ℕ} {l' : lock.State}
        → lock.ExclusiveUnlock l tid l'
        → Move tid s l (Pc.restructured g key v) s l' (Pc.resets g key v) []
    reset :
        {g : Goal} {key v : ℕ}
        → Move tid s l (Pc.resets g key v) (reset_ops tid s) l (Pc.found g key v) []
    lock_shared :
        {g : Goal} {key : ℕ} {l' : lock.State}
        → lock.SharedLock l tid l'
        → Move tid s l (Pc.wants_shared g key) s l' (Pc.reading g key) []
    begin_read :
        {g : Goal} {key : ℕ} → Move tid s l (Pc.reading g key) s l (Pc.walking g key s.root) []
    read :
        {g : Goal} {key : ℕ} {u : Tree ℕ} {o : Option ℕ} {t : CbTree ℕ}
        → search_no_restructure (seen_at tid u s) key ≡ some (t, o)
        → Move tid s l
            (Pc.walking g key u)
            (put_length tid t s)
            l
            (Pc.has_read g key (or_else s.no_value o))
            (settled s.no_value g key (or_else s.no_value o))
    unlock_shared :
        {g : Goal} {key v : ℕ} {l' : lock.State}
        → lock.SharedUnlock l tid l'
        → Move tid s l (Pc.has_read g key v) s l' (Pc.found g key v) []
    return_found : {key v : ℕ} → Move tid s l (Pc.found reads key v) s l Pc.idle []
    return_present :
        {key v x : ℕ}
        → (v == s.no_value) ≡ false
        → Move tid s l (Pc.found (inserts x) key v) s l Pc.idle []
    go_insert :
        {key v x : ℕ}
        → (v == s.no_value) ≡ true
        → Move tid s l (Pc.found (inserts x) key v) s l (Pc.wants_insert key x) []
    lock_insert :
        {key x : ℕ} {l' : lock.State}
        → lock.ExclusiveLock l tid l'
        → Move tid s l (Pc.wants_insert key x) s l' (Pc.inserting key x) []
    begin_insert : {key x : ℕ} → Move tid s l (Pc.inserting key x) s l (Pc.placing key x s.root) []
    insert :
        {key x v : ℕ} {u : Tree ℕ} {t : CbTree ℕ}
        → insert_if_absent rotation_eps (seen_at tid u s) key x ≡ some (t, v)
        → Move tid s l
            (Pc.placing key x u)
            (put tid t s)
            l
            (Pc.inserted key x v)
            (record { call = insert_key key x; reply = v } ∷ [])
    unlock_insert :
        {key x v : ℕ} {l' : lock.State}
        → lock.ExclusiveUnlock l tid l'
        → Move tid s l (Pc.inserted key x v) s l' Pc.idle []

  -- All threads; `history` has the settled calls, the last one first.
  pub record System : Type 0 where
    pub shared : Shared
    pub state : lock.State
    pub pc : ℕ → Pc
    pub history : List Event

  -- A step of the system, from any thread.
  pub data Step (s : System) : System → Type 0 where
    pick :
        (tid : ℕ) {t : Shared} {l : lock.State} {p : Pc} {es : List Event}
        → Move tid s.shared s.state (s.pc tid) t l p es
        → Step s (record { shared = t; state = l; pc = upd s.pc tid p; history = es ++ s.history })

  -- What steps lead to.
  pub data Reach (start : System) : System → Type 0 where
    here : Reach start start
    later : {s t : System} → Reach start s → Step s t → Reach start t
