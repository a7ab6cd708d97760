-- ===== src/FlexLocks/Client.antt =====
-- Calls by any threads, one after the other, against the same calls on a map.
use splaylist.Base.{ℕ, ◌<◌, ◌≡◌, ◌∙◌, refl, ap, Option, none, List, [], ◌∷◌}
use splaylist.Base.Run.{Run, done, ◌>>=◌, Ensures, ensures, Ensures-bind}
use splaylist.FlexSeq.State.{upd}
use splaylist.FlexSeq.Client.{Reply, value_reply, bool_reply, value_or, is_there}
use splaylist.FlexLocks.Shared.{LockList}
use splaylist.FlexLocks.Ops.{contains, qfind, insert_if_absent, erase}
use splaylist.FlexLocks.Serves.{Serves}
use splaylist.FlexLocks.Calls.{first_of, qfind-Gives, contains-Gives}
use splaylist.FlexLocks.Changes.{erase-Gives, insert_if_absent-Gives}

-- A call, with the thread that makes it.
pub data Call : Type 0 where
  insert_call : ℕ → ℕ → ℕ → Call
  erase_call : ℕ → ℕ → Call
  find_call : ℕ → ℕ → Call
  contains_call : ℕ → ℕ → Call

abbrev pub key_of : Call → ℕ
key_of (insert_call tid k x) = k
key_of (erase_call tid k) = k
key_of (find_call tid k) = k
key_of (contains_call tid k) = k

abbrev pub call : Call → LockList → Run (Reply ℕ × LockList)
call (insert_call tid k x) s = do (y, s') ← insert_if_absent tid k x s; done (value_reply y, s')
call (erase_call tid k) s = do (y, s') ← erase tid k s; done (value_reply y, s')
call (find_call tid k) s = do (y, s') ← qfind tid k s; done (value_reply y, s')
call (contains_call tid k) s = do (b, s') ← contains tid k s; done (bool_reply b, s')

-- The same call on a map, where `d` stands for no value.
abbrev pub reply : ℕ → Call → (ℕ → Option ℕ) → Reply ℕ
reply d (insert_call tid k x) m = value_reply (value_or d (m k))
reply d (erase_call tid k) m = value_reply (value_or d (m k))
reply d (find_call tid k) m = value_reply (value_or d (m k))
reply d (contains_call tid k) m = bool_reply (is_there (m k))

abbrev pub store_after : ℕ → Call → (ℕ → Option ℕ) → ℕ → Option ℕ
store_after d (insert_call tid k x) m = upd m k (first_of d (m k) x)
store_after d (erase_call tid k) m = upd m k none
store_after d (find_call tid k) m = m
store_after d (contains_call tid k) m = m

-- The reply of the map, and a list that serves as the map does afterwards.
abbrev pub Replied : ℕ → ℕ → ℕ → Call → (ℕ → Option ℕ) → Reply ℕ × LockList → Type 0
Replied low high d c m (r, s) = (r ≡ reply d c m) × Serves low high d (store_after d c m) s

call-Replied :
    (low high d : ℕ) (m : ℕ → Option ℕ) (c : Call) (s : LockList)
    → Serves low high d m s
    → low < key_of c
    → key_of c < high
    → Ensures (Replied low high d c m) (call c s)
call-Replied low high d m (insert_call tid k x) s v above below =
    Ensures-bind (insert_if_absent-Gives low high d m s v tid k above below x)
      λ (y, s') (e, w). ensures (ap value_reply e, w)
call-Replied low high d m (erase_call tid k) s v above below =
    Ensures-bind (erase-Gives low high d m s v tid k above below)
      λ (y, s') (e, w). ensures (ap value_reply e, w)
call-Replied low high d m (find_call tid k) s v above below =
    Ensures-bind (qfind-Gives low high d m s v tid k above below)
      λ (y, s') (e, w). ensures (ap value_reply e, w)
call-Replied low high d m (contains_call tid k) s v above below =
    Ensures-bind (contains-Gives low high d m s v tid k above below)
      λ (b, s') (e, w). ensures (ap bool_reply e, w)

-- The replies to the calls in a row, from the list and from the map.
abbrev pub run_calls : List Call → LockList → Run (List (Reply ℕ))
run_calls [] s = done []
run_calls (c ∷ cs) s = do (r, s') ← call c s; rs ← run_calls cs s'; done (r ∷ rs)

abbrev pub replies : ℕ → List Call → (ℕ → Option ℕ) → List (Reply ℕ)
replies d [] m = []
replies d (c ∷ cs) m = reply d c m ∷ replies d cs (store_after d c m)

-- Every call has a key between `low` and `high`.
abbrev pub AreWithin : ℕ → ℕ → List Call → Type 0
AreWithin low high [] = Unit
AreWithin low high (c ∷ cs) = (low < key_of c) × (key_of c < high) × AreWithin low high cs

pub run_calls-Serves :
    (low high d : ℕ) (cs : List Call) (m : ℕ → Option ℕ) (s : LockList)
    → Serves low high d m s
    → AreWithin low high cs
    → Ensures (λ rs. rs ≡ replies d cs m) (run_calls cs s)
run_calls-Serves low high d [] m s v w = ensures refl
run_calls-Serves low high d (c ∷ cs) m s v (a, b, w) =
    Ensures-bind (call-Replied low high d m c s v a b) λ (r, s') (e, v').
      Ensures-bind (run_calls-Serves low high d cs (store_after d c m) s' v' w)
        λ rs es. ensures (ap (λ x. x ∷ rs) e ∙ ap (λ x. reply d c m ∷ x) es)
