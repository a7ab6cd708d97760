-- ===== src/SkipLazy/Client.antt =====
-- Sequences of calls, against the same calls on a map.
use splaylist.Base.{
  ℕ, ◌+◌, ◌-◌, ◌≤◌, ◌<◌, ◌≡◌, ◌∙◌, refl, ap, Bool, true, false, Option, none, List, [], ◌∷◌, arith,
  ◌==◌, Bool-cases, inl, inr, ==→eq, ==→ne,
}
use splaylist.Base.Memory.{upd}
use splaylist.Base.Run.{Run, done, Returns, returns, Returns-bind, ◌>>=◌}
use splaylist.SkipLazy.State.{SkipList, Nodes, null, stored}
use splaylist.SkipLazy.Search.{contains, find}
use splaylist.SkipLazy.Change.{insert_if_absent, erase}
use splaylist.SkipLazy.Ops.{new_list}
use splaylist.SkipLazy.Serves.{Serves}
use splaylist.SkipLazy.New.{new_list-Serves}
use splaylist.SkipLazy.Insertion.{insert_if_absent-Inserted}
use splaylist.SkipLazy.Laws.{
  value_or, is_there, inserted_entry, erased_entry, contains-Contained, find-Fetched, erase-Erased,
}

-- A call of the thread `tid`, with the key as the source has it.
pub data Call : Type 0 where
  insert_call : (tid key value : ℕ) → Call
  find_call : (tid key : ℕ) → Call
  contains_call : (tid key : ℕ) → Call
  erase_call : (key : ℕ) → Call

pub data Reply : Type 0 where
  value_reply : ℕ → Reply
  bool_reply : Bool → Reply

abbrev pub key_of : Call → ℕ
key_of (insert_call tid k x) = k
key_of (find_call tid k) = k
key_of (contains_call tid k) = k
key_of (erase_call k) = k

abbrev pub call : Call → SkipList → Run (Reply × SkipList)
call (insert_call tid k x) s = do
  (y, s') ← insert_if_absent tid (stored k) x s
  done (value_reply y, s')
call (find_call tid k) s = do (y, s') ← find tid (stored k) s; done (value_reply y, s')
call (contains_call tid k) s = do (b, s') ← contains tid (stored k) s; done (bool_reply b, s')
call (erase_call k) s = do (y, s') ← erase (stored k) s; done (value_reply y, s')

-- The same call on the entries of a map, where `d` is `noValue`.
abbrev pub reply : ℕ → Call → (ℕ → Option ℕ) → Reply
reply d (insert_call tid k x) m = value_reply (value_or null (m k))
reply d (find_call tid k) m = value_reply (value_or null (m k))
reply d (contains_call tid k) m = bool_reply (is_there (m k))
reply d (erase_call k) m = value_reply (value_or d (m k))

abbrev pub entries_after : ℕ → Call → (ℕ → Option ℕ) → ℕ → Option ℕ
entries_after d (insert_call tid k x) m = upd m k (inserted_entry d x (m k))
entries_after d (find_call tid k) m = m
entries_after d (contains_call tid k) m = m
entries_after d (erase_call k) m = upd m k (erased_entry d (m k))

abbrev pub run_calls : List Call → SkipList → Run (List Reply)
run_calls [] s = done []
run_calls (c ∷ cs) s = do (r, s') ← call c s; rs ← run_calls cs s'; done (r ∷ rs)

abbrev pub replies : ℕ → List Call → (ℕ → Option ℕ) → List Reply
replies d [] m = []
replies d (c ∷ cs) m = reply d c m ∷ replies d cs (entries_after d c m)

-- Every call has a key from `min_key` to `max_key`.
abbrev pub AreWithin : ℕ → ℕ → List Call → Type 0
AreWithin min_key max_key [] = Unit
AreWithin min_key max_key (c ∷ cs) =
    (min_key ≤ key_of c) × (key_of c ≤ max_key) × AreWithin min_key max_key cs

-- The list serves as a map whose entries are those of `m`, each at the key as it is written.
abbrev Holds : ℕ → ℕ → ℕ → (ℕ → Option ℕ) → SkipList → Type 0
Holds low high d m s = (w : ℕ → Option ℕ) × ((k : ℕ) → w (stored k) ≡ m k) × Serves low high d w s

-- An entry written on both sides.
upd-stored :
    (w m : ℕ → Option ℕ) (k : ℕ) (o p : Option ℕ)
    → ((j : ℕ) → w (stored j) ≡ m j)
    → o ≡ p
    → (j : ℕ) → upd w (stored k) o (stored j) ≡ upd m k p j
upd-stored w m k o p a e j = elim (Bool-cases (j == k)) [
  | inl same ↦
      let both : (stored j == stored k) ≡ true = ground (arith, ==→eq j k same) in rw (both, same) e
  | inr other ↦
      let both : (stored j == stored k) ≡ false = ground (arith, ==→ne j k other) in
      rw (both, other) (a j)
]

abbrev Replied : ℕ → ℕ → ℕ → Call → (ℕ → Option ℕ) → Reply × SkipList → Type 0
Replied low high d c m (r, s) = (r ≡ reply d c m) × Holds low high d (entries_after d c m) s

call-Replied :
    (low high d : ℕ) (m : ℕ → Option ℕ) (c : Call) (s : SkipList)
    → Holds low high d m s
    → low < stored (key_of c)
    → stored (key_of c) < high
    → Returns (Replied low high d c m) (call c s)
call-Replied low high d m (insert_call tid k x) s (w, a, v) above below =
    Returns-bind (insert_if_absent-Inserted low high d w s v (stored k) above below tid x)
      λ (y, s') (e, v'). returns (
        ap value_reply (e ∙ ap (value_or null) (a k)),
        (_, upd-stored w m k _ _ a (ap (inserted_entry d x) (a k)), v'),
      )
call-Replied low high d m (find_call tid k) s (w, a, v) above below =
    Returns-bind (find-Fetched low high d w s v (stored k) above below tid)
      λ (y, s') (e, v'). returns (ap value_reply (e ∙ ap (value_or null) (a k)), (w, a, v'))
call-Replied low high d m (contains_call tid k) s (w, a, v) above below =
    Returns-bind (contains-Contained low high d w s v (stored k) above below tid)
      λ (b, s') (e, v'). returns (ap bool_reply (e ∙ ap is_there (a k)), (w, a, v'))
call-Replied low high d m (erase_call k) s (w, a, v) above below =
    Returns-bind (erase-Erased low high d w s v (stored k) above below) λ (y, s') (e, v'). returns (
      ap value_reply (e ∙ ap (value_or d) (a k)),
      (_, upd-stored w m k _ _ a (ap (erased_entry d) (a k)), v'),
    )

run_calls-Holds :
    (min_key max_key d : ℕ) (cs : List Call) (m : ℕ → Option ℕ) (s : SkipList)
    → Holds (stored min_key - 1) (stored max_key + 1) d m s
    → AreWithin min_key max_key cs
    → Returns (λ rs. rs ≡ replies d cs m) (run_calls cs s)
run_calls-Holds min_key max_key d [] m s v w = returns refl
run_calls-Holds min_key max_key d (c ∷ cs) m s v (a, b, w) =
    Returns-bind (call-Replied _ _ d m c s v (omega arith) (omega arith)) λ (r, s') (e, v').
      Returns-bind (run_calls-Holds min_key max_key d cs (entries_after d c m) s' v' w)
        λ rs es. returns (ap (λ x. x ∷ rs) e ∙ ap (λ x. reply d c m ∷ x) es)

-- A new list replies to every sequence of calls with keys from the smallest to the greatest, and never
-- waits in vain: as a map does from keys to entries in which an erased key stays with `noValue`.
pub run_calls-replies :
    (num_threads no_value min_key max_key : ℕ) (lengths seeds : ℕ → ℕ) (empty : Nodes)
    (calls : List Call)
    → min_key ≤ max_key
    → AreWithin min_key max_key calls
    → Returns
        (λ rs. rs ≡ replies no_value calls (λ k. none))
        (run_calls calls (new_list num_threads no_value min_key max_key lengths seeds empty))
run_calls-replies num_threads no_value min_key max_key lengths seeds empty calls wide within =
    run_calls-Holds min_key max_key no_value calls (λ k. none)
      (new_list num_threads no_value min_key max_key lengths seeds empty)
      (
        (λ k. none),
        (λ k. refl),
        new_list-Serves num_threads no_value min_key max_key lengths seeds empty wide,
      )
      within
