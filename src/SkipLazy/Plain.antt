-- ===== src/SkipLazy/Plain.antt =====
-- With `noValue` equal to NULL and no NULL inserted, the entries are those of a map with removal.
use splaylist.Base.{
  ℕ, ◌≤◌, ◌<◌, ◌≡◌, ◌≢◌, ◌∙◌, refl, ap, sym, true, Option, none, some, arith, ◌==◌, if◌then◌else◌,
  Bool-cases, inl, inr, ==→eq, ne→==, List, [], ◌∷◌,
}
use splaylist.Base.Memory.{upd, upd-same}
use splaylist.Base.Run.{Returns, Returns-mono}
use splaylist.SkipLazy.State.{SkipList, Nodes, null}
use splaylist.SkipLazy.Search.{contains}
use splaylist.SkipLazy.Change.{erase}
use splaylist.SkipLazy.Ops.{new_list}
use splaylist.SkipLazy.Serves.{Serves}
use splaylist.SkipLazy.Laws.{
  value_or, is_there, inserted_entry, erased_entry, contains-Contained, erase-Erased,
}
use splaylist.SkipLazy.Client.{
  Call, insert_call, find_call, contains_call, erase_call, Reply, value_reply, bool_reply,
  entries_after, replies, run_calls, AreWithin, run_calls-replies,
}

-- An entry without its erased state.
abbrev pub live : Option ℕ → Option ℕ
live none = none
live (some v) = if v == null then none else some v

-- The same calls on a map: an insertion keeps the value of a key that is there, an erasure removes it.
abbrev pub map_reply : Call → (ℕ → Option ℕ) → Reply
map_reply (insert_call tid k x) m = value_reply (value_or null (m k))
map_reply (find_call tid k) m = value_reply (value_or null (m k))
map_reply (contains_call tid k) m = bool_reply (is_there (m k))
map_reply (erase_call k) m = value_reply (value_or null (m k))

abbrev pub first_of : Option ℕ → ℕ → Option ℕ
first_of none x = some x
first_of (some y) x = some y

abbrev pub map_after : Call → (ℕ → Option ℕ) → ℕ → Option ℕ
map_after (insert_call tid k x) m = upd m k (first_of (m k) x)
map_after (find_call tid k) m = m
map_after (contains_call tid k) m = m
map_after (erase_call k) m = upd m k none

abbrev pub map_replies : List Call → (ℕ → Option ℕ) → List Reply
map_replies [] m = []
map_replies (c ∷ cs) m = map_reply c m ∷ map_replies cs (map_after c m)

-- No `contains`, and no insertion of NULL.
abbrev pub ArePlain : List Call → Type 0
ArePlain [] = Unit
ArePlain (insert_call tid k x ∷ cs) = (x ≢ null) × ArePlain cs
ArePlain (find_call tid k ∷ cs) = ArePlain cs
ArePlain (contains_call tid k ∷ cs) = ⊥
ArePlain (erase_call k ∷ cs) = ArePlain cs

value_or-live : (o p : Option ℕ) → live o ≡ p → value_or null o ≡ value_or null p
value_or-live none p e = ap (value_or null) e
value_or-live (some v) p e = elim (Bool-cases (v == null)) [
  | inl z ↦
      let l : live (some v) ≡ none = rw z refl in ==→eq v null z ∙ ap (value_or null) (sym l ∙ e)
  | inr n ↦ let l : live (some v) ≡ some v = rw n refl in ap (value_or null) (sym l ∙ e)
]

live-inserted :
    (o : Option ℕ) (x : ℕ) → x ≢ null → live (inserted_entry null x o) ≡ first_of (live o) x
live-inserted none x n = rw (ne→== x null n) refl
live-inserted (some v) x n = ground arith

live-erased : (o : Option ℕ) → live (erased_entry null o) ≡ none
live-erased none = refl
live-erased (some v) = refl

-- An entry written on both sides.
live-upd :
    (m w : ℕ → Option ℕ) (k : ℕ) (o p : Option ℕ)
    → ((j : ℕ) → live (m j) ≡ w j)
    → live o ≡ p
    → (j : ℕ) → live (upd m k o j) ≡ upd w k p j
live-upd m w k o p h e j = elim (Bool-cases (j == k)) [
  | inl same ↦ rw same e
  | inr other ↦ rw other (h j)
]

replies-live :
    (cs : List Call) (m w : ℕ → Option ℕ)
    → ArePlain cs
    → ((k : ℕ) → live (m k) ≡ w k)
    → replies null cs m ≡ map_replies cs w
replies-live [] m w p h = refl
replies-live (insert_call tid k x ∷ cs) m w (n, p) h =
    ap (λ y. value_reply y ∷ replies null cs (entries_after null (insert_call tid k x) m))
      (value_or-live (m k) (w k) (h k))
    ∙ ap (λ r. value_reply (value_or null (w k)) ∷ r)
        (replies-live cs (upd m k (inserted_entry null x (m k))) (upd w k (first_of (w k) x)) p (
          live-upd m w k (inserted_entry null x (m k)) (first_of (w k) x) h
            (live-inserted (m k) x n ∙ ap (λ o. first_of o x) (h k))))
replies-live (find_call tid k ∷ cs) m w p h =
    ap (λ y. value_reply y ∷ replies null cs m) (value_or-live (m k) (w k) (h k))
    ∙ ap (λ r. value_reply (value_or null (w k)) ∷ r) (replies-live cs m w p h)
replies-live (contains_call tid k ∷ cs) m w p h = absurd p
replies-live (erase_call k ∷ cs) m w p h =
    ap (λ y. value_reply y ∷ replies null cs (entries_after null (erase_call k) m))
      (value_or-live (m k) (w k) (h k))
    ∙ ap (λ r. value_reply (value_or null (w k)) ∷ r)
        (replies-live cs (upd m k (erased_entry null (m k))) (upd w k none) p
          (live-upd m w k (erased_entry null (m k)) none h (live-erased (m k))))

-- A new list whose `noValue` is NULL replies to every sequence of `insertIfAbsent`, `find` and `erase`
-- calls that insert no NULL, with keys from the smallest to the greatest, as a map with removal does.
pub run_calls-map_replies :
    (num_threads min_key max_key : ℕ) (lengths seeds : ℕ → ℕ) (empty : Nodes) (calls : List Call)
    → min_key ≤ max_key
    → AreWithin min_key max_key calls
    → ArePlain calls
    → Returns
        (λ rs. rs ≡ map_replies calls (λ k. none))
        (run_calls calls (new_list num_threads null min_key max_key lengths seeds empty))
run_calls-map_replies num_threads min_key max_key lengths seeds empty calls wide within plain =
    Returns-mono
      (run_calls-replies num_threads null min_key max_key lengths seeds empty calls wide within)
      λ rs e. e ∙ replies-live calls (λ k. none) (λ k. none) plain (λ k. refl)

-- After `erase` of a key that was ever inserted, `contains` still answers true.
pub contains-erase :
    (low high d : ℕ) (m : ℕ → Option ℕ) (s : SkipList) (v : Serves low high d m s) (key x : ℕ)
    → low < key
    → key < high
    → m key ≡ some x
    → (tid : ℕ)
    → Returns (λ (y, s'). Returns (λ (b, t). b ≡ true) (contains tid key s')) (erase key s)
contains-erase low high d m s v key x above below e tid =
    Returns-mono (erase-Erased low high d m s v key above below) λ (y, s') (ey, v').
      Returns-mono
        (contains-Contained low high d (upd m key (erased_entry d (m key))) s' v' key above below
          tid)
        λ (b, t) (eb, vt).
          eb
          ∙ ap is_there (upd-same m key (erased_entry d (m key)) key refl ∙ ap (erased_entry d) e)
