-- ===== src/CbTree/Adapter.antt =====
-- structs_bench/ds/cbtree/adapter.h: what the benchmarks call. Values are numbers, as they are compared.
use splaylist.Base.{
  ℕ, ◌≡◌, ◌∙◌, refl, Bool, not, ◌&&◌, Bool-cases, inl, inr, Option, none, some, List, [], ◌∷◌, ◌==◌,
  if◌then◌else◌,
}
use splaylist.Base.Entries.{lookup}
use splaylist.CbTree.Ops.{CbTree, new_tree, get_length, find, insert_if_absent}
use splaylist.CbTree.Entries.{entries}
use splaylist.CbTree.Laws.{IsValid, find-lookup, insert_if_absent-lookup}
use splaylist.CbTree.Client.{or_else, with_entry, new_tree-IsValid}

-- How an operation ends: `setbench_error` aborts the program, and so does an `assert` that fails, where
-- the program is built with asserts.
pub data Outcome (A : Type 0) : Type 0 where
  returned : A → Outcome A
  aborted : Outcome A
  crashed : Outcome A  -- a null pointer is read

-- `ds_adapter`
pub record Adapter : Type 0 where
  pub no_value : ℕ
  pub tree : CbTree ℕ

-- The constructor; `old_length` is what the memory of the tree holds.
unfoldable pub new_adapter : ℕ → ℕ → ℕ → Adapter
new_adapter key_max value_reserved old_length = record {
  no_value = value_reserved;
  tree = new_tree key_max value_reserved old_length;
}

unfoldable pub get_no_value : Adapter → ℕ
get_no_value a = a.no_value

abbrev outcome : {A B : Type 0} → Adapter → (A → B) → Option (CbTree ℕ × A) → Outcome (Adapter × B)
outcome a f none = crashed
outcome a f (some (t, x)) = returned (record a { tree = t }, f x)

-- `contains`; the default `rotation_eps` is 1.
unfoldable pub adapter_contains : ℕ → Adapter → Outcome (Adapter × Bool)
unfolding get_no_value
adapter_contains key a = outcome a (λ v. not (v == get_no_value a)) (find 1 a.tree key)

unfoldable pub adapter_find : ℕ → Adapter → Outcome (Adapter × ℕ)
adapter_find key a = outcome a (λ v. v) (find 1 a.tree key)

-- `insertIfAbsent`, which asserts `tid == 0`; `asserts` is false where the program is built with
-- `-DNDEBUG`, as both Makefiles do unless told otherwise.
unfoldable pub adapter_insert_if_absent : Bool → ℕ → ℕ → ℕ → Adapter → Outcome (Adapter × ℕ)
adapter_insert_if_absent asserts tid key val a =
    if asserts && not (tid == 0)
    then aborted
    else outcome a (λ v. v) (insert_if_absent 1 a.tree key val)

-- `insert`, `erase` and `rangeQuery` are not implemented.
unfoldable pub adapter_insert : ℕ → ℕ → Adapter → Outcome (Adapter × ℕ)
adapter_insert key val a = aborted

unfoldable pub adapter_erase : ℕ → Adapter → Outcome (Adapter × ℕ)
adapter_erase key a = aborted

unfoldable pub adapter_range_query : ℕ → ℕ → Adapter → Outcome (Adapter × ℕ)
adapter_range_query low high a = aborted

unfoldable pub paths_length : Adapter → ℕ
unfolding get_length
paths_length a = get_length a.tree

pub data Request : Type 0 where
  contains_key : (key : ℕ) → Request
  find_value : (key : ℕ) → Request
  insert_value : (tid key val : ℕ) → Request
  replace_value : (key val : ℕ) → Request
  erase_key : (key : ℕ) → Request
  range_query : (low high : ℕ) → Request

pub data Answer : Type 0 where
  bool_answer : Bool → Answer
  value_answer : ℕ → Answer
  abort_answer : Answer  -- the program ends here
  crash_answer : Answer

abbrev answered :
    {B : Type 0} → (B → Answer) → (Adapter → List Answer) → Outcome (Adapter × B) → List Answer
answered f next (returned (a, x)) = f x ∷ next a
answered f next aborted = abort_answer ∷ []
answered f next crashed = crash_answer ∷ []

-- The answers to the requests, up to the first one that ends the program.
unfoldable pub serve : Bool → List Request → Adapter → List Answer
unfolding adapter_contains adapter_find adapter_insert_if_absent adapter_insert adapter_erase
    adapter_range_query
serve asserts [] a = []
serve asserts (contains_key k ∷ rs) a =
    answered bool_answer (serve asserts rs) (adapter_contains k a)
serve asserts (find_value k ∷ rs) a = answered value_answer (serve asserts rs) (adapter_find k a)
serve asserts (insert_value tid k v ∷ rs) a =
    answered value_answer (serve asserts rs) (adapter_insert_if_absent asserts tid k v a)
serve asserts (replace_value k v ∷ rs) a =
    answered value_answer (serve asserts rs) (adapter_insert k v a)
serve asserts (erase_key k ∷ rs) a = answered value_answer (serve asserts rs) (adapter_erase k a)
serve asserts (range_query l h ∷ rs) a =
    answered value_answer (serve asserts rs) (adapter_range_query l h a)

-- The same on a map: an absent key reads as `d`, and a key with the value `d` counts as absent.
abbrev pub answers : Bool → ℕ → List Request → List (ℕ × ℕ) → List Answer
answers asserts d [] xs = []
answers asserts d (contains_key k ∷ rs) xs =
    bool_answer (not (or_else d (lookup k xs) == d)) ∷ answers asserts d rs xs
answers asserts d (find_value k ∷ rs) xs =
    value_answer (or_else d (lookup k xs)) ∷ answers asserts d rs xs
answers asserts d (insert_value tid k v ∷ rs) xs =
    if asserts && not (tid == 0)
    then abort_answer ∷ []
    else value_answer (or_else d (lookup k xs)) ∷ answers asserts d rs (with_entry k v xs)
answers asserts d (replace_value k v ∷ rs) xs = abort_answer ∷ []
answers asserts d (erase_key k ∷ rs) xs = abort_answer ∷ []
answers asserts d (range_query l h ∷ rs) xs = abort_answer ∷ []

-- The adapter and its tree agree on the value for an absent key, and the tree is valid.
pub record IsReady (d : ℕ) (a : Adapter) : Type 0 where
  pub valid : IsValid a.tree
  pub default : a.tree.no_value ≡ d
  pub agrees : a.no_value ≡ d

-- An adapter over a valid tree answers every sequence of requests as a map does, where a key with the
-- value for absent keys counts as absent, and ends the program
-- only where the map says so: at `insert`, `erase` and `rangeQuery`, and, if it is built with asserts,
-- where another thread than 0 calls insertIfAbsent; no null pointer is read.
pub serve-answers :
    (asserts : Bool) (d : ℕ) (rs : List Request) (a : Adapter)
    → IsReady d a
    → serve asserts rs a ≡ answers asserts d rs (entries a.tree.root)
unfolding serve get_no_value
serve-answers asserts d [] a h = refl
serve-answers asserts d (replace_value k v ∷ rs) a h = refl
serve-answers asserts d (erase_key k ∷ rs) a h = refl
serve-answers asserts d (range_query l u ∷ rs) a h = refl
serve-answers asserts d (contains_key k ∷ rs) a h =
    let (t, run, same, valid, nv, len) = find-lookup 1 a.tree k h.valid in
    let rest =
      serve-answers asserts d rs (record a { tree = t })
        (record { valid = valid; default = nv ∙ h.default; agrees = h.agrees }) in
    rw (run, rest, same, h.default, h.agrees) refl
serve-answers asserts d (find_value k ∷ rs) a h =
    let (t, run, same, valid, nv, len) = find-lookup 1 a.tree k h.valid in
    let rest =
      serve-answers asserts d rs (record a { tree = t })
        (record { valid = valid; default = nv ∙ h.default; agrees = h.agrees }) in
    rw (run, rest, same, h.default) refl
serve-answers asserts d (insert_value tid k v ∷ rs) a h =
    let ((t, x), run, (reply, ent, valid, nv)) = insert_if_absent-lookup 1 a.tree k v h.valid in
    let rest =
      serve-answers asserts d rs (record a { tree = t })
        (record { valid = valid; default = nv ∙ h.default; agrees = h.agrees }) in
    elim (Bool-cases (asserts && not (tid == 0))) [
      | inl fails ↦ rw fails refl
      | inr holds ↦ rw (holds, run, rest, ent, reply, h.default) refl
    ]

pub new_adapter-IsReady :
    (key_max value_reserved old_length : ℕ)
    → IsReady value_reserved (new_adapter key_max value_reserved old_length)
unfolding new_adapter new_tree
new_adapter-IsReady key_max value_reserved old_length = record {
  valid = new_tree-IsValid key_max value_reserved old_length;
  default = refl;
  agrees = refl;
}
