-- ===== src/SkipLazy/Tests.antt =====
-- Runs of the lazy skip list, and its theorems at concrete lists.
use splaylist.Base.{
  List, [], ◌∷◌, ℕ, ◌+◌, ◌≡◌, refl, true, false, ◌&&◌, if◌then◌else◌, ◌==◌, Option, none, some,
  arith,
}
use splaylist.Base.Memory.{upd}
use splaylist.Base.Run.{Run, done, stuck, sunk, Returns, returns}
use splaylist.SkipLazy.State.{
  Nodes, SkipList, max_level, null, stored, acquire_lock, release_lock, swap_value, create_node,
}
use splaylist.SkipLazy.Random.{next_seed, first_clear, gen_random, IsFirst, gen_random-IsFirst}
use splaylist.SkipLazy.Search.{
  walk_counted, search_levels, contains, find, walk, find_levels, find_max, find_all,
}
use splaylist.SkipLazy.Change.{
  raise_max, lock_levels, unlock_levels, fill_next, link_preds, link_node, revive_loop,
  insert_found, insert_absent, insert_loop, insert_if_absent, erase_loop, erase,
}
use splaylist.SkipLazy.Ops.{link_ends, new_list, mem_key, validate_loop, validate}
use splaylist.SkipLazy.Shape.Places.{ArePlaced, find_all-ArePlaced}
use splaylist.SkipLazy.Serves.{Serves}
use splaylist.SkipLazy.Insertion.{insert_if_absent-Inserted}
use splaylist.SkipLazy.Laws.{erase-Erased}
use splaylist.SkipLazy.New.{new_list-Serves}
use splaylist.SkipLazy.Client.{
  Call, insert_call, find_call, erase_call, value_reply, AreWithin, run_calls,
}
use splaylist.SkipLazy.Plain.{ArePlain, map_replies, run_calls-map_replies, contains-erase}
use splaylist.SkipLazy.Validate.{are_distinct, none_below, keys_from, validate-LeadsOn}

-- Memory that holds nothing of use yet.
abbrev blank : Nodes
blank = record {
  key = λ p. 0;
  value = λ p. 0;
  mark = λ p. true;
  fully_linked = λ p. true;
  lock = λ p. true;
  top_level = λ p. 0;
  next = λ p h. none;
}

abbrev start : SkipList
start = new_list 2 0 0 100 (λ i. 0) (λ i. 0) blank

abbrev some_calls : List Call
some_calls =
    insert_call 0 20 7
    ∷ insert_call 1 20 8
    ∷ insert_call 1 0 9
    ∷ find_call 0 20
    ∷ erase_call 20
    ∷ find_call 0 20
    ∷ insert_call 0 20 5
    ∷ find_call 1 20
    ∷ erase_call 30
    ∷ []

ran :
    run_calls some_calls start
    ≡ done (
        value_reply 0
        ∷ value_reply 7
        ∷ value_reply 0
        ∷ value_reply 7
        ∷ value_reply 7
        ∷ value_reply 0
        ∷ value_reply 0
        ∷ value_reply 5
        ∷ value_reply 0
        ∷ [])
unfolding new_list create_node link_ends acquire_lock release_lock swap_value next_seed first_clear
    gen_random walk_counted search_levels contains find walk find_levels find_max find_all raise_max
    lock_levels unlock_levels fill_next link_preds link_node revive_loop insert_found insert_absent
    insert_loop insert_if_absent erase_loop erase
ran = refl

some_calls-AreWithin : AreWithin 0 100 some_calls
some_calls-AreWithin = (
  omega arith,
  omega arith,
  (
    omega arith,
    omega arith,
    (
      omega arith,
      omega arith,
      (
        omega arith,
        omega arith,
        (
          omega arith,
          omega arith,
          (
            omega arith,
            omega arith,
            (
              omega arith,
              omega arith,
              (omega arith, omega arith, (omega arith, omega arith, record {})),
            ),
          ),
        ),
      ),
    ),
  ),
)

some_calls-ArePlain : ArePlain some_calls
some_calls-ArePlain = (
  (λ e. absurd (omega arith)),
  (
    (λ e. absurd (omega arith)),
    ((λ e. absurd (omega arith)), ((λ e. absurd (omega arith)), record {})),
  ),
)

run_calls-map_replies_example :
    Returns (λ rs. rs ≡ map_replies some_calls (λ k. none)) (run_calls some_calls start)
run_calls-map_replies_example =
    run_calls-map_replies 2 0 100 (λ i. 0) (λ i. 0) blank some_calls (omega arith)
      some_calls-AreWithin some_calls-ArePlain

new_list-Serves_example : Serves 0 102 0 (λ k. none) start
new_list-Serves_example = new_list-Serves 2 0 0 100 (λ i. 0) (λ i. 0) blank (omega arith)

start-Serves : Serves 0 102 0 (λ k. none) start
start-Serves = new_list-Serves 2 0 0 100 (λ i. 0) (λ i. 0) blank (omega arith)

insert_if_absent-Inserted_example :
    Returns
      (λ (y, s'). (y ≡ null) × Serves 0 102 0 (upd (λ k. none) (stored 20) (some 7)) s')
      (insert_if_absent 1 (stored 20) 7 start)
insert_if_absent-Inserted_example =
    insert_if_absent-Inserted 0 102 0 (λ k. none) start start-Serves (stored 20) (omega arith)
      (omega arith) 1 7

-- The list after an insertion.
abbrev list_of : Run (ℕ × SkipList) → SkipList
list_of (done (x, s)) = s
list_of stuck = start
list_of sunk = start

abbrev one : SkipList
one = list_of (insert_if_absent 1 (stored 20) 7 start)

abbrev one_entry : ℕ → Option ℕ
one_entry = upd (λ k. none) (stored 20) (some 7)

list_of-Returns :
    (m : ℕ → Option ℕ) (P : ℕ → Type 0) (r : Run (ℕ × SkipList))
    → Returns (λ (x, s). P x × Serves 0 102 0 m s) r
    → Serves 0 102 0 m (list_of r)
list_of-Returns m P (done (x, s)) (returns (p, v)) = v
list_of-Returns m P sunk r = elim r [ ]
list_of-Returns m P stuck r = elim r [ ]

one-Serves : Serves 0 102 0 one_entry one
one-Serves =
    list_of-Returns one_entry (λ x. x ≡ null) (insert_if_absent 1 (stored 20) 7 start)
      (insert_if_absent-Inserted 0 102 0 (λ k. none) start start-Serves (stored 20) (omega arith)
        (omega arith) 1 7)

erase-Erased_example :
    Returns
      (λ (x, s'). (x ≡ 7) × Serves 0 102 0 (upd one_entry (stored 20) (some 0)) s')
      (erase (stored 20) one)
erase-Erased_example =
    erase-Erased 0 102 0 one_entry one one-Serves (stored 20) (omega arith) (omega arith)

contains-erase_example :
    Returns
      (λ (y, s'). Returns (λ (b, t). b ≡ true) (contains 0 (stored 20) s'))
      (erase (stored 20) one)
contains-erase_example =
    contains-erase 0 102 0 one_entry one one-Serves (stored 20) 7 (omega arith) (omega arith) refl 0

-- A list with the key 20 twice.
abbrev repeated : SkipList
repeated = record start {
  nodes = record blank {
    key = λ p. if p == 0 then 0 else if p == 1 then 102 else 21;
    next = λ p h. if p == 0 then some 2 else if p == 2 then some 3 else some 1;
  };
}

validate-LeadsOn_example :
    validate 4 repeated
    ≡ done (
        are_distinct (keys_from repeated 0 (2 ∷ 3 ∷ 1 ∷ []))
        && none_below 0 (keys_from repeated 0 (2 ∷ 3 ∷ 1 ∷ [])))
validate-LeadsOn_example =
    validate-LeadsOn repeated (2 ∷ 3 ∷ 1 ∷ []) 4
      (
        (λ e. absurd (omega arith)),
        refl,
        ((λ e. absurd (omega arith)), refl, ((λ e. absurd (omega arith)), refl, refl)),
      )
      (omega arith)

repeated_refused : validate 4 repeated ≡ done false
unfolding validate mem_key validate_loop new_list link_ends create_node
repeated_refused = refl

find_all-ArePlaced_example : Returns (ArePlaced one 15 0 (max_level + 1)) (find_all 15 one)
find_all-ArePlaced_example =
    find_all-ArePlaced 15 one (one-Serves.linked) (omega (arith, one-Serves.least))
      (omega (arith, one-Serves.greatest))

gen_random-IsFirst_example : IsFirst max_level 0 (next_seed 1) (gen_random 1).0
gen_random-IsFirst_example = gen_random-IsFirst 1
