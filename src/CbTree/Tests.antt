-- ===== src/CbTree/Tests.antt =====
-- Runs of the tree on small inputs, and the theorems at these inputs.
use splaylist.Base.{ℕ, ◌+◌, ◌≤◌, ◌≡◌, refl, some, true, false, List, [], ◌∷◌, arith}
use splaylist.Base.Int.{pos, ◌+ℤ◌, ◌-ℤ◌, ◌*ℤ◌, to_int}
use splaylist.Base.Entries.{lookup, insert_entry}
use splaylist.CbTree.Tree.{Tree, leaf, node, new_node, size}
use splaylist.CbTree.Search.{Found}
use splaylist.CbTree.Ops.{CbTree, new_tree, search, find, insert_if_absent, search_no_restructure}
use splaylist.CbTree.Entries.{entries}
use splaylist.CbTree.Laws.{IsValid, reads, Inserted, find-lookup, insert_if_absent-lookup}
use splaylist.CbTree.NoRestructure.{search_no_restructure-lookup}
use splaylist.CbTree.Client.{Call, run, replay, run-replay}
use splaylist.CbTree.Weights.{IsWeighted}
use splaylist.CbTree.Weights.Access.{Accessed}
use splaylist.CbTree.Weights.Insert.{OneMoreAccess}
use splaylist.CbTree.Weights.Laws.{search-Accessed, insert_if_absent-OneMoreAccess}
use splaylist.CbTree.Adapter.{
  Request, contains_key, find_value, insert_value, bool_answer, value_answer, abort_answer,
  new_adapter, serve, serve-answers, new_adapter-IsReady,
}

-- The root with key 100, and a chain 60, 50, 30, 20 to the left, where 20 is read often.
abbrev chain : Tree ℕ
chain =
    node
      (node (node (node (node leaf 20 2 (pos 9) leaf) 30 3 (pos 10) leaf) 50 5 (pos 11) leaf) 60 6
        (pos 12) leaf)
      100 0 (pos 12) leaf

abbrev sample : CbTree ℕ
sample = record { root = chain; max_key = 100; no_value = 0; length = 0 }

-- Reading 20 lifts 30 over 50.
lifted :
    find 1 sample 20
    ≡ some (
      record sample {
        root =
            node
              (node
                (node (node leaf 20 2 (pos 10) leaf) 30 3 (pos 12) (node leaf 50 5 (pos 1) leaf))
                60
                6
                (pos 13)
                leaf)
              100
              0
              (pos 13)
              leaf;
        length = 3;
      },
      2,
    )
unfolding find search to_int ◌+ℤ◌ ◌-ℤ◌ ◌*ℤ◌
lifted = refl

sample-IsValid : IsValid sample
sample-IsValid = record { rooted = refl; sorted = omega arith }

chain-IsWeighted : IsWeighted chain
chain-IsWeighted =
    ((0, refl), ((1, refl), ((1, refl), ((1, refl), ((9, refl), tt, tt), tt), tt), tt), tt)

find-lookup_example :
    (t' : CbTree ℕ) × (find 1 sample 20 ≡ some (t', reads sample 20))
    × (entries t'.root ≡ entries sample.root)
    × IsValid t'
    × (t'.no_value ≡ sample.no_value)
    × (t'.length ≤ sample.length + size sample.root)
find-lookup_example = find-lookup 1 sample 20 sample-IsValid

insert_if_absent-lookup_example :
    (p : CbTree ℕ × ℕ) × (insert_if_absent 1 sample 25 7 ≡ some p) × Inserted sample 25 7 p
insert_if_absent-lookup_example = insert_if_absent-lookup 1 sample 25 7 sample-IsValid

search_no_restructure-lookup_example :
    (n : ℕ) × (search_no_restructure sample 20
      ≡ some (record sample { length = sample.length + n }, lookup 20 (entries sample.root)))
    × (n ≤ size sample.root)
search_no_restructure-lookup_example = search_no_restructure-lookup sample 20 sample-IsValid

abbrev calls : List (Call ℕ)
calls = Call.insert_key 25 7 ∷ Call.find_key 20 ∷ Call.find_key 26 ∷ Call.insert_key 20 9 ∷ []

run-replay_example :
    (t' : CbTree ℕ) × (run 1 calls sample ≡ some (t', replay 0 calls (entries sample.root)))
    × IsValid t'
run-replay_example = run-replay 1 calls sample sample-IsValid

replayed : replay 0 calls (entries sample.root) ≡ 0 ∷ 2 ∷ 0 ∷ 2 ∷ []
unfolding lookup insert_entry
replayed = refl

search-Accessed_example :
    (t' : CbTree ℕ) × (r : Found ℕ) × (search 1 sample 20 ≡ some (t', r))
    × Accessed sample.root r.place t'.root
search-Accessed_example = search-Accessed 1 sample 20 refl chain-IsWeighted (omega arith)

insert_if_absent-OneMoreAccess_example :
    (p : CbTree ℕ × ℕ) × (insert_if_absent 1 sample 25 7 ≡ some p)
    × OneMoreAccess sample.root p.0.root
insert_if_absent-OneMoreAccess_example =
    insert_if_absent-OneMoreAccess 1 sample 25 7 sample-IsValid chain-IsWeighted (omega arith)

abbrev some_requests : List Request
some_requests =
    insert_value 0 20 7 ∷ contains_key 20 ∷ find_value 30 ∷ insert_value 1 30 8 ∷ find_value 20 ∷ []

served :
    serve true some_requests (new_adapter 100 0 5)
    ≡ value_answer 0 ∷ bool_answer true ∷ value_answer 0 ∷ abort_answer ∷ []
unfolding new_adapter new_tree lookup insert_entry new_node
served = serve-answers true 0 some_requests (new_adapter 100 0 5) (new_adapter-IsReady 100 0 5)

served_without_asserts :
    serve false some_requests (new_adapter 100 0 5)
    ≡ value_answer 0 ∷ bool_answer true ∷ value_answer 0 ∷ value_answer 0 ∷ value_answer 7 ∷ []
unfolding new_adapter new_tree lookup insert_entry new_node
served_without_asserts =
    serve-answers false 0 some_requests (new_adapter 100 0 5) (new_adapter-IsReady 100 0 5)
