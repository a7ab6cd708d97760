-- ===== src/FlexSeq/Refinement.antt =====
-- The list from its constructor on, against a map that is empty at first.
use mathlib.Core.Path.{subst}
use splaylist.Base.{ℕ, ◌<◌, ◌≡◌, refl, none, arith, ◌==◌, Bool-cases, inl, inr, List, ==→eq, ==→ne}
use splaylist.Base.Run.{Ensures}
use splaylist.FlexSeq.State.{Node, max_level, head, create_node, set_next}
use splaylist.FlexSeq.Ops.{build_list, new_list}
use splaylist.FlexSeq.View.{View}
use splaylist.FlexSeq.New.{built_view, key_built, new_view, new_list-StandsFor, new_view-IsLinked}
use splaylist.FlexSeq.Client.{Call, Models, Serves, AreWithin, run_calls, replies, run_calls-Serves}

module _ {ℓ} {V : Type ℓ} (highest update_num : ℕ) (no_value zero_value : V) (min_key max_key : ℕ)
    (empty : ℕ → Node V) where
  abbrev built : View V
  built = built_view highest update_num no_value zero_value min_key max_key empty

  -- No live node lies between the two that the constructor makes.
  none_between : (q : ℕ) → q < built.size → min_key < built.key q → ¬ (built.key q < max_key)
  unfolding build_list create_node set_next
  none_between q live above below = elim (Bool-cases (q == head)) [
    | inl e ↦ absurd (omega (arith, subst (λ r. min_key < built.key r) (==→eq q head e) above))
    | inr n ↦ absurd (
        omega (
          arith,
          subst (λ r. built.key r < max_key)
              (key_built highest update_num no_value zero_value min_key max_key empty q live
                (==→ne q head n))
              below,
        ))
  ]

  pub built-Models : Models built (λ k. none)
  unfolding build_list create_node set_next
  built-Models = record {
    held = λ q live above below. absurd (none_between q live above below);
    missing = λ k above below absent. refl;
  }

module _ {ℓ} {V : Type ℓ} (no_value zero_value : V) (min_key max_key : ℕ) (empty : ℕ → Node V) where
  new-Serves :
      min_key < max_key
      → Serves min_key max_key no_value
          (λ k. none)
          (new_list no_value zero_value min_key max_key empty)
  unfolding new_list build_list create_node set_next
  new-Serves lt = record {
    shown = new_view no_value zero_value min_key max_key empty;
    linked = new_view-IsLinked no_value zero_value min_key max_key empty lt;
    stands = new_list-StandsFor no_value zero_value min_key max_key empty;
    models = built-Models max_level 1 no_value zero_value min_key max_key empty;
    least = refl;
    greatest = refl;
    default = refl;
  }

  -- A new list, for a smallest key below the greatest, replies to every sequence of `insertIfAbsent`,
  -- `qfind` and `contains` calls with keys between those two as a map does that is empty at first, unless
  -- the list would need a level below 0.
  pub run_calls-replies :
      (calls : List (Call V))
      → min_key < max_key
      → AreWithin min_key max_key calls
      → Ensures
          (λ rs. rs ≡ replies no_value calls (λ k. none))
          (run_calls calls (new_list no_value zero_value min_key max_key empty))
  run_calls-replies calls lt within =
      run_calls-Serves min_key max_key no_value calls (λ k. none)
        (new_list no_value zero_value min_key max_key empty) (new-Serves lt) within
