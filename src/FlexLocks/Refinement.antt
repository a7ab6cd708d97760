-- ===== src/FlexLocks/Refinement.antt =====
-- The list from its constructor on, against a map that is empty at first.
use splaylist.Base.{ℕ, ◌*◌, ◌<◌, ◌≡◌, refl, none, arith, List}
use splaylist.Base.Run.{Ensures}
use splaylist.FlexSeq.State.{Node, create_node, set_next}
use splaylist.FlexSeq.Ops.{build_list}
use splaylist.FlexSeq.New.{built_view, build_list-StandsFor, built_view-IsLinked}
use splaylist.FlexSeq.Refinement.{built-Models}
use splaylist.FlexLocks.Shared.{max_level}
use splaylist.FlexLocks.Ops.{new_list}
use splaylist.FlexLocks.Serves.{Serves}
use splaylist.FlexLocks.Client.{Call, AreWithin, run_calls, replies, run_calls-Serves}

module _ (num_threads no_value min_key max_key : ℕ) (empty : ℕ → Node ℕ) where
  pub new-Serves :
      min_key < max_key
      → Serves min_key max_key no_value
          (λ k. none)
          (new_list num_threads no_value min_key max_key empty)
  unfolding new_list build_list create_node set_next
  new-Serves lt =
      let n = 100 * num_threads in
      record {
        shown = built_view max_level n no_value 0 min_key max_key empty;
        linked = built_view-IsLinked max_level n no_value 0 min_key max_key empty (omega arith) lt;
        stands = build_list-StandsFor max_level n no_value 0 min_key max_key empty;
        raw = λ k. none;
        models = built-Models max_level n no_value 0 min_key max_key empty;
        clean = λ k. refl;
        least = refl;
        greatest = refl;
        default = refl;
        free = λ j. refl;
      }

  -- A new list, for a smallest key below the greatest, replies to every sequence of `insertIfAbsent`,
  -- `erase`, `qfind` and `contains` calls of any threads, one after the other and with keys between those
  -- two, as a map does that is empty at first, where storing `noValue` stores nothing; unless the list
  -- would need a level below 0. No call waits for a lock for ever.
  pub run_locked-replies :
      (calls : List Call)
      → min_key < max_key
      → AreWithin min_key max_key calls
      → Ensures
          (λ rs. rs ≡ replies no_value calls (λ k. none))
          (run_calls calls (new_list num_threads no_value min_key max_key empty))
  run_locked-replies calls lt within =
      run_calls-Serves min_key max_key no_value calls (λ k. none)
        (new_list num_threads no_value min_key max_key empty) (new-Serves lt) within
