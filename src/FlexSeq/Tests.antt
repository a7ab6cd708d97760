-- ===== src/FlexSeq/Tests.antt =====
-- Runs of the sequential splay list, and its theorems at concrete lists.
use splaylist.Base.{
  List, [], ◌∷◌, ℕ, zero, suc, ◌+◌, ◌≤◌, ◌<◌, ◌≡◌, refl, Bool, true, false, Option, none, some,
  arith,
}
use splaylist.Base.Int.{ℤ, pos, ◌+ℤ◌, ◌-ℤ◌}
use splaylist.Base.Run.{Ensures, Run, done, ◌>>=◌, Returns}
use splaylist.FlexSeq.State.{
  FlexList, Node, head, tail, set_next, set_hits, set_top_level, create_node, lower_to, lower,
  update_zero_level, get_hits,
}
use splaylist.FlexSeq.Find.{find, find_walk, find_levels}
use splaylist.FlexSeq.Update.{
  may_rise, rise, rise_loop, deepen, lower_once, unlink, fall, may_fall, count_hit, go_up, go_down,
  go_on, round, walk_level, update_levels, update,
}
use splaylist.FlexSeq.Ops.{
  qfind, build_list, new_list, contains, insert_loop, insert_if_absent, count_update,
}
use splaylist.FlexSeq.New.{new_view, new_list-StandsFor, new_view-IsLinked}
use splaylist.FlexSeq.Laws.{Answered, find-Answered}
use splaylist.FlexSeq.View.{View, IsLinked}
use splaylist.FlexSeq.View.Updating.{Updated, update-Updated}
use splaylist.FlexSeq.Client.{
  Call, insert_call, contains_call, find_call, value_reply, bool_reply, AreWithin, run_calls,
  replies,
}
use splaylist.FlexSeq.Refinement.{run_calls-replies}
use splaylist.FlexSeq.Insertion.{Placed, insert_if_absent-Placed}
use splaylist.FlexSeq.Calls.{Contained, contains-Contained, Fetched, qfind-Fetched}

abbrev blank : ℕ → Node ℕ
blank p = record {
  key = 0;
  value = 0;
  zero_level = 0;
  top_level = 0;
  selfhits = pos 0;
  next = λ i. none;
  hits = λ i. pos 0;
}

abbrev start : FlexList ℕ
unfolding new_list build_list create_node set_next
start = new_list 0 0 0 100 blank

new_view-IsLinked_example : IsLinked (new_view 0 0 0 100 blank)
new_view-IsLinked_example = new_view-IsLinked 0 0 0 100 blank (omega arith)

in_range : 20 ≤ (new_view 0 0 0 100 blank).key tail
unfolding new_list build_list create_node set_next
in_range = omega arith

above_head : (new_view 0 0 0 100 blank).key head < 20
unfolding new_list build_list create_node set_next
above_head = omega arith

find-Answered_example :
    Returns
      (Answered
        (new_view 0 0 0 100 blank)
        (new_view-IsLinked 0 0 0 100 blank (omega arith))
        20
        in_range)
      (find 20 (new_list 0 0 0 100 blank))
find-Answered_example =
    find-Answered (new_view 0 0 0 100 blank) (new_view-IsLinked 0 0 0 100 blank (omega arith)) 20
      in_range (new_list 0 0 0 100 blank) (new_list-StandsFor 0 0 0 100 blank) above_head

-- What some calls in a row return: the values of insertions, and whether two keys are there.
abbrev calls : FlexList ℕ → Run (ℕ × ℕ × Bool × Bool × ℕ)
calls s = do
  (a, s₁) ← insert_if_absent 20 7 s
  (b, s₂) ← insert_if_absent 20 8 s₁
  (c, s₃) ← insert_if_absent 30 9 s₂
  (d, s₄) ← contains 20 s₃
  (e, s₅) ← contains 25 s₄
  done (a, b, d, e, s₅.zero_level)

called : calls start ≡ done (0, 7, true, false, 28)
unfolding new_list build_list create_node set_next set_hits set_top_level lower_to lower
    update_zero_level get_hits find find_walk find_levels may_rise rise rise_loop deepen lower_once
    unlink fall may_fall count_hit go_up go_down go_on round walk_level update_levels update
    contains insert_loop insert_if_absent count_update splaylist.Base.Int.◌+ℤ◌
    splaylist.Base.Int.◌-ℤ◌
called = refl

abbrev new_list_view : View ℕ
new_list_view = new_view 0 0 0 100 blank

new_list_view-IsLinked : IsLinked new_list_view
new_list_view-IsLinked = new_view-IsLinked 0 0 0 100 blank (omega arith)

between_head : new_list_view.key head ≤ 20
unfolding new_list build_list create_node set_next
between_head = omega arith

below_tail : 20 < new_list_view.key tail
unfolding new_list build_list create_node set_next
below_tail = omega arith

update-Updated_example : Ensures (Updated new_list_view) (update 20 (new_list 0 0 0 100 blank))
update-Updated_example =
    update-Updated new_list_view 20 (new_list 0 0 0 100 blank) new_list_view-IsLinked
      (new_list-StandsFor 0 0 0 100 blank) between_head below_tail

contains-Contained_example :
    Ensures
      (Contained new_list_view new_list_view-IsLinked 20 above_head below_tail)
      (contains 20 (new_list 0 0 0 100 blank))
contains-Contained_example =
    contains-Contained new_list_view new_list_view-IsLinked 20 above_head below_tail
      (new_list 0 0 0 100 blank) (new_list-StandsFor 0 0 0 100 blank)

qfind-Fetched_example :
    Ensures
      (Fetched new_list_view new_list_view-IsLinked 20 above_head below_tail)
      (qfind 20 (new_list 0 0 0 100 blank))
qfind-Fetched_example =
    qfind-Fetched new_list_view new_list_view-IsLinked 20 above_head below_tail
      (new_list 0 0 0 100 blank) (new_list-StandsFor 0 0 0 100 blank)

insert_if_absent-Placed_example :
    Ensures
      (Placed new_list_view new_list_view-IsLinked 20 above_head below_tail 7)
      (insert_if_absent 20 7 (new_list 0 0 0 100 blank))
insert_if_absent-Placed_example =
    insert_if_absent-Placed new_list_view new_list_view-IsLinked 20 above_head below_tail 7
      (new_list 0 0 0 100 blank) (new_list-StandsFor 0 0 0 100 blank)

abbrev some_calls : List (Call ℕ)
some_calls =
    insert_call 20 7 ∷ insert_call 20 8 ∷ insert_call 10 9 ∷ contains_call 20 ∷ find_call 30 ∷ []

some_calls-AreWithin : AreWithin 0 100 some_calls
some_calls-AreWithin = (
  omega arith,
  omega arith,
  (
    omega arith,
    omega arith,
    (omega arith, omega arith, (omega arith, omega arith, (omega arith, omega arith, record {}))),
  ),
)

run_calls-replies_example :
    Ensures
      (λ rs. rs ≡ replies 0 some_calls (λ k. none))
      (run_calls some_calls (new_list 0 0 0 100 blank))
run_calls-replies_example =
    run_calls-replies 0 0 0 100 blank some_calls (omega arith) some_calls-AreWithin

replied :
    replies 0 some_calls (λ k. none)
    ≡ value_reply 0 ∷ value_reply 7 ∷ value_reply 0 ∷ bool_reply true ∷ value_reply 0 ∷ []
replied = refl
