-- ===== src/FlexLocks/Tests.antt =====
-- Runs of the splay list with locks, and its theorems at concrete lists.
use splaylist.Base.{
  List, [], ◌∷◌, ℕ, zero, suc, ◌+◌, ◌-◌, ◌≤◌, ◌<◌, ◌≡◌, refl, Bool, true, false, Option, none, some,
  arith,
}
use splaylist.Base.Int.{ℤ, pos, ◌+ℤ◌, ◌-ℤ◌}
use splaylist.Base.Run.{Ensures, Matches, Run, done, ◌>>=◌}
use splaylist.FlexSeq.State.{Node, set_next, set_hits, set_top_level, lower_to, lower, get_hits}
use splaylist.FlexSeq.State
use splaylist.FlexSeq.Update
use splaylist.FlexSeq.Update.{
  may_rise, rise, rise_loop, deepen, lower_once, unlink, fall, may_fall, count_hit,
}
use splaylist.FlexSeq.Ops.{build_list}
use splaylist.FlexLocks.Shared.{LockList, acquire_lock, release_lock, lower_locked, create_node}
use splaylist.FlexLocks.Find.{find, find_walk, find_levels}
use splaylist.FlexLocks.Walk.{count_locked, go_up, go_down, go_on, round, walk_level}
use splaylist.FlexLocks.Update.{
  add_hit, start_update, enter_level, update_levels, update, insert, count_above, insert_levels,
  update_with_insert,
}
use splaylist.FlexLocks.Ops.{
  new_list, count_update, contains, qfind, revive, insert_if_absent, bury, erase, set_cops,
}
use splaylist.FlexLocks.Report.{
  is_bad, validate_walk, validate_levels, validate, pairs_walk, get_pairs_key_height,
  get_pairs_key_contains,
}
use splaylist.FlexSeq.State.{head, tail}
use splaylist.FlexSeq.View.{View, IsLinked, StandsFor}
use splaylist.FlexSeq.New.{built_view, build_list-StandsFor, built_view-IsLinked}
use splaylist.FlexLocks.Held.{AreFree}
use splaylist.FlexSeq.View.Updating.{Updated}
use splaylist.FlexLocks.SameUpdate.{update-Matches}
use splaylist.FlexLocks.Rounds.{IsAbsent}
use splaylist.FlexLocks.Placing.{IsPlaced, update_with_insert-IsPlaced}
use splaylist.FlexLocks.Client.{
  Call, insert_call, erase_call, find_call, contains_call, AreWithin, run_calls, replies,
}
use splaylist.FlexLocks.Refinement.{new-Serves, run_locked-replies}
use splaylist.FlexLocks.Serves.{Serves}
use splaylist.FlexLocks.Changes.{erase-insert_if_absent}
use splaylist.FlexSeq.Client.{value_reply, bool_reply}

abbrev blank : ℕ → Node ℕ
blank p = record {
  key = 0;
  value = 0;
  zero_level = 0;
  top_level = 0;
  selfhits = pos 0;
  next = λ i. none;
  hits = λ i. pos 0;
}

abbrev start : LockList
unfolding set_cops new_list build_list splaylist.FlexSeq.State.create_node set_next
start = set_cops 1 (new_list 1 0 0 100 blank)

-- What some calls in a row return.
abbrev calls : LockList → Run (ℕ × ℕ × Bool × ℕ × Bool × ℕ × ℕ × Bool × List (ℕ × ℕ) × List (ℕ × ℕ))
calls s = do
  (a, s₁) ← insert_if_absent 0 20 7 s
  (b, s₂) ← insert_if_absent 0 20 8 s₁
  (c, s₃) ← insert_if_absent 0 30 9 s₂
  (d, s₄) ← contains 0 20 s₃
  (e, s₅) ← erase 0 20 s₄
  (f, s₆) ← contains 0 20 s₅
  (g, s₇) ← insert_if_absent 0 20 6 s₆
  (h, s₈) ← qfind 0 20 s₇
  v ← validate s₈
  hs ← get_pairs_key_height s₈
  cs ← get_pairs_key_contains s₈
  done (a, b, d, e, f, g, h, v, hs, cs)

called :
    calls start
    ≡ done (0, 7, true, 7, false, 0, 6, true, (20, 1) ∷ (30, 1) ∷ [], (20, 6) ∷ (30, 0) ∷ [])
unfolding new_list build_list splaylist.FlexSeq.State.create_node set_next set_hits set_top_level
    lower_to lower get_hits splaylist.FlexSeq.State.update_zero_level may_rise rise rise_loop deepen
    lower_once unlink fall may_fall count_hit acquire_lock release_lock lower_locked create_node
    find find_walk find_levels count_locked go_up go_down go_on round walk_level add_hit
    start_update enter_level update_levels update insert count_above insert_levels
    update_with_insert count_update contains qfind revive insert_if_absent bury erase is_bad
    validate_walk validate_levels validate pairs_walk get_pairs_key_height get_pairs_key_contains
    splaylist.Base.Int.◌+ℤ◌ splaylist.Base.Int.◌-ℤ◌ set_cops
called = refl

abbrev fresh_view : View ℕ
fresh_view = built_view 44 100 0 0 0 100 blank

fresh_view-IsLinked : IsLinked fresh_view
fresh_view-IsLinked = built_view-IsLinked 44 100 0 0 0 100 blank (omega arith) (omega arith)

fresh-StandsFor : StandsFor fresh_view (new_list 1 0 0 100 blank).list
unfolding new_list
fresh-StandsFor = build_list-StandsFor 44 100 0 0 0 100 blank

fresh-AreFree : AreFree (new_list 1 0 0 100 blank)
unfolding new_list
fresh-AreFree = λ j. refl

head_below : fresh_view.key head < 20
unfolding build_list splaylist.FlexSeq.State.create_node set_next
head_below = omega arith

tail_above : 20 < fresh_view.key tail
unfolding build_list splaylist.FlexSeq.State.create_node set_next
tail_above = omega arith

fresh_view-IsAbsent : IsAbsent fresh_view 20
unfolding build_list splaylist.FlexSeq.State.create_node set_next
fresh_view-IsAbsent r live = λ e. ground arith

update_with_insert-IsPlaced_example :
    Ensures (IsPlaced fresh_view 20 7) (update_with_insert 20 7 (new_list 1 0 0 100 blank))
update_with_insert-IsPlaced_example =
    update_with_insert-IsPlaced fresh_view 20 7 (new_list 1 0 0 100 blank) fresh_view-IsLinked
      fresh-StandsFor fresh-AreFree fresh_view-IsAbsent head_below tail_above

abbrev some_calls : List Call
some_calls =
    insert_call 0 20 7
    ∷ insert_call 1 20 8
    ∷ erase_call 1 20
    ∷ contains_call 0 20
    ∷ find_call 0 30
    ∷ []

some_calls-AreWithin : AreWithin 0 100 some_calls
some_calls-AreWithin = (
  omega arith,
  omega arith,
  (
    omega arith,
    omega arith,
    (omega arith, omega arith, (omega arith, omega arith, (omega arith, omega arith, tt))),
  ),
)

run_locked-replies_example :
    Ensures
      (λ rs. rs ≡ replies 0 some_calls (λ k. none))
      (run_calls some_calls (new_list 1 0 0 100 blank))
run_locked-replies_example =
    run_locked-replies 1 0 0 100 blank some_calls (omega arith) some_calls-AreWithin

replied :
    replies 0 some_calls (λ k. none)
    ≡ value_reply 0 ∷ value_reply 7 ∷ value_reply 7 ∷ bool_reply false ∷ value_reply 0 ∷ []
replied = refl

erase-insert_if_absent_example :
    Ensures
      (λ (y, s'). (y ≡ 7) × Serves 0 100 0 (λ k. none) s')
      (insert_if_absent 0 20 7 (new_list 1 0 0 100 blank) >>= λ (z, s₁). erase 1 20 s₁)
erase-insert_if_absent_example =
    erase-insert_if_absent 0 100 0 (λ k. none) (new_list 1 0 0 100 blank) 0 1 20 7
      (new-Serves 1 0 0 100 blank (omega arith)) (omega arith) (omega arith) refl (omega arith)

update-Matches_example :
    Matches
      (λ (r : LockList). r.list)
      (λ r. AreFree r × Updated fresh_view (r.list))
      (update 20 (new_list 1 0 0 100 blank))
      (splaylist.FlexSeq.Update.update 20 (new_list 1 0 0 100 blank).list)
update-Matches_example =
    update-Matches fresh_view 20 (new_list 1 0 0 100 blank) fresh_view-IsLinked fresh-StandsFor
      fresh-AreFree (omega (arith, head_below)) tail_above
