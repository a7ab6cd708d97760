-- ===== src/FlexLocks/Walk.antt =====
-- The loop of both updates along a level. The thread holds the lock of `predpred`, and of a node at
-- which an access is counted.
use splaylist.Base.{ℕ, zero, suc, ◌+◌, Bool, true, false, ◌&&◌, not, ltb, leb, ◌==◌, if◌then◌else◌}
use splaylist.Base.Run.{Run, done, stuck, ◌>>=◌}
use splaylist.FlexSeq.State.{FlexList}
use splaylist.FlexSeq.Update.{links_to, may_rise, rise_loop, may_fall, fall}
use splaylist.FlexLocks.Shared.{
  LockList, on_list, run_list, acquire_lock, release_lock, read_next, lower_locked,
}

-- The variables of the loop: `ok`, `predpred`, `pred`, `cur`, and the list.
pub record Position : Type 0 where
  pub ok : Bool
  pub predpred : ℕ
  pub pred : ℕ
  pub cur : ℕ
  pub state : LockList

-- `__sync_fetch_and_add(&sum_lengths, 1);`
abbrev pub count_step : LockList → LockList
count_step s = on_list (λ l. record l { sum_lengths = l.sum_lengths + 1 }) s

-- How an access to `key` at level `h` is counted at a node.
abbrev pub Count : Type 0
Count = ℕ → ℕ → ℕ → FlexList ℕ → FlexList ℕ

-- If `n`, which follows `cur` at level `h`, has a greater key, the access is counted at `cur`, whose
-- lock is kept, unless another thread has put a node between. The result has `acquired` and `ok`.
unfoldable pub count_locked : Count → ℕ → ℕ → Bool → ℕ → ℕ → LockList → Run (Bool × Bool × LockList)
unfolding acquire_lock release_lock
count_locked count key h ok cur n s =
    let counted : Run (Bool × Bool × LockList) = do
      s₁ ← acquire_lock cur s
      n' ← read_next cur h s₁
      if leb (s₁.list.nodes n').key key
          then done (false, ok, release_lock cur s₁)
          else done (
            true,
            if (s₁.list.nodes cur).key == key then true else ok,
            on_list (count key h cur) s₁,
          )
    in if ltb key (s.list.nodes n).key then counted else done (false, ok, s)

-- The three ways in which the loop along level `h` goes on from `cur`.
unfoldable pub go_up : ℕ → Bool → Bool → ℕ → ℕ → LockList → Run Position
unfolding acquire_lock release_lock rise_loop
go_up h acquired ok predpred cur s = do
  s₁ ← if acquired then done s else acquire_lock cur s
  s₂ ← run_list (λ l. rise_loop l.highest predpred cur (l.nodes cur).top_level l) s₁
  let s₃ = release_lock predpred s₂
  q ← read_next cur h s₃
  done (record { ok = ok; predpred = cur; pred = cur; cur = q; state = s₃ })

-- With the locks of `pred` and `cur`, the test is made again. `fall` ends with `cur->topLevel--`, which
-- stands between the two releases.
unfoldable pub go_down : ℕ → ℕ → Bool → ℕ → ℕ → ℕ → LockList → Run Position
unfolding acquire_lock release_lock may_fall fall
go_down key h ok predpred pred cur s = do
  s₁ ← if pred == predpred then done s else acquire_lock pred s
  s₂ ← acquire_lock cur s₁
  n ← read_next cur h s₂
  s₃ ←
      if may_fall pred cur h s₂.list
        && not (ltb key (s₂.list.nodes n).key)
        && links_to pred h cur s₂.list
      then run_list (fall pred cur h) s₂
      else done s₂
  let s₄ = release_lock cur (if pred == predpred then s₃ else release_lock pred s₃)
  q ← read_next pred h s₄
  done (record { ok = ok; predpred = predpred; pred = pred; cur = q; state = s₄ })

unfoldable pub go_on : ℕ → Bool → ℕ → ℕ → LockList → Run Position
go_on h ok predpred cur s = do
  q ← read_next cur h s
  done (record { ok = ok; predpred = predpred; pred = cur; cur = q; state = s })

-- One round of the loop along level `h`.
unfoldable pub round : Count → ℕ → ℕ → Position → Run Position
unfolding lower_locked count_locked may_rise may_fall go_up go_down go_on
round count key h p = do
  s₁ ← lower_locked p.cur h p.state
  let s₂ = count_step s₁
  n ← read_next p.cur h s₂
  (acquired, ok, s₃) ← count_locked count key h p.ok p.cur n s₂
  if may_rise p.predpred h s₃.list && links_to p.predpred h p.cur s₃.list
      then go_up h acquired ok p.predpred p.cur s₃
      else if not (ltb key (s₂.list.nodes n).key) && may_fall p.pred p.cur h s₃.list
      then go_down key h ok p.predpred p.pred p.cur s₃
      else go_on h ok p.predpred p.cur s₃

-- `while ((cur->key) <= key)`; the keys of `cur` grow, so `key + 1` rounds are enough.
unfoldable pub walk_level : Count → ℕ → ℕ → ℕ → Position → Run Position
unfolding round
walk_level count zero key h p = stuck
walk_level count (suc fuel) key h p =
    let rest : Run Position = do p' ← round count key h p; walk_level count fuel key h p'
    in if leb (p.state.list.nodes p.cur).key key then rest else done p
