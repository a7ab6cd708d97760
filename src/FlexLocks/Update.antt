-- ===== src/FlexLocks/Update.antt =====
-- `update`, `insert` and `updateWithInsert`: the loop over the levels, from the lock of `head`.
use splaylist.Base.{ℕ, zero, suc, ◌+◌, false, ◌&&◌, not, some, ltb, leb, ◌==◌, if◌then◌else◌}
use splaylist.Base.Int.{pos, ◌+ℤ◌}
use splaylist.Base.Run.{Run, done, stuck, ◌>>=◌}
use splaylist.FlexSeq.State.{FlexList, upd, head, put, set_next, set_hits, lower_to}
use splaylist.FlexSeq.Update.{links_to, may_rise, rise_loop, count_hit}
use splaylist.FlexLocks.Shared.{
  LockList, on_list, run_list, acquire_lock, release_lock, read_next, lower_locked, create_node,
}
use splaylist.FlexLocks.Walk.{Count, count_step, walk_level}

-- `pred->hits[h]++`
unfoldable pub add_hit : ℕ → ℕ → FlexList ℕ → FlexList ℕ
add_hit p h l = set_hits p h ((l.nodes p).hits h +ℤ pos 1) l

-- `cur->selfhits++`
abbrev pub add_selfhit : ℕ → FlexList ℕ → FlexList ℕ
add_selfhit p l = put p (record (l.nodes p) { selfhits = (l.nodes p).selfhits +ℤ pos 1 }) l

-- `if (q != p) releaseLock(&(q->lock));`
abbrev pub release_other : ℕ → ℕ → LockList → LockList
release_other q p s = record s { lock = if q == p then s.lock else upd s.lock q false }

-- The start of both updates: an access is counted at `head`. The local `curAccess` is the counter
-- narrowed to an int, which is the counter itself for fewer than 2^31 accesses.
unfoldable pub start_update : LockList → Run LockList
unfolding acquire_lock add_hit
start_update s = do
  s₁ ← acquire_lock head s
  let l = record (s₁.list) { access_counter = s₁.list.access_counter + 1 }
  done (record s₁ { list = add_hit head l.highest l })

-- The start of both updates at a level: the nodes are lowered, and the step to `cur` is counted.
unfoldable pub enter_level : ℕ → ℕ → LockList → Run (ℕ × LockList)
unfolding lower_to lower_locked
enter_level h pred s = do
  s₁ ← run_list (lower_to pred h) s
  cur ← read_next pred h s₁
  s₂ ← lower_locked cur h s₁
  done (cur, count_step s₂)

-- The levels below the first argument, from `pred`, whose lock is held.
unfoldable pub update_levels : ℕ → ℕ → ℕ → LockList → Run LockList
unfolding enter_level walk_level release_lock add_hit
update_levels zero key pred s = done (release_lock pred s)
update_levels (suc h) key pred s =
    let level : Run LockList = do
      (cur, s₁) ← enter_level h pred s
      let above = update_levels h key pred (on_list (add_hit pred h) s₁)
      let along : Run LockList = do
        p ←
            walk_level count_hit (key + 1) key h
              (record { ok = false; predpred = pred; pred = pred; cur = cur; state = s₁ })
        let s₂ = release_other p.predpred p.pred p.state
        let rest = update_levels h key p.pred s₂
        if p.ok then done (release_lock p.pred s₂) else rest
      if ltb key (s₁.list.nodes cur).key then above else along
    in if leb s.list.zero_level h then level else done (release_lock pred s)

unfoldable pub update : ℕ → LockList → Run LockList
unfolding start_update update_levels
update key s = do s₁ ← start_update s; update_levels s₁.list.highest key head s₁

-- A new node behind `pred` at level `h`, which rises as far as it may behind `predpred`. `assert(0)` ends
-- the run.
unfoldable pub insert : ℕ → ℕ → ℕ → ℕ → ℕ → LockList → Run LockList
unfolding create_node acquire_lock release_lock may_rise rise_loop
insert h key value pred predpred s = do
  let cur = s.list.size
  let s₁ = create_node h key value s
  let s₂ = on_list (set_next cur h ((s₁.list.nodes pred).next h)) s₁
  s₃ ← acquire_lock cur s₂
  let s₄ = on_list (λ l. add_selfhit cur (set_next pred h (some cur) l)) s₃
  let raised : Run LockList = do
    s₅ ← run_list (λ l. rise_loop l.highest predpred cur (l.nodes cur).top_level l) s₄
    if predpred == pred then done (release_lock cur s₅) else stuck
  if may_rise predpred h s₄.list && links_to predpred h cur s₄.list
      then raised
      else done (release_lock cur (release_other predpred pred s₄))

-- On the lowest level `bottom` an access to another key is not counted yet.
unfoldable pub count_above : ℕ → Count
unfolding add_hit
count_above bottom key h cur l =
    if (l.nodes cur).key == key
    then add_selfhit cur l
    else if h == bottom
    then l
    else add_hit cur h l

-- The levels below the first argument: the node goes in on the lowest.
unfoldable pub insert_levels : ℕ → ℕ → ℕ → ℕ → LockList → Run (ℕ × LockList)
unfolding enter_level walk_level release_lock add_hit insert count_above
insert_levels zero key value pred s = done (s.list.no_value, release_lock pred s)
insert_levels (suc h) key value pred s =
    let level : Run (ℕ × LockList) = do
      (cur, s₁) ← enter_level h pred s
      let bottom = s₁.list.zero_level
      let placed : ℕ → ℕ → LockList → Run (ℕ × LockList) =
          λ q r s'. do s'' ← insert h key value q r s'; done (s''.list.no_value, release_lock q s'')
      let above = insert_levels h key value pred (on_list (add_hit pred h) s₁)
      let along : Run (ℕ × LockList) = do
        p ←
            walk_level (count_above bottom) (key + 1) key h
              (record { ok = false; predpred = pred; pred = pred; cur = cur; state = s₁ })
        let s₂ = release_other p.predpred p.pred p.state
        let s₃ = if h == bottom then on_list (add_hit p.pred h) s₂ else s₂
        let rest = insert_levels h key value p.pred s₃
        if (h == bottom) && (p.state.list.zero_level == bottom) && not p.ok
            then placed p.pred p.predpred p.state
            else if p.ok
            then done ((s₂.list.nodes p.cur).value, release_lock p.pred s₂)
            else rest
      if ltb key (s₁.list.nodes cur).key
          then (if h == bottom then placed pred pred s₁ else above)
          else along
    in if leb s.list.zero_level h then level else done (s.list.no_value, release_lock pred s)

unfoldable pub update_with_insert : ℕ → ℕ → LockList → Run (ℕ × LockList)
unfolding start_update insert_levels
update_with_insert key value s = do
  s₁ ← start_update s
  insert_levels s₁.list.highest key value head s₁
