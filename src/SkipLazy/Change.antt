-- ===== src/SkipLazy/Change.antt =====
-- The operations that change the list.
use splaylist.Base.{
  ℕ, zero, suc, ◌+◌, ◌-◌, Bool, true, false, not, ◌&&◌, ◌||◌, none, some, leb, ◌==◌, if◌then◌else◌,
}
use splaylist.Base.Memory.{upd}
use splaylist.Base.Run.{Run, done, stuck, ◌>>=◌}
use splaylist.SkipLazy.State.{
  SkipList, null, set_next, acquire_lock, release_lock, swap_value, create_node,
}
use splaylist.SkipLazy.Search.{Places, find_all}
use splaylist.SkipLazy.Random.{gen_random}

-- The loop that raises `realMaxLvl`; the compare-and-swap fails only if another thread writes.
unfoldable pub raise_max : ℕ → ℕ → SkipList → Run SkipList
raise_max zero top s = stuck
raise_max (suc fuel) top s =
    let k = s.real_max_lvl in
    let again = raise_max fuel top s in
    if leb top k
    then done s
    else if s.real_max_lvl == k
    then done (record s { real_max_lvl = top })
    else again

-- `level == 0 || preds[level] != preds[level - 1]`
abbrev pub is_new_pred : ℕ → (ℕ → ℕ) → Bool
is_new_pred level preds = level == 0 || not (preds level == preds (level - 1))

-- `pred->next[level] == succ`
abbrev pub links_to : ℕ → ℕ → ℕ → SkipList → Bool
links_to p h q s = elim (s.nodes.next p h) [ none ↦ false | some r ↦ r == q ]

-- `!pred->mark && !succ->mark && (pred->next[level] == succ)`
abbrev pub is_valid : ℕ → ℕ → ℕ → SkipList → Bool
is_valid pred level succ s =
    not (s.nodes.mark pred) && not (s.nodes.mark succ) && links_to pred level succ s

-- The loop that takes the locks, for `n` levels from `level` on: `valid`, and `lockLevel + 1`.
unfoldable pub lock_levels : ℕ → ℕ → Places → SkipList → Run (Bool × ℕ × SkipList)
unfolding acquire_lock
lock_levels zero level r s = done (true, level, s)
lock_levels (suc n) level r s = do
  s₁ ← if is_new_pred level r.preds then acquire_lock (r.preds level) s else done s
  let rest = lock_levels n (level + 1) r s₁
  if is_valid (r.preds level) level (r.succs level) s₁ then rest else done (false, level + 1, s₁)

-- The loop that gives the locks back, for `n` levels from `level` on.
unfoldable pub unlock_levels : ℕ → ℕ → Places → SkipList → SkipList
unfolding release_lock
unlock_levels zero level r s = s
unlock_levels (suc n) level r s =
    unlock_levels n (level + 1) r
      (if is_new_pred level r.preds then release_lock (r.preds level) s else s)

-- `newNode->next[level] = succs[level]`
unfoldable pub fill_next : ℕ → ℕ → ℕ → Places → SkipList → SkipList
fill_next zero level p r s = s
fill_next (suc n) level p r s =
    fill_next n (level + 1) p r (set_next p level (some (r.succs level)) s)

-- `preds[level]->next[level] = newNode`
unfoldable pub link_preds : ℕ → ℕ → ℕ → Places → SkipList → SkipList
link_preds zero level p r s = s
link_preds (suc n) level p r s =
    link_preds n (level + 1) p r (set_next (r.preds level) level (some p) s)

abbrev pub set_fully_linked : ℕ → SkipList → SkipList
set_fully_linked p s = record s {
  nodes = record (s.nodes) { fully_linked = upd s.nodes.fully_linked p true };
}

-- The new node, once the locks are taken.
unfoldable pub link_node : ℕ → ℕ → ℕ → Places → SkipList → SkipList
unfolding create_node fill_next link_preds
link_node top key value r s =
    let p = s.size in
    let s₁ = create_node top key value s in
    set_fully_linked p (link_preds (top + 1) 0 p r (fill_next (top + 1) 0 p r s₁))

-- The loop that writes `value` to a node whose value is `noValue`.
unfoldable pub revive_loop : ℕ → ℕ → ℕ → ℕ → SkipList → Run (ℕ × SkipList)
unfolding swap_value
revive_loop zero p v value s = stuck
revive_loop (suc fuel) p v value s =
    let (swapped, s₁) = swap_value p s.no_value value s in
    let again = revive_loop fuel p (s₁.nodes.value p) value s₁ in
    if v == s.no_value then (if swapped then done (v, s₁) else again) else done (v, s)

-- The key was found at the node `p`; `again` is `continue`. A node that is not fully linked is waited
-- for, which only another thread can end.
unfoldable pub insert_found :
    (SkipList → Run (ℕ × SkipList)) → ℕ → ℕ → SkipList → Run (ℕ × SkipList)
insert_found again p value s =
    if not (s.nodes.mark p)
    then (if s.nodes.fully_linked p then revive_loop 1 p (s.nodes.value p) value s else stuck)
    else again s

-- The key was not found.
unfoldable pub insert_absent :
    (SkipList → Run (ℕ × SkipList)) → ℕ → ℕ → ℕ → Places → SkipList → Run (ℕ × SkipList)
insert_absent again top key value r s = do
  (valid, locked, s₁) ← lock_levels (top + 1) 0 r s
  if valid
      then done (null, unlock_levels locked 0 r (link_node top key value r s₁))
      else again (unlock_levels locked 0 r s₁)

-- A round of the `while (true)` loop for each unit of fuel.
unfoldable pub insert_loop : ℕ → ℕ → ℕ → ℕ → SkipList → Run (ℕ × SkipList)
insert_loop zero top key value s = stuck
insert_loop (suc fuel) top key value s = do
  r ← find_all key s
  elim r.flevel [
    | some f ↦ insert_found (insert_loop fuel top key value) (r.succs f) value s
    | none ↦ insert_absent (insert_loop fuel top key value) top key value r s
  ]

unfoldable pub insert_if_absent : ℕ → ℕ → ℕ → SkipList → Run (ℕ × SkipList)
insert_if_absent tid key value s = do
  let (top, seed') = gen_random (s.seed tid)
  s₁ ← raise_max 1 top (record s { seed = upd s.seed tid seed' })
  insert_loop 1 top key value s₁

-- The loop that writes `noValue` to a node.
unfoldable pub erase_loop : ℕ → ℕ → ℕ → SkipList → Run (ℕ × SkipList)
unfolding swap_value
erase_loop zero p v s = stuck
erase_loop (suc fuel) p v s =
    let (swapped, s₁) = swap_value p v s.no_value s in
    let again = erase_loop fuel p (s₁.nodes.value p) s₁ in
    if not (v == s.no_value) then (if swapped then done (v, s₁) else again) else done (v, s)

unfoldable pub erase : ℕ → SkipList → Run (ℕ × SkipList)
erase key s = do
  r ← find_all key s
  elim r.flevel [
    | none ↦ done (s.no_value, s)
    | some f ↦ erase_loop 1 (r.succs f) (s.nodes.value (r.succs f)) s
  ]
