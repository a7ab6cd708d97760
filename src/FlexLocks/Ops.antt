-- ===== src/FlexLocks/Ops.antt =====
-- The public operations of `class FlexList`.
use splaylist.Base.{
  ℕ, zero, suc, ◌+◌, ◌-◌, ◌*◌, Bool, false, not, Option, none, some, ◌==◌, if◌then◌else◌,
}
use splaylist.Base.Run.{Run, done, stuck, ◌>>=◌}
use splaylist.FlexSeq.State.{FlexList, Node, head, upd, put}
use splaylist.FlexSeq.Ops.{build_list}
use splaylist.FlexLocks.Shared.{LockList, max_level, on_list}
use splaylist.FlexLocks.Find.{find}
use splaylist.FlexLocks.Update.{update, update_with_insert}

-- The constructor: `head` and `tail` with the smallest and the greatest key; `empty` is the memory
-- before.
unfoldable pub new_list : ℕ → ℕ → ℕ → ℕ → (ℕ → Node ℕ) → LockList
unfolding build_list
new_list num_threads no_value min_key max_key empty = record {
  list = build_list max_level (100 * num_threads) no_value 0 min_key max_key empty;
  lock = λ p. false;
  contains = λ p. 0;
  path_lengths = λ tid. 0;
  update_counter = λ tid. 0;
}

-- Every `UPDATE_NUM`th successful search of a thread updates the list.
unfoldable pub count_update : ℕ → ℕ → LockList → Run LockList
unfolding update
count_update tid key s =
    let s₁ = record s { update_counter = upd s.update_counter tid (s.update_counter tid + 1) } in
    let due : Run LockList = do
      s₂ ← update key s₁
      done (record s₂ { update_counter = upd s₂.update_counter tid 0 })
    in if s₁.update_counter tid == s₁.list.update_num then due else done s₁

-- `p->value`
abbrev pub value_of : ℕ → LockList → ℕ
value_of p s = (s.list.nodes p).value

abbrev pub set_value : ℕ → ℕ → FlexList ℕ → FlexList ℕ
set_value p v l = put p (record (l.nodes p) { value = v }) l

-- What an operation does with the node that `find` has found, with NULL not to be followed.
abbrev pub at_node {ℓ} : {A : Type ℓ} → Option ℕ → (ℕ → Run A) → Run A
at_node none f = stuck
at_node (some p) f = f p

unfoldable pub contains : ℕ → ℕ → LockList → Run (Bool × LockList)
unfolding find count_update
contains tid key s = do
  (found, pred, succ, s₁) ← find tid key s
  let present : Run (Bool × LockList) =
      at_node succ
        λ p. do s₂ ← count_update tid key s₁; done (not (value_of p s₂ == s₂.list.no_value), s₂)
  if found then present else done (false, s₁)

unfoldable pub qfind : ℕ → ℕ → LockList → Run (ℕ × LockList)
unfolding find count_update
qfind tid key s = do
  (found, pred, succ, s₁) ← find tid key s
  let present : Run (ℕ × LockList) =
      at_node succ λ p. do s₂ ← count_update tid key s₁; done (value_of p s₁, s₂)
  if found then present else done (s₁.list.no_value, s₁)

-- `while (v == noValue && !CAS(&(p->value), noValue, value)) v = p->value;` With one thread at work one
-- round is enough.
unfoldable pub revive : ℕ → ℕ → ℕ → ℕ → LockList → Run (ℕ × LockList)
revive zero p v value s = stuck
revive (suc fuel) p v value s =
    let again = revive fuel p (value_of p s) value s in
    if not (v == s.list.no_value)
    then done (v, s)
    else if value_of p s == s.list.no_value
    then done (v, on_list (set_value p value) s)
    else again

unfoldable pub insert_if_absent : ℕ → ℕ → ℕ → LockList → Run (ℕ × LockList)
unfolding find count_update revive update_with_insert
insert_if_absent tid key value s = do
  (found, pred, succ, s₁) ← find tid key s
  let present : Run (ℕ × LockList) =
      at_node succ λ p. do s₂ ← count_update tid key s₁; revive 1 p (value_of p s₁) value s₂
  let absent = update_with_insert key value s₁
  if found then present else absent

-- `while (v != noValue && !CAS(&(p->value), v, noValue)) v = p->value;`
unfoldable pub bury : ℕ → ℕ → ℕ → LockList → Run (ℕ × LockList)
bury zero p v s = stuck
bury (suc fuel) p v s =
    let again = bury fuel p (value_of p s) s in
    if v == s.list.no_value
    then done (v, s)
    else if value_of p s == v
    then done (v, on_list (set_value p s.list.no_value) s)
    else again

unfoldable pub erase : ℕ → ℕ → LockList → Run (ℕ × LockList)
unfolding find count_update bury
erase tid key s = do
  (found, pred, succ, s₁) ← find tid key s
  let present : Run (ℕ × LockList) =
      at_node succ λ p. do s₂ ← count_update tid key s₁; bury 1 p (value_of p s₁) s₂
  if found then present else done (s₁.list.no_value, s₁)

unfoldable pub set_cops : ℕ → LockList → LockList
set_cops cops s = on_list (λ l. record l { update_num = cops }) s

unfoldable pub get_root : LockList → Option ℕ
get_root s = (s.list.nodes head).next 0

unfoldable pub get_paths_length : ℕ → LockList → ℕ
get_paths_length tid s = s.path_lengths tid

unfoldable pub get_height : LockList → ℕ
get_height s = s.list.highest - 1 - s.list.zero_level
