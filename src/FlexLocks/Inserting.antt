-- ===== src/FlexLocks/Inserting.antt =====
-- `insert` at the lowest level of a linked list.
use mathlib.Core.Path.{subst}
use splaylist.Base.{
  ℕ, ◌≤◌, ◌<◌, ◌≡◌, ◌≢◌, ◌∙◌, refl, sym, ap, true, false, ◌||◌, ◌&&◌, some, arith, ◌==◌, leb,
  Bool-cases, inl, inr, ne→==, ==→eq, ==→ne, ==_self,
}
use splaylist.Base.Memory.{upd-same}
use splaylist.Base.Run.{Ensures, ensures}
use splaylist.FlexSeq.State.{FlexList, head, tail, upd, create_node, set_next}
use splaylist.FlexSeq.Update.{links_to, may_rise}
use splaylist.FlexSeq.View.{View, StandsFor, Follows, IsLinked}
use splaylist.FlexSeq.View.Search.{Between, read_link}
use splaylist.FlexSeq.View.Steps.{
  Counted-StandsFor, selfhits-Counted, zero_shown, size_shown, top_shown, highest_shown,
}
use splaylist.FlexSeq.View.Rising.{Same, Same-refl, rise_loop-Raised}
use splaylist.FlexSeq.View.Inserted.{inserted, inserted-IsLinked, key_old, top_old}
use splaylist.FlexSeq.View.Inserting.{with_node, with_node-StandsFor}
use splaylist.FlexSeq.View.Level.{Walking, linked-Follows}
use splaylist.FlexSeq.View.Updating.{Updated}
use splaylist.FlexSeq.Insertion.{extended}
use splaylist.FlexLocks.Shared.{LockList, release_lock}
use splaylist.FlexLocks.Update.{insert, add_selfhit}
use splaylist.FlexLocks.Held.{
  insert_locks, insert_locks_one, or_same, Holds, acquire_lock_free, Ensures-run_list_Returns,
}

-- The list once the new node is linked and its access counted.
abbrev with_hit : ℕ → ℕ → ℕ → ℕ → FlexList ℕ → FlexList ℕ
with_hit h key value pred l =
    let l₁ = create_node h key value l in
    add_selfhit l.size
      (set_next pred h (some l.size) (set_next l.size h ((l₁.nodes pred).next h) l₁))

next-create_node :
    (h key value pred : ℕ) (l : FlexList ℕ)
    → pred < l.size
    → ((create_node h key value l).nodes pred).next h ≡ (l.nodes pred).next h
unfolding create_node
next-create_node h key value pred l live = ground arith

module _ (v : View ℕ) (linked : IsLinked v) (key value pred pp succ : ℕ) (s : LockList)
    (st : StandsFor v s.list) (b : Between v key v.zero_level pred succ) (gap : key < v.key succ)
    (above : v.key head < key) (below : key < v.key tail)
    (zp : (s.list.nodes pred).zero_level ≤ v.zero_level) (pp_live : pp < v.size)
    (pp_before : v.key pp ≤ v.key pred) (pp_wide : v.zero_level ≤ v.top pp)
    (pp_zero : (s.list.nodes pp).zero_level ≤ v.zero_level) where
  abbrev h : ℕ
  h = v.zero_level

  abbrev n : ℕ
  n = s.list.size

  abbrev w : View ℕ
  w = inserted v pred succ key value

  abbrev l' : FlexList ℕ
  l' = with_hit h key value pred s.list

  w_linked : IsLinked w
  w_linked = inserted-IsLinked v linked key pred succ value b gap above

  old : (r : ℕ) → r < v.size → w.key r ≡ v.key r
  old r live = key_old v linked key pred succ value b gap r (omega arith)

  -- The link of `pred` that the new node takes over.
  link_of_pred : (s.list.nodes pred).next h ≡ some succ
  link_of_pred =
      let (q, e, f) =
        linked.links pred h b.live (omega (arith, b.before, below)) (omega arith) b.wide in
      let k : v.key q ≡ v.key succ = omega (
        arith,
        f.least succ b.follows.live b.follows.above b.follows.reaches,
        b.follows.least q f.live f.above f.reaches,
      ) in
      read_link v s.list pred h q st zp e
      ∙ ap (λ r. some r) (linked.keys q succ f.live b.follows.live k)

  stands' : StandsFor w l'
  stands' =
      let size = size_shown v s.list st in
      let low = zero_shown v s.list st in
      let live : pred < s.list.size = omega (arith, b.live) in
      let at : (s.list.nodes pred).zero_level ≡ h = omega (arith, st.levels pred live) in
      let e = next-create_node h key value pred s.list live ∙ link_of_pred in
      let same : with_node pred succ key value s.list
          ≡ set_next pred h (some s.list.size) (
              set_next s.list.size h (((create_node h key value s.list).nodes pred).next h)
                (create_node h key value s.list)) =
        ap
          (λ k.
            set_next pred k (some s.list.size)
              (set_next s.list.size k (some succ) (create_node k key value s.list)))
          at
        ∙ ap
            (λ o.
              set_next pred h (some s.list.size)
                (set_next s.list.size h o (create_node h key value s.list)))
            (sym e) in
      Counted-StandsFor w _ l' (selfhits-Counted s.list.size _ _) (
        subst (StandsFor w) same
          (with_node-StandsFor v pred succ key value s.list st b.live zp linked.shallow))

  -- The view that the insertion promises, from one with the new node.
  inserted-Updated :
      (u : View ℕ) (s' : FlexList ℕ)
      → Same w u
      → IsLinked u
      → StandsFor u s'
      → Updated (extended v key value) s'
  inserted-Updated u s' same u_linked u_stands = record {
    after = u;
    same = record {
      size = same.size;
      highest = same.highest;
      no_value = same.no_value;
      key = same.key;
      value = same.value;
    };
    linked = u_linked;
    stands = u_stands;
  }

  size : n ≡ v.size
  size = size_shown v s.list st

  key_new : w.key n ≡ key
  key_new = upd-same v.key v.size key n size

  other : n ≢ pred
  other same = absurd (omega (arith, b.live, size))

  Follows-new : Follows w h pred n
  Follows-new =
      let p_old : pred ≢ v.size = λ e. absurd (omega (arith, b.live)) in
      let (q, e, f) =
        w_linked.links pred h (omega (arith, b.live))
          (omega (arith, old pred b.live, old tail (omega (arith, linked.sized)), b.before))
          (omega arith)
          (omega (arith, b.wide, top_old v linked key pred succ value b gap pred p_old)) in
      let low : leb h h ≡ true = ground arith in
      let at : w.link pred h ≡ some v.size = rw (low, ==_self pred) refl in
      let same : q ≡ v.size = cc in subst (Follows w h pred) (same ∙ sym size) f

  zero_kept : (r : ℕ) → r < v.size → (l'.nodes r).zero_level ≡ (s.list.nodes r).zero_level
  unfolding create_node set_next
  zero_kept r live =
      let off : (r == s.list.size) ≡ false =
        ne→== r s.list.size (λ e. absurd (omega (arith, size))) in
      ground arith

  zero_new : (l'.nodes n).zero_level ≡ h
  unfolding create_node set_next
  zero_new = ground arith

  -- The new node behind `pred`, as the loop of an update would meet it.
  walking : Walking w key h (record { ok = false; predpred = pp; pred = pred; cur = n; list = l' })
  walking =
      let p_old : pred ≢ v.size = λ e. absurd (omega (arith, b.live)) in
      let pp_old : pp ≢ v.size = λ e. absurd (omega arith) in
      record {
        linked = w_linked;
        stands = stands';
        low = omega arith;
        inner = linked.shallow;
        below = omega (arith, old tail (omega (arith, linked.sized)));
        follows = Follows-new;
        live = omega (arith, b.live);
        before = omega (arith, old pred b.live, b.before);
        wide = omega (arith, b.wide, top_old v linked key pred succ value b gap pred p_old);
        zero = omega (arith, zero_kept pred b.live);
        pp_live = omega arith;
        pp_before = omega (arith, old pred b.live, old pp pp_live);
        pp_wide = omega (arith, top_old v linked key pred succ value b gap pp pp_old);
        pp_zero = omega (arith, zero_kept pp pp_live);
      }

  -- Only `pred` itself can link to the new node: `assert(0)` is not reached.
  pp_is_pred : Follows w h pp n → pp ≡ pred
  pp_is_pred f = elim (Bool-cases (pp == pred)) [
    | inl e ↦ ==→eq pp pred e
    | inr off ↦
        let apart : v.key pp ≢ v.key pred =
          λ e. ==→ne pp pred off (linked.keys pp pred pp_live b.live e) in
        absurd (
          omega (
            arith,
            f.least pred (omega (arith, b.live))
                (omega (arith, old pp pp_live, old pred b.live, pp_before, apart)) walking.wide,
            key_new,
            old pred b.live,
            b.before,
          ))
  ]

  -- `insert` between `pred` and the node behind the key at the lowest level returns with the lock of
  -- `pred`, in a list with one more node.
  pub insert-Updated :
      Holds (λ j. (j == pp) || (j == pred)) s
      → Ensures
          (λ s'. Holds (λ j. j == pred) s' × Updated (extended v key value) s'.list)
          (insert h key value pred pp s)
  unfolding insert release_lock splaylist.FlexLocks.Shared.create_node
  insert-Updated held =
      let fresh = upd-same s.lock n false n refl in
      let s₂ = record s {
        list =
            set_next n h (((create_node h key value s.list).nodes pred).next h)
              (create_node h key value s.list);
        lock = upd s.lock n false;
        contains = upd s.contains n 0;
      } in
      let s₄ = record s₂ { list = l'; lock = upd s₂.lock n true } in
      let raised =
        rise_loop-Raised l'.highest w pp n (l'.nodes n).top_level h l' w_linked stands' in
      rw (acquire_lock_free n s₂ fresh)
        (elim (Bool-cases (may_rise pp h l' && links_to pp h n l')) [
          | inl up ↦
              let f =
                linked-Follows w key h pp pred n false l' walking (omega (arith, zero_new))
                  (omega (arith, key_new)) (ground arith) in
              let same = pp_is_pred f in
              let one : (j : ℕ) → s.lock j ≡ (j == pred) =
                λ j. held j ∙ ap (λ r. (j == r) || (j == pred)) same ∙ or_same (j == pred) in
              let top = highest_shown w l' stands' in
              let equal : (pp == pred) ≡ true = ap (λ r. r == pred) same ∙ ==_self pred in
              rw up (
                Ensures-run_list_Returns s₄ _
                  (raised walking.pp_live f walking.low (sym (top_shown w l' n stands'))
                    walking.pp_zero (omega (arith, walking.inner)) (omega arith))
                  λ l'' r. rw equal (
                    ensures (
                      insert_locks_one s.lock pred n one other,
                      inserted-Updated r.after l'' r.same r.linked r.stands,
                    )))
          | inr stay ↦ rw stay (
              ensures (
                insert_locks s.lock pp pred n held other,
                inserted-Updated w l' (Same-refl w) w_linked stands',
              ))
        ])
