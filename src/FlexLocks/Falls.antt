-- ===== src/FlexLocks/Falls.antt =====
-- `go_down`, and with it all branches of a round, against those of the list without locks.
use splaylist.Base.{
  ℕ, ◌≤◌, ◌≡◌, ◌≢◌, ◌∙◌, refl, sym, ap, Bool, true, false, ◌&&◌, ◌||◌, not, some, arith, ◌==◌, ltb,
  if◌then◌else◌, Bool-cases, inl, inr, ne→==, ==_self,
}
use splaylist.Base.Memory.{upd-other}
use splaylist.Base.Run.{done, ◌>>=◌, Shadows, both_done}
use splaylist.FlexSeq.State.{FlexList, tail, upd, read_next}
use splaylist.FlexSeq.Update.{links_to, may_rise, rise_loop, may_fall, fall}
use splaylist.FlexSeq.Update
use splaylist.FlexSeq.View.{View, Follows}
use splaylist.FlexSeq.View.Search.{read_link, key_shown}
use splaylist.FlexSeq.View.Falling.{Dropped, fall-Dropped}
use splaylist.FlexSeq.View.Steps.{top_shown}
use splaylist.FlexSeq.View.Level.{Walking, next_of, may_drop, may_fall-top}
use splaylist.FlexLocks.Shared.{LockList, release_lock}
use splaylist.FlexLocks.Walk.{go_up, go_down, go_on}
use splaylist.FlexLocks.Held.{or_false, put_back_two, Holds, acquire_lock_free, put_back}
use splaylist.FlexLocks.Branches.{
  plain, Kept, Shadows-run_list_Ensures, go_up-Shadows, go_on-Shadows,
}

module _ (v : View ℕ) (key h pp pred cur : ℕ) (ok : Bool) (s : LockList)
    (w : Walking v key h (record { ok = ok; predpred = pp; pred = pred; cur = cur; list = s.list }))
    (zc : (s.list.nodes cur).zero_level ≤ h) (le : v.key cur ≤ key) where
  -- The link of `pred` at the level leads to `cur`.
  link_to_cur : (s.list.nodes pred).next h ≡ some cur
  link_to_cur =
      let (q, e, f) =
        w.linked.links pred h w.live (omega (arith, w.below, w.before)) w.low w.wide in
      let k : v.key q ≡ v.key cur = omega (
        arith,
        f.least cur w.follows.live w.follows.above w.follows.reaches,
        w.follows.least q f.live f.above f.reaches,
      ) in
      read_link v s.list pred h q w.stands w.zero e
      ∙ ap (λ r. some r) (w.linked.keys q cur f.live w.follows.live k)

  -- After `cur` has left the level, `pred` is followed by a node with a key of at most `key`.
  next_low :
      (n : ℕ) (l : FlexList ℕ) (d : Dropped v cur h s.list l) (q : ℕ)
      → Follows v h cur n
      → v.key n ≤ key
      → Follows d.after h pred q
      → (l.nodes q).key ≤ key
  next_low n l d q fn low fq =
      let other : n ≢ cur = λ e. absurd (omega (arith, fn.above, ap v.key e)) in
      omega (
        arith,
        key_shown d.after l q d.stands,
        fq.least n (omega (arith, fn.live, d.same.size))
            (omega (arith, d.same.key n, d.same.key pred, fn.above, w.follows.above))
            (omega (arith, d.tops n other, fn.reaches)),
        d.same.key n,
      )

  -- The two ends of `go_down`, with the locks `f` back.
  fallen :
      (f : ℕ → Bool) (n : ℕ) (l : FlexList ℕ) (s' : LockList)
      → Follows v h cur n
      → v.key n ≤ key
      → ((j : ℕ) → s.lock j ≡ ((j == pp) || false))
      → ((j : ℕ) → f j ≡ s.lock j)
      → Dropped v cur h s.list l
      → Shadows plain
          (Kept key ok)
          (read_next pred h l >>= λ q. done (record {
            ok = ok;
            predpred = pp;
            pred = pred;
            cur = q;
            state = record s' { list = l; lock = f };
          }))
          (read_next pred h l >>= λ q.
            done (record { ok = ok; predpred = pp; pred = pred; cur = q; list = l }))
  fallen f n l s' fn low held back d =
      let other : pred ≢ cur = λ e. absurd (omega (arith, w.follows.above, ap v.key e)) in
      let (q, e, fq) =
        next_of d.after l pred h d.linked d.stands (omega (arith, w.live, d.same.size))
          (omega (arith, d.same.key pred, d.same.key tail, w.below, w.before))
          (omega (arith, d.low)) (omega (arith, d.tops pred other, w.wide)) (d.zeros pred w.zero) in
      let le' = next_low n l d q fn low fq in
      let not_past : ltb key (l.nodes q).key ≡ false = ground arith in
      rw e (both_done ((λ j. back j ∙ held j ∙ rw not_past refl), refl))

  go_down-Shadows :
      (n : ℕ)
      → read_next cur h s.list ≡ done n
      → Follows v h cur n
      → v.key n ≤ key
      → may_fall pred cur h s.list ≡ true
      → ((j : ℕ) → s.lock j ≡ ((j == pp) || false))
      → Shadows plain
          (Kept key ok)
          (go_down key h ok pp pred cur s)
          (splaylist.FlexSeq.Update.go_down h ok pp pred cur s.list)
  unfolding go_down splaylist.FlexSeq.Update.go_down release_lock
  go_down-Shadows n e fn low may held =
      let k = key_shown v s.list n w.stands in
      let not_past : ltb key (s.list.nodes n).key ≡ false = ground arith in
      let pp_other : pp ≢ cur =
        λ same. absurd (omega (arith, w.pp_before, w.follows.above, ap v.key same)) in
      let cur_free : s.lock cur ≡ false =
        held cur ∙ or_false (cur == pp) ∙ ne→== cur pp (λ same. pp_other (sym same)) in
      let linked : links_to pred h cur s.list ≡ true = rw (links_to, link_to_cur) (==_self cur) in
      let drops =
        fall-Dropped v pred cur h s.list w.linked w.stands w.low
          (may_drop v key h pp pred cur ok s.list w zc le
            (sym (top_shown v s.list cur w.stands) ∙ may_fall-top pred cur h s.list may))
          w.zero zc in
      elim (Bool-cases (pred == pp)) [
        | inl same ↦
            rw (same, acquire_lock_free cur s cur_free, e, may, not_past, linked)
              (Shadows-run_list_Ensures (record s { lock = upd s.lock cur true }) _ _ drops
                λ l d. fallen _ n l s fn low held (put_back s.lock cur cur_free) d)
        | inr off ↦
            let pred_free : s.lock pred ≡ false = held pred ∙ or_false (pred == pp) ∙ off in
            let s₁ = record s { lock = upd s.lock pred true } in
            let free₁ : s₁.lock cur ≡ false =
              upd-other s.lock pred true cur
                (λ same. absurd (omega (arith, w.follows.above, ap v.key same)))
              ∙ cur_free in
            rw
              (
                off,
                acquire_lock_free pred s pred_free,
                acquire_lock_free cur s₁ free₁,
                e,
                may,
                not_past,
                linked,
              )
              (Shadows-run_list_Ensures (record s₁ { lock = upd s₁.lock cur true }) _ _ drops
                λ l d.
                  fallen _ n l s fn low held (put_back_two s.lock pred cur pred_free cur_free) d)
      ]

  -- The branches of a round, where the access is counted at `cur` if `last` says so.
  pub branches-Shadows :
      (n : ℕ) (last : Bool)
      → read_next cur h s.list ≡ done n
      → Follows v h cur n
      → ltb key (s.list.nodes n).key ≡ last
      → Holds (λ j. (j == pp) || (last && (j == cur))) s
      → Shadows plain
          (Kept key ok)
          (if may_rise pp h s.list && links_to pp h cur s.list
            then go_up h last ok pp cur s
            else if not last && may_fall pred cur h s.list
            then go_down key h ok pp pred cur s
            else go_on h ok pp cur s)
          (if may_rise pp h s.list && links_to pp h cur s.list
            then splaylist.FlexSeq.Update.go_up h ok pp cur s.list
            else if not last && may_fall pred cur h s.list
            then splaylist.FlexSeq.Update.go_down h ok pp pred cur s.list
            else splaylist.FlexSeq.Update.go_on h ok pp cur s.list)
  branches-Shadows n last e fn past held =
      let pp_other : pp ≢ cur =
        λ same. absurd (omega (arith, w.pp_before, w.follows.above, ap v.key same)) in
      let k = key_shown v s.list n w.stands in
      elim (Bool-cases (may_rise pp h s.list && links_to pp h cur s.list)) [
        | inl up ↦ rw up (go_up-Shadows key h pp cur last ok s held pp_other)
        | inr no_up ↦ rw no_up (elim (Bool-cases (not last && may_fall pred cur h s.list)) [
          | inl down ↦
              let off : last ≡ false = ground arith in
              let low : v.key n ≤ key = ground arith in
              let may : may_fall pred cur h s.list ≡ true = ground arith in
              rw down (
                go_down-Shadows n e fn low may
                  λ j. held j ∙ ap (λ b. (j == pp) || (b && (j == cur))) off)
          | inr on ↦ rw on (
              go_on-Shadows key h pp cur n ok s e
                λ j. held j ∙ ap (λ b. (j == pp) || (b && (j == cur))) (sym past))
        ])
      ]
