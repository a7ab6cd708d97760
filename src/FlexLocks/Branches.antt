-- ===== src/FlexLocks/Branches.antt =====
-- The three ways in which the loop along a level goes on, against those of the list without locks.
use splaylist.Base.{
  ℕ, ◌≡◌, ◌≢◌, ◌∙◌, refl, sym, Bool, true, false, ◌&&◌, ◌||◌, Option, none, some, ◌==◌, ltb, ne→==,
}
use splaylist.Base.Run.{
  Run, done, stuck, sunk, ◌>>=◌, Ensures, ensures, has_sunk, Shadows, both_done, both_sunk,
  both_stuck,
}
use splaylist.FlexSeq.State.{FlexList, upd, read_next}
use splaylist.FlexSeq.Update.{links_to, may_rise, rise_loop, may_fall, fall}
use splaylist.FlexSeq.Update
use splaylist.FlexLocks.Shared.{LockList, release_lock}
use splaylist.FlexLocks.Walk.{Position, go_up, go_on}
use splaylist.FlexLocks.Held.{or_false, lock_taken, lock_moved, Holds, acquire_lock_free}

-- The variables of the loop without the locks.
abbrev pub plain : Position → splaylist.FlexSeq.Update.Position ℕ
plain p = record {
  ok = p.ok;
  predpred = p.predpred;
  pred = p.pred;
  cur = p.cur;
  list = p.state.list;
}

-- The lock of `predpred` is held, and that of `pred` once `cur` lies behind the key.
abbrev pub HoldsAt : ℕ → Position → Type 0
HoldsAt key p =
    Holds (λ j. (j == p.predpred) || (ltb key (p.state.list.nodes p.cur).key && (j == p.pred)))
      p.state

-- A branch keeps `ok`.
abbrev pub Kept : ℕ → Bool → Position → Type 0
Kept key ok p = HoldsAt key p × (p.ok ≡ ok)

pub Shadows-read :
    {P : Position → Type 0} {f : ℕ → Run Position}
    {g : ℕ → Run (splaylist.FlexSeq.Update.Position ℕ)} (o : Option ℕ)
    → ((q : ℕ) → Shadows plain P (f q) (g q))
    → Shadows plain P
        ((elim o [ none ↦ stuck | some q ↦ done q ]) >>= f)
        ((elim o [ none ↦ stuck | some q ↦ done q ]) >>= g)
Shadows-read none next = both_stuck
Shadows-read (some q) next = next q

module _ {P : Position → Type 0} (s : LockList) (k : LockList → Run Position)
    (k' : FlexList ℕ → Run (splaylist.FlexSeq.Update.Position ℕ)) where
  Shadows-run_list :
      (m : Run (FlexList ℕ))
      → ((l : FlexList ℕ) → Shadows plain P (k (record s { list = l })) (k' l))
      → Shadows plain P ((m >>= λ l. done (record s { list = l })) >>= k) (m >>= k')
  Shadows-run_list (done l) next = next l
  Shadows-run_list sunk next = both_sunk
  Shadows-run_list stuck next = both_stuck

  pub Shadows-run_list_Ensures {κ} :
      {Q : FlexList ℕ → Type κ} {m : Run (FlexList ℕ)}
      → Ensures Q m
      → ((l : FlexList ℕ) → Q l → Shadows plain P (k (record s { list = l })) (k' l))
      → Shadows plain P ((m >>= λ l. done (record s { list = l })) >>= k) (m >>= k')
  Shadows-run_list_Ensures (ensures q) next = next _ q
  Shadows-run_list_Ensures has_sunk next = both_sunk

pub go_up-Shadows :
    (key h pp cur : ℕ) (acquired ok : Bool) (s : LockList)
    → Holds (λ j. (j == pp) || (acquired && (j == cur))) s
    → pp ≢ cur
    → Shadows plain
        (Kept key ok)
        (go_up h acquired ok pp cur s)
        (splaylist.FlexSeq.Update.go_up h ok pp cur s.list)
unfolding go_up splaylist.FlexSeq.Update.go_up release_lock
go_up-Shadows key h pp cur true ok s held n =
    Shadows-run_list s _ _ (rise_loop s.list.highest pp cur (s.list.nodes cur).top_level s.list)
      λ l.
        Shadows-read ((l.nodes cur).next h) λ q. both_done (lock_moved s.lock pp cur held n _, refl)
go_up-Shadows key h pp cur false ok s held n =
    let free : s.lock cur ≡ false =
      held cur ∙ or_false (cur == pp) ∙ ne→== cur pp (λ e. n (sym e)) in
    rw (acquire_lock_free cur s free) (
      Shadows-run_list (record s { lock = upd s.lock cur true }) _ _
        (rise_loop s.list.highest pp cur (s.list.nodes cur).top_level s.list)
        λ l. Shadows-read ((l.nodes cur).next h) λ q.
          both_done
            (lock_moved (upd s.lock cur true) pp cur (lock_taken s.lock pp cur held) n _, refl))

pub go_on-Shadows :
    (key h pp cur n : ℕ) (ok : Bool) (s : LockList)
    → read_next cur h s.list ≡ done n
    → Holds (λ j. (j == pp) || (ltb key (s.list.nodes n).key && (j == cur))) s
    → Shadows plain
        (Kept key ok)
        (go_on h ok pp cur s)
        (splaylist.FlexSeq.Update.go_on h ok pp cur s.list)
unfolding go_on splaylist.FlexSeq.Update.go_on
go_on-Shadows key h pp cur n ok s e held = rw e (both_done (held, refl))
