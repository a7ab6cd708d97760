-- ===== src/CbShared/Tests.antt =====
-- A lock that keeps its holders, a run of two threads with it, and the theorems at that run.
use mathlib.Core.List.{Memᴰ}
use splaylist.Base.{ℕ, ◌≡◌, ap, refl, Bool, true, false, [], arith, ◌==◌, Bool-cases, inl, inr}
use splaylist.Base.Memory.{upd}
use splaylist.CbTree.Tree.{new_node}
use splaylist.CbTree.Entries.{entries}
use splaylist.CbTree.Search.{search_loop}
use splaylist.CbTree.Ops.{
  search, attach, insert_if_absent, search_no_restructure_loop, search_no_restructure,
}
use splaylist.CbTree.Client.{insert_key}
use splaylist.CbTree.Laws.{IsValid}
use splaylist.CbShared.RwLock.{RwLock, IsRwLock}
use splaylist.CbShared.State.{
  Shared, new_shared, seen_by, one_restructures, Pc, Event, is_writer, is_waiting, set_cops,
}
use splaylist.CbShared.Steps.{
  Move, call_find, call_insert, call_set_cops, go_shared, lock_shared, begin_read, read,
  unlock_shared, go_insert, lock_insert, begin_insert, insert, System, pick, Reach, here, later,
}
use splaylist.CbShared.Linear.{IsLegal, entries_after}
use splaylist.CbShared.Safety.{start, IsFree, CanMove, Reach-IsLegal, Reach-isolated, Reach-CanMove}
use splaylist.CbShared.Settled.{Reach-owed}

record Holders : Type 0 where
  sharing : ℕ → Bool
  excluding : ℕ → Bool

abbrev holders_lock : RwLock
holders_lock = record {
  State = Holders;
  reads = λ l i. l.sharing i;
  writes = λ l i. l.excluding i;
  SharedLock = λ l i l'.
      ((j : ℕ) → l.excluding j ≡ false) × (l' ≡ record l { sharing = upd l.sharing i true });
  SharedUnlock = λ l i l'. l' ≡ record l { sharing = upd l.sharing i false };
  ExclusiveLock = λ l i l'.
      ((j : ℕ) → (l.excluding j ≡ false) × (l.sharing j ≡ false))
      × (l' ≡ record l { excluding = upd l.excluding i true });
  ExclusiveUnlock = λ l i l'. l' ≡ record l { excluding = upd l.excluding i false };
}

holders_lock-IsRwLock : IsRwLock holders_lock
holders_lock-IsRwLock = record {
  shared_writes = λ l l' i j (a, e). ap (λ x. x.excluding j) e;
  shared_reads = λ l l' i j (a, e). ap (λ x. x.sharing j) e;
  shared_alone = λ l l' i j (a, e). a j;
  unshared_writes = λ l l' i j e. ap (λ x. x.excluding j) e;
  unshared_reads = λ l l' i j e. ap (λ x. x.sharing j) e;
  exclusive_writes = λ l l' i j (a, e). ap (λ x. x.excluding j) e;
  exclusive_reads = λ l l' i j (a, e). ap (λ x. x.sharing j) e;
  exclusive_alone = λ l l' i j (a, e). a j;
  unexclusive_writes = λ l l' i j e. ap (λ x. x.excluding j) e;
  unexclusive_reads = λ l l' i j e. ap (λ x. x.sharing j) e;
  can_share = λ l i a. (_, (a, refl));
  can_unshare = λ l i h. (_, refl);
  can_exclude = λ l i a b. (_, ((λ j. (a j, b j)), refl));
  can_unexclude = λ l i h. (_, refl);
}

abbrev nobody : Holders
nobody = record { sharing = λ i. false; excluding = λ i. false }

abbrev empty_tree : Shared
empty_tree = new_shared 100 0 10

empty_tree-IsValid : IsValid (seen_by 0 empty_tree)
unfolding new_shared new_node
empty_tree-IsValid = record { rooted = refl; sorted = (tt, tt) }

nobody-IsFree : IsFree holders_lock holders_lock-IsRwLock 1 one_restructures nobody
nobody-IsFree i = (refl, refl)

abbrev first : System holders_lock 1 one_restructures
first = start holders_lock holders_lock-IsRwLock 1 one_restructures empty_tree nobody

given_back : (j : ℕ) → upd (upd (λ i. false) 2 true) 2 false j ≡ false
given_back j = elim (Bool-cases (j == 2)) [ inl e ↦ rw e refl | inr e ↦ rw e refl ]

-- Thread 2 starts an insertion, reads in vain, and inserts; thread 3 starts a search meanwhile.
abbrev ran :
    (s : System holders_lock 1 one_restructures) × Reach holders_lock 1 one_restructures first s
unfolding one_restructures search_no_restructure search_no_restructure_loop new_shared new_node
    insert_if_absent search search_loop attach
ran = (
  _,
  later
      (later
        (later
          (later
            (later
              (later
                (later
                  (later
                    (later
                      (later (later here (pick 2 (call_insert 20 7))) (pick 2 (go_shared refl)))
                      (pick 2 (lock_shared ((λ j. refl), refl))))
                    (pick 2 begin_read))
                  (pick 2 (read refl)))
                (pick 2 (unlock_shared refl)))
              (pick 3 (call_find 20)))
            (pick 2 (go_insert refl)))
          (pick 2 (lock_insert ((λ j. (refl, given_back j)), refl))))
        (pick 2 begin_insert))
      (pick 2 (insert refl)),
)

abbrev last : System holders_lock 1 one_restructures
last = ran.0

Reach-IsLegal_example :
    IsLegal empty_tree.no_value (entries empty_tree.root) last.history
    × (entries last.shared.root ≡ entries_after (entries empty_tree.root) last.history)
Reach-IsLegal_example =
    Reach-IsLegal holders_lock holders_lock-IsRwLock 1 one_restructures empty_tree nobody
      empty_tree-IsValid nobody-IsFree ran.1

last-IsWriter : is_writer (last.pc 2) ≡ true
unfolding ran
last-IsWriter = refl

last-set_cops :
    Move holders_lock 1 one_restructures 4 last.shared last.state
      (last.pc 4)
      (set_cops 5 last.shared)
      last.state
      Pc.idle
      []
unfolding ran
last-set_cops = call_set_cops 5

Reach-isolated_example : (set_cops 5 last.shared).root ≡ last.shared.root
Reach-isolated_example =
    Reach-isolated holders_lock holders_lock-IsRwLock 1 one_restructures empty_tree nobody
      empty_tree-IsValid nobody-IsFree ran.1 4 2 (λ e. absurd (omega arith)) (rw last-IsWriter refl)
      last-set_cops

last-not_waiting : is_waiting (last.pc 2) ≡ false
unfolding ran
last-not_waiting = refl

Reach-CanMove_example :
    CanMove holders_lock holders_lock-IsRwLock 1 one_restructures 2 last (last.pc 2)
Reach-CanMove_example =
    Reach-CanMove holders_lock holders_lock-IsRwLock 1 one_restructures empty_tree nobody
      empty_tree-IsValid nobody-IsFree ran.1 2 (λ w. absurd (cc (last-not_waiting, w)))

abbrev last_event : Event
last_event = record { call = insert_key 20 7; reply = 0 }

Reach-owed_example : Memᴰ last_event last.history
unfolding ran
Reach-owed_example =
    Reach-owed holders_lock 1 one_restructures holders_lock-IsRwLock empty_tree nobody
      empty_tree-IsValid nobody-IsFree ran.1 2 last_event (Memᴰ.head refl)
