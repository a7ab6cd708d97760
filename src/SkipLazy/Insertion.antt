-- ===== src/SkipLazy/Insertion.antt =====
-- `insertIfAbsent`, on every branch, against a map from keys to values.
use mathlib.Core.Path.{subst}
use splaylist.Base.{
  ℕ, ◌+◌, ◌≤◌, ◌<◌, ◌≡◌, ◌∙◌, refl, ap, sym, Bool, false, Option, none, some, arith, ◌==◌, leb,
  if◌then◌else◌, Bool-cases, Option-cases, inl, inr, ==→eq, ==→ne, ==_self,
}
use splaylist.Base.Memory.{upd, upd-same, upd-other, upd-id}
use splaylist.Base.Run.{Run, done, Returns, returns, Returns-bind}
use splaylist.SkipLazy.State.{
  SkipList, max_level, null, head, tail, swap_value, set_value, create_node,
}
use splaylist.SkipLazy.Random.{gen_random, gen_random-lt}
use splaylist.SkipLazy.Search.{Places}
use splaylist.SkipLazy.Change.{
  raise_max, revive_loop, insert_found, insert_absent, insert_loop, insert_if_absent, unlock_levels,
  link_node,
}
use splaylist.SkipLazy.Shape.{shape, Between, IsAbsent, Between-IsAbsent}
use splaylist.SkipLazy.Shape.Places.{ArePlaced, find_all-ArePlaced}
use splaylist.SkipLazy.Shape.Splice.{with_node, link_node-AreSpliced}
use splaylist.SkipLazy.Locks.{with_locks, AreHeld, lock_levels-AreHeld}
use splaylist.SkipLazy.Serves.{
  Serves, Serves-with_values, Serves-same, Serves-tuned, Serves-with_node,
}
use splaylist.SkipLazy.Unlocks.{AreOwed, unlock_levels-free}
use splaylist.SkipLazy.Laws.{
  value_or, inserted_entry, above_head, at_most, entry_present, entry_absent,
}

module _ (low high d : ℕ) (m : ℕ → Option ℕ) (s : SkipList) (v : Serves low high d m s) (key : ℕ)
    (above : low < key) (below : key < high) where
  bounded_above : key ≤ s.nodes.key tail
  bounded_above = at_most low high d m s v key above below

  bounded_below : s.nodes.key head < key
  bounded_below = above_head low high d m s v key above below

  present : (p : ℕ) → p < s.size → s.nodes.key p ≡ key → m key ≡ some (s.nodes.value p)
  present = entry_present low high d m s v key above below

  absent_here : IsAbsent (shape s) key → m key ≡ none
  absent_here = entry_absent low high d m s v key above below

  abbrev pub Placed : ℕ → ℕ × SkipList → Type 0
  Placed x (y, s') =
      (y ≡ value_or null (m key)) × Serves low high d (upd m key (inserted_entry d x (m key))) s'

  revive_loop-Placed :
      (x p : ℕ)
      → p < s.size
      → s.nodes.key p ≡ key
      → Returns (Placed x) (revive_loop 1 p (s.nodes.value p) x s)
  unfolding revive_loop swap_value
  revive_loop-Placed x p live at =
      let e = present p live at in
      let reply = ap (value_or null) (sym e) in
      let entry : inserted_entry d x (m key)
          ≡ some (if s.nodes.value p == s.no_value then x else s.nodes.value p) =
        ap (inserted_entry d x) e
        ∙ ap (λ n. some (if s.nodes.value p == n then x else s.nodes.value p)) (sym v.default) in
      elim (Bool-cases (s.nodes.value p == s.no_value)) [
        | inl empty ↦
            let entry' : inserted_entry d x (m key) ≡ some x = entry ∙ rw empty refl in
            rw empty (
              returns (
                reply,
                subst (λ o. Serves low high d (upd m key o) (set_value p x s)) (sym entry')
                    (Serves-with_values low high d m s p key x (upd s.nodes.value p x) v live at
                      λ q. refl),
              ))
        | inr full ↦
            let entry' : inserted_entry d x (m key) ≡ some (s.nodes.value p) =
              entry ∙ rw full refl in
            rw full (
              returns (
                reply,
                Serves-same low high d m (upd m key (inserted_entry d x (m key))) s
                    (upd-id m key (inserted_entry d x (m key)) (e ∙ sym entry')) v,
              ))
      ]

  insert_found-Placed :
      (again : SkipList → Run (ℕ × SkipList)) (x p : ℕ)
      → p < s.size
      → s.nodes.key p ≡ key
      → Returns (Placed x) (insert_found again p x s)
  unfolding insert_found
  insert_found-Placed again x p live at =
      rw
        (
          v.linked.unmarked p live,
          v.linked.is_linked p live (omega (arith, bounded_below)) (omega (arith, v.greatest)),
        )
        (revive_loop-Placed x p live at)

  -- Of the places of an absent key, those of the lowest levels.
  module _ (r : Places) (a : ArePlaced s key 0 (max_level + 1) r) (absent : IsAbsent (shape s) key)
      (top : ℕ) (low_top : top ≤ max_level) where
    between : (l : ℕ) → l ≤ top → Between (shape s) key l (r.preds l) (r.succs l)
    between l le = a.between l (omega arith) (omega arith)

    AreHeld-start : AreHeld s v.linked key top bounded_above r between 0 s.nodes.lock
    AreHeld-start = record {
      held = λ p live. inl (v.free p live);
      free = λ p live lt. v.free p live;
    }

    -- After the new node is linked, the locks that are held are to be given back.
    AreOwed-linked :
        (lock : ℕ → Bool)
        → AreHeld s v.linked key top bounded_above r between (top + 1) lock
        → AreOwed (s.size + 1) r 0 (top + 1) (upd lock s.size false)
    AreOwed-linked lock h = record {
      owed = λ p live. elim (Bool-cases (p == s.size)) [
        | inl e ↦ inl (upd-same lock s.size false p (==→eq p s.size e))
        | inr n ↦
            let old = ==→ne p s.size n in
            let off = upd-other lock s.size false p old in
            elim (h.held p (omega arith)) [
              | inl free ↦ inl (off ∙ free)
              | inr (j, lt, at) ↦ inr (j, omega arith, lt, at)
            ]
      ];
      given = λ j e. absurd (omega arith);
    }

    linked-Placed :
        (x : ℕ) (lock : ℕ → Bool)
        → AreHeld s v.linked key top bounded_above r between (top + 1) lock
        → Placed x (null, unlock_levels (top + 1) 0 r (link_node top key x r (with_locks s lock)))
    unfolding create_node
    linked-Placed x lock h =
        let s₁ = with_locks s lock in
        let e = absent_here absent in
        let (link, el, sp) = link_node-AreSpliced top key x r s₁ (λ l le. (between l le).live) in
        let s₂ = with_node top key x link s₁ in
        let (lock', eu, free) =
          unlock_levels-free (top + 1) 0 (top + 1) r s₂ (upd lock s.size false) (omega arith)
            (AreOwed-linked lock h) in
        (
          ap (value_or null) (sym e),
          subst
              (λ o.
                Serves low high d (upd m key (inserted_entry d x o))
                  (unlock_levels (top + 1) 0 r (link_node top key x r s₁)))
              (sym e)
              (subst (Serves low high d (upd m key (some x)))
                (sym (ap (unlock_levels (top + 1) 0 r) el ∙ eu))
                (Serves-with_node low high d m s top key x r.preds r.succs link lock' v low_top
                  between absent sp above free)),
        )

    insert_absent-Placed :
        (again : SkipList → Run (ℕ × SkipList)) (x : ℕ)
        → Returns (Placed x) (insert_absent again top key x r s)
    unfolding insert_absent
    insert_absent-Placed again x =
        Returns-bind
          (lock_levels-AreHeld s v.linked key top bounded_above r between (top + 1) 0 (top + 1)
            s.nodes.lock (omega arith) (omega arith) AreHeld-start)
          λ (valid, locked, s₁) (ev, el, (lock, es, h)).
            rw (ev, el, es) (returns (linked-Placed x lock h))

  pub insert_loop-Placed :
      (x top : ℕ) → top ≤ max_level → Returns (Placed x) (insert_loop 1 top key x s)
  unfolding insert_loop
  insert_loop-Placed x top low_top =
      Returns-bind (find_all-ArePlaced key s v.linked bounded_below bounded_above) λ r a.
        elim (Option-cases r.flevel) [
          | inl miss ↦
              let absent =
                Between-IsAbsent (shape s) key (r.preds 0) (r.succs 0)
                  (a.between 0 (omega arith) (omega arith))
                  (a.missed miss 0 (omega arith) (omega arith)) in
              rw miss (insert_absent-Placed r a absent top low_top (insert_loop 0 top key x) x)
          | inr (f, hit) ↦
              let (lo, hi, k, w) = a.hit f hit in
              rw hit (
                insert_found-Placed (insert_loop 0 top key x) x (r.succs f)
                  (a.between f lo hi).follows.live k)
        ]

-- The highest level in use may grow, to that of the new node.
raise_max-done :
    (top : ℕ) (s : SkipList)
    → s.real_max_lvl ≤ max_level
    → top ≤ max_level
    → (max : ℕ) × (max ≤ max_level) × (raise_max 1 top s ≡ done (record s { real_max_lvl = max }))
unfolding raise_max
raise_max-done top s le lt = elim (Bool-cases (leb top s.real_max_lvl)) [
  | inl e ↦ (s.real_max_lvl, le, rw e refl)
  | inr e ↦ (top, lt, rw (e, ==_self s.real_max_lvl) refl)
]

-- On a list that serves as the map `m` between the keys `low` and `high`, `insertIfAbsent` of a key
-- between them returns, with no lock held at the end: it returns the value of the entry, or NULL if there
-- is none, and the list serves as the map in which an absent key, or an entry with `noValue`, gets the value.
pub insert_if_absent-Inserted :
    (low high d : ℕ) (m : ℕ → Option ℕ) (s : SkipList) (v : Serves low high d m s) (key : ℕ)
    (above : low < key) (below : key < high) (tid x : ℕ)
    → Returns
        (λ (y, s').
          (y ≡ value_or null (m key))
          × Serves low high d (upd m key (inserted_entry d x (m key))) s')
        (insert_if_absent tid key x s)
unfolding insert_if_absent
insert_if_absent-Inserted low high d m s v key above below tid x =
    let top = (gen_random (s.seed tid)).0 in
    let seeds = upd s.seed tid (gen_random (s.seed tid)).1 in
    let small : top ≤ max_level = omega (arith, gen_random-lt (s.seed tid)) in
    let (max, le, e) = raise_max-done top (record s { seed = seeds }) v.reach small in
    let v' = Serves-tuned low high d m s s.sum_lengths seeds max le v in
    rw e (
      insert_loop-Placed low high d m (record s { seed = seeds; real_max_lvl = max }) v' key above
        below x top small)
