-- ===== src/SkipLazy/Laws.antt =====
-- The operations but `insertIfAbsent`, on every branch, against a map from keys to values. A key that was erased stays in
-- the map with `noValue`.
use mathlib.Core.Path.{subst}
use splaylist.Base.{
  ℕ, ◌≤◌, ◌<◌, ◌≡◌, ◌∙◌, refl, ap, sym, Bool, true, false, Option, none, some, arith, ◌==◌,
  if◌then◌else◌, Bool-cases, Option-cases, inl, inr, ==→eq, ==_self,
}
use splaylist.Base.Memory.{upd, upd-id}
use splaylist.Base.Run.{Returns, returns, Returns-bind}
use splaylist.SkipLazy.State.{SkipList, null, head, tail, swap_value, set_value}
use splaylist.SkipLazy.Search.{contains, find, is_visible}
use splaylist.SkipLazy.Change.{erase_loop, erase}
use splaylist.SkipLazy.Shape.{shape, IsAbsent, Between-IsAbsent}
use splaylist.SkipLazy.Shape.Walk.{search-Searched, counting}
use splaylist.SkipLazy.Shape.Places.{find_all-ArePlaced}
use splaylist.SkipLazy.Serves.{Serves, Serves-with_values, Serves-same, Serves-tuned}

abbrev pub value_or : ℕ → Option ℕ → ℕ
value_or d none = d
value_or d (some x) = x

abbrev pub is_there : Option ℕ → Bool
is_there none = false
is_there (some x) = true

-- The entry after an insertion, and after an erasure.
abbrev pub inserted_entry : ℕ → ℕ → Option ℕ → Option ℕ
inserted_entry d x none = some x
inserted_entry d x (some v) = some (if v == d then x else v)

abbrev pub erased_entry : ℕ → Option ℕ → Option ℕ
erased_entry d none = none
erased_entry d (some v) = some d

module _ (low high d : ℕ) (m : ℕ → Option ℕ) (s : SkipList) (v : Serves low high d m s) (key : ℕ)
    (above : low < key) (below : key < high) where
  pub above_head : s.nodes.key head < key
  above_head = omega (arith, v.least)

  pub at_most : key ≤ s.nodes.key tail
  at_most = omega (arith, v.greatest)

  pub entry_present : (p : ℕ) → p < s.size → s.nodes.key p ≡ key → m key ≡ some (s.nodes.value p)
  entry_present p live at =
      ap m (sym at) ∙ v.models.held p live (omega (arith, above_head)) (omega (arith, v.greatest))

  pub entry_absent : IsAbsent (shape s) key → m key ≡ none
  entry_absent a = v.models.missing key above_head (omega (arith, v.greatest)) a

  visible : (p : ℕ) → p < s.size → s.nodes.key p ≡ key → is_visible p s ≡ true
  visible p live at =
      rw
        (
          v.linked.is_linked p live (omega (arith, above_head)) (omega (arith, v.greatest)),
          v.linked.unmarked p live,
        )
        refl

  counting-Serves : (l : ℕ → ℕ) → Serves low high d m (counting s l)
  counting-Serves l = Serves-tuned low high d m s l s.seed s.real_max_lvl v.reach v

  -- The answer of `contains`.
  abbrev pub Contained : Bool × SkipList → Type 0
  Contained (b, s') = (b ≡ is_there (m key)) × Serves low high d m s'

  -- `contains` returns whether the map has an entry for the key, also an erased one, and keeps it.
  pub contains-Contained : (tid : ℕ) → Returns Contained (contains tid key s)
  unfolding contains
  contains-Contained tid =
      Returns-bind (search-Searched tid key s.real_max_lvl s v.linked above_head at_most v.reach)
        λ (o, s') ((l, e), found). elim found [
          | inl (p, at, live, k) ↦
              rw (at, e)
                (returns (
                  visible p live k ∙ ap is_there (sym (entry_present p live k)),
                  counting-Serves l,
                ))
          | inr (at, absent) ↦
              rw (at, e) (returns (ap is_there (sym (entry_absent absent)), counting-Serves l))
        ]

  abbrev pub Fetched : ℕ × SkipList → Type 0
  Fetched (x, s') = (x ≡ value_or null (m key)) × Serves low high d m s'

  -- `find` returns the value of the entry, or NULL if there is none.
  pub find-Fetched : (tid : ℕ) → Returns Fetched (find tid key s)
  unfolding find
  find-Fetched tid =
      Returns-bind (search-Searched tid key s.real_max_lvl s v.linked above_head at_most v.reach)
        λ (o, s') ((l, e), found). elim found [
          | inl (p, at, live, k) ↦
              rw (at, e, visible p live k)
                (returns (ap (value_or null) (sym (entry_present p live k)), counting-Serves l))
          | inr (at, absent) ↦
              rw (at, e)
                (returns (ap (value_or null) (sym (entry_absent absent)), counting-Serves l))
        ]

  abbrev pub Erased : ℕ × SkipList → Type 0
  Erased (x, s') =
      (x ≡ value_or d (m key)) × Serves low high d (upd m key (erased_entry d (m key))) s'

  erase_loop-Erased :
      (p : ℕ)
      → p < s.size
      → s.nodes.key p ≡ key
      → Returns Erased (erase_loop 1 p (s.nodes.value p) s)
  unfolding erase_loop swap_value
  erase_loop-Erased p live at =
      let e = entry_present p live at in
      let reply = ap (value_or d) (sym e) in
      let entry : m key ≡ some (s.nodes.value p) → erased_entry d (m key) ≡ some d =
        λ h. ap (erased_entry d) h in
      elim (Bool-cases (s.nodes.value p == s.no_value)) [
        | inl empty ↦
            let is_d = ==→eq (s.nodes.value p) s.no_value empty ∙ v.default in
            rw empty (
              returns (
                reply,
                Serves-same low high d m (upd m key (erased_entry d (m key))) s
                    (upd-id m key (erased_entry d (m key))
                      (e ∙ ap (λ x. some x) is_d ∙ sym (entry e)))
                    v,
              ))
        | inr full ↦
            rw (full, ==_self (s.nodes.value p))
              (returns (
                reply,
                subst (λ o. Serves low high d (upd m key o) (set_value p s.no_value s))
                    (ap (λ x. some x) v.default ∙ sym (entry e))
                    (Serves-with_values low high d m s p key s.no_value
                      (upd s.nodes.value p s.no_value) v live at λ q. refl),
              ))
      ]

  -- `erase` returns the value of the entry, or `noValue` if there is none, and leaves `noValue` in the
  -- entry.
  pub erase-Erased : Returns Erased (erase key s)
  unfolding erase
  erase-Erased = Returns-bind (find_all-ArePlaced key s v.linked above_head at_most) λ r a.
      elim (Option-cases r.flevel) [
        | inl miss ↦
            let absent =
              Between-IsAbsent (shape s) key (r.preds 0) (r.succs 0)
                (a.between 0 (omega arith) (omega arith))
                (a.missed miss 0 (omega arith) (omega arith)) in
            let e = entry_absent absent in
            rw miss (
              returns (
                v.default ∙ ap (value_or d) (sym e),
                Serves-same low high d m (upd m key (erased_entry d (m key))) s
                    (upd-id m key (erased_entry d (m key)) (e ∙ ap (erased_entry d) (sym e))) v,
              ))
        | inr (f, hit) ↦
            let (lo, hi, k, w) = a.hit f hit in
            rw hit (erase_loop-Erased (r.succs f) (a.between f lo hi).follows.live k)
      ]
