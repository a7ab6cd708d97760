-- ===== src/SkipLazy/Shape/Places.antt =====
-- The private `find`: the places of the key at every level.
use mathlib.Core.Path.{subst}
use splaylist.Base.{
  ℕ, zero, suc, ◌+◌, ◌≤◌, ◌<◌, ◌≡◌, ◌≢◌, ◌∙◌, refl, ap, sym, Bool, true, false, Option, none, some,
  arith, ◌==◌, if◌then◌else◌, Bool-cases, inl, inr, ==→eq, ==→ne, ◌&&◌, ◌⊎◌,
}
use splaylist.Base.Memory.{upd-same, upd-other}
use splaylist.Base.Run.{Returns, returns, Returns-bind}
use splaylist.SkipLazy.State.{SkipList, max_level, head, tail}
use splaylist.SkipLazy.Search.{Places, place, no_places, find_levels, find_max, find_all}
use splaylist.SkipLazy.Shape.{shape, IsLinked, Between}
use splaylist.SkipLazy.Shape.Walk.{walk-Between}

-- The levels from `from` to below `to` are done.
pub record ArePlaced (s : SkipList) (key from to : ℕ) (r : Places) : Type 0 where
  pub between : (l : ℕ) → from ≤ l → l < to → Between (shape s) key l (r.preds l) (r.succs l)
  pub missed : r.flevel ≡ none → (l : ℕ) → from ≤ l → l < to → s.nodes.key (r.succs l) ≢ key
  pub hit :
      (f : ℕ)
      → r.flevel ≡ some f
      → (from ≤ f)
        × (f < to)
        × (s.nodes.key (r.succs f) ≡ key)
        × (r.val ≡ s.nodes.value (r.succs f))

-- `flevel` is set at the first level at which the key is found.
unset_none :
    (t : Bool) (o : Option ℕ) (l : ℕ)
    → (if t && (elim o [ none ↦ true | some f ↦ false ]) then some l else o) ≡ none
    → (o ≡ none) × (t ≡ false)
unset_none true none l e = absurd cc
unset_none false none l e = (refl, refl)
unset_none true (some f) l e = absurd cc
unset_none false (some f) l e = absurd cc

set_some :
    (t : Bool) (o : Option ℕ) (l f x y : ℕ)
    → (if t && (elim o [ none ↦ true | some f ↦ false ]) then some l else o) ≡ some f
    → ((f ≡ l)
        × (t ≡ true)
        × ((if t && (elim o [ none ↦ true | some f ↦ false ]) then x else y) ≡ x))
      ⊎ ((o ≡ some f) × ((if t && (elim o [ none ↦ true | some f ↦ false ]) then x else y) ≡ y))
set_some true none l f x y e = inl (cc, refl, refl)
set_some false none l f x y e = inr (e, refl)
set_some true (some g) l f x y e = inr (e, refl)
set_some false (some g) l f x y e = inr (e, refl)

ArePlaced-place :
    (s : SkipList) (key level to pred curr : ℕ) (r : Places)
    → ArePlaced s key (suc level) to r
    → level < to
    → Between (shape s) key level pred curr
    → ArePlaced s key level to (place key level pred curr r s)
ArePlaced-place s key level to pred curr r a lt b = record {
  between = λ l low high. elim (Bool-cases (l == level)) [
    | inl e ↦ rw e (subst (λ h. Between (shape s) key h pred curr) (sym (==→eq l level e)) b)
    | inr n ↦ rw n (a.between l (omega (arith, ==→ne l level n)) high)
  ];
  missed = λ m l low high same.
      let (unset, other) = unset_none (key == s.nodes.key curr) r.flevel level m in
      elim (Bool-cases (l == level)) [
        | inl e ↦
            ==→ne key (s.nodes.key curr) other
              (sym same ∙ ap s.nodes.key (upd-same r.succs level curr l (==→eq l level e)))
        | inr n ↦
            let k = ==→ne l level n in
            a.missed unset l (omega arith) high
              (ap s.nodes.key (sym (upd-other r.succs level curr l k)) ∙ same)
      ];
  hit = λ f e.
      elim (set_some (key == s.nodes.key curr) r.flevel level f (s.nodes.value curr) r.val e) [
        | inl (at, same, v) ↦
            let c = upd-same r.succs level curr f at in
            (
              omega arith,
              omega arith,
              ap s.nodes.key c ∙ sym (==→eq key (s.nodes.key curr) same),
              v ∙ ap s.nodes.value (sym c),
            )
        | inr (old, v) ↦
            let (low, high, k, w) = a.hit f old in
            let c = upd-other r.succs level curr f (λ q. absurd (omega arith)) in
            (omega arith, high, ap s.nodes.key c ∙ k, v ∙ w ∙ ap s.nodes.value (sym c))
      ];
}

find_levels-ArePlaced :
    (n key pred to : ℕ) (r : Places) (s : SkipList)
    → IsLinked (shape s)
    → key ≤ s.nodes.key tail
    → pred < s.size
    → s.nodes.key pred < key
    → n ≤ suc (s.nodes.top_level pred)
    → n ≤ to
    → ArePlaced s key n to r
    → Returns (ArePlaced s key 0 to) (find_levels n key pred r s)
unfolding find_levels
find_levels-ArePlaced zero key pred to r s linked below live lt wide le a = returns a
find_levels-ArePlaced (suc level) key pred to r s linked below live lt wide le a =
    Returns-bind
      (walk-Between s linked key below (key + 1) level pred pred live (omega arith) (inl lt)
        (omega arith) (omega arith))
      λ (p, c) b.
        find_levels-ArePlaced level key p to (place key level p c r s) s linked below b.live
          b.before (omega (arith, b.wide)) (omega arith)
          (ArePlaced-place s key level to p c r a le b)

-- `find` returns; it stops around the key at every level, and `flevel` is a level at which it stops
-- at the key, or none.
pub find_all-ArePlaced :
    (key : ℕ) (s : SkipList)
    → IsLinked (shape s)
    → s.nodes.key head < key
    → key ≤ s.nodes.key tail
    → Returns (ArePlaced s key 0 (max_level + 1)) (find_all key s)
unfolding find_all find_max
find_all-ArePlaced key s linked above below =
    find_levels-ArePlaced (max_level + 1) key head (max_level + 1) no_places s linked below
      (omega (arith, linked.sized)) above (omega (arith, linked.head_top)) (omega arith)
      (record {
        between = λ l low high. absurd (omega arith);
        missed = λ m l low high. absurd (omega arith);
        hit = λ f e. absurd cc;
      })
