-- ===== src/FlexSeq/New.antt =====
-- The constructor of the list: `head` and `tail` are linked, and there is nothing between them.
use mathlib.Core.Path.{subst}
use splaylist.Base.{
  ℕ, ◌-◌, ◌≤◌, ◌<◌, ◌≡◌, refl, ap, some, arith, inl, inr, ◌==◌, Bool-cases, ==→eq, ==→ne, ◌≢◌, ◌∙◌,
}
use splaylist.FlexSeq.State.{Node, max_level, head, tail, create_node, set_next}
use splaylist.FlexSeq.Ops.{build_list, new_list}
use splaylist.FlexSeq.View.{View, view, HasLevels, StandsFor, Follows, IsLinked}

module _ {ℓ} {V : Type ℓ} (highest update_num : ℕ) (no_value zero_value : V) (min_key max_key : ℕ)
    (empty : ℕ → Node V) where
  -- The view of a list with `highest` levels.
  abbrev pub built_view : View V
  built_view = view (build_list highest update_num no_value zero_value min_key max_key empty)

  new_levels : HasLevels (build_list highest update_num no_value zero_value min_key max_key empty)
  unfolding build_list create_node set_next
  new_levels p live = elim (Bool-cases (p == head)) [ inl e ↦ ground arith | inr n ↦ ground arith ]

  pub build_list-StandsFor :
      StandsFor built_view (build_list highest update_num no_value zero_value min_key max_key empty)
  unfolding build_list create_node set_next
  build_list-StandsFor = record { shown = refl; levels = new_levels }

  link_new : (h : ℕ) → highest - 1 ≤ h → h ≤ highest → built_view.link head h ≡ some tail
  unfolding build_list create_node set_next
  link_new h low high = ground arith

  pub key_built : (p : ℕ) → p < built_view.size → p ≢ head → p ≡ tail
  unfolding build_list create_node set_next
  key_built p live n = omega arith

  Follows-new : (p h : ℕ) → p ≡ head → min_key < max_key → h ≤ highest → Follows built_view h p tail
  unfolding build_list create_node set_next
  Follows-new p h e lt to = record {
    live = omega arith;
    above = ground arith;
    reaches = to;
    least = λ r live over top. ground arith;
  }

  links_new :
      (p h : ℕ)
      → p < built_view.size
      → built_view.key p < built_view.key tail
      → built_view.zero_level ≤ h
      → h ≤ built_view.top p
      → min_key < max_key
      → (q : ℕ) × (built_view.link p h ≡ some q) × Follows built_view h p q
  unfolding build_list create_node set_next
  links_new p h live low from to lt = elim (Bool-cases (p == head)) [
    | inl e ↦
        let at = ==→eq p head e in
        let high : h ≤ highest = ground arith in
        (tail, ap (λ r. built_view.link r h) at ∙ link_new h from high, Follows-new p h at lt high)
    | inr n ↦ absurd (
        omega
          (arith, subst (λ r. built_view.key r < max_key) (key_built p live (==→ne p head n)) low))
  ]

  pub built_view-IsLinked : 0 < highest → min_key < max_key → IsLinked built_view
  unfolding build_list create_node set_next
  built_view-IsLinked pos lt = record {
    sized = omega arith;
    shallow = omega arith;
    head_top = refl;
    tail_top = refl;
    low = λ p live. ground arith;
    keys = λ p q lp lq e. ground arith;
    above_head = λ p live. ground arith;
    below_tail = λ p live. ground arith;
    links = λ p h live low from to. links_new p h live low from to lt;
  }

module _ {ℓ} {V : Type ℓ} (no_value zero_value : V) (min_key max_key : ℕ) (empty : ℕ → Node V) where
  -- The view of the new list.
  abbrev pub new_view : View V
  new_view = view (new_list no_value zero_value min_key max_key empty)

  pub new_list-StandsFor : StandsFor new_view (new_list no_value zero_value min_key max_key empty)
  unfolding new_list
  new_list-StandsFor = build_list-StandsFor max_level 1 no_value zero_value min_key max_key empty

  pub new_view-IsLinked : min_key < max_key → IsLinked new_view
  unfolding new_list
  new_view-IsLinked lt =
      built_view-IsLinked max_level 1 no_value zero_value min_key max_key empty (omega arith) lt
