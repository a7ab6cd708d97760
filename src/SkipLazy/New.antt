-- ===== src/SkipLazy/New.antt =====
-- The constructor: `head` and `tail`, linked at every level, and nothing between them.
use mathlib.Core.Path.{subst}
use splaylist.Base.{
  ℕ, zero, suc, ◌+◌, ◌-◌, ◌≤◌, ◌<◌, ◌≡◌, ◌∙◌, refl, ap, sym, Option, none, some, arith, ◌==◌, ltb,
  if◌then◌else◌, Bool-cases, inl, inr, ◌⊎◌,
}
use splaylist.SkipLazy.State.{SkipList, Nodes, max_level, head, tail, stored, create_node, set_next}
use splaylist.SkipLazy.Ops.{link_ends, new_list}
use splaylist.SkipLazy.Shape.Splice.{with_links}
use splaylist.SkipLazy.Serves.{Serves}

link_ends-links :
    (n i : ℕ) (s : SkipList)
    → (link : ℕ → ℕ → Option ℕ) × (link_ends n i s ≡ with_links s link)
      × ((l : ℕ) → l < i → link head l ≡ s.nodes.next head l)
      × ((l : ℕ) → i ≤ l → l < i + n → link head l ≡ some tail)
unfolding link_ends
link_ends-links zero i s = (s.nodes.next, refl, (λ l lt. refl), λ l le lt. absurd (omega arith))
link_ends-links (suc n) i s =
    let s₁ = set_next tail i none (set_next head i (some tail) s) in
    let (link, e, old, new) = link_ends-links n (i + 1) s₁ in
    (
      link,
      e,
      (λ l lt. old l (omega arith) ∙ ground arith),
      λ l le lt. elim (Bool-cases (l == i)) [
        | inl here ↦ old l (ground arith) ∙ ground arith
        | inr further ↦ new l (ground arith) (omega arith)
      ],
    )

module _ (num_threads no_value min_key max_key : ℕ) (lengths seeds : ℕ → ℕ) (empty : Nodes)
    (wide : min_key ≤ max_key) where
  -- The list before the links are written.
  abbrev bare : SkipList
  unfolding create_node
  bare = create_node max_level (stored max_key + 1) 0 (
      create_node max_level (stored min_key - 1) 0 (record {
        nodes = empty;
        size = 0;
        real_max_lvl = 1;
        sum_lengths = λ i. if ltb i num_threads then 0 else lengths i;
        seed = λ i. if ltb i num_threads then i + 1 else seeds i;
        no_value = no_value;
      }))

  ends : (p : ℕ) → p < 2 → (p ≡ head) ⊎ (p ≡ tail)
  ends p lt = omega arith

  bare-Serves :
      (link : ℕ → ℕ → Option ℕ)
      → ((l : ℕ) → l < max_level + 1 → link head l ≡ some tail)
      → Serves (stored min_key - 1) (stored max_key + 1) no_value (λ k. none) (with_links bare link)
  unfolding create_node
  bare-Serves link ln = record {
    linked = record {
      sized = omega arith;
      head_top = refl;
      tail_top = refl;
      keys = λ p q lp lq e. ground arith;
      above_head = λ p live. ground arith;
      below_tail = λ p live. ground arith;
      unmarked = λ p live. ground arith;
      is_linked = λ p live low high. absurd (ground arith);
      links = λ p h live lt le. elim (ends p live) [
        | inl e ↦ (
          tail,
          ap (λ x. link x h) e ∙ ln h (ground arith),
          record {
            live = omega arith;
            above = ground arith;
            reaches = ground arith;
            least = λ r lr over top. ground arith;
          },
        )
        | inr e ↦ absurd (ground arith)
      ];
    };
    free = λ p live. ground arith;
    models = record {
      held = λ q live low high. absurd (ground arith);
      missing = λ k low high a. refl;
    };
    reach = omega arith;
    least = refl;
    greatest = refl;
    default = refl;
  }

  -- A new list serves as the empty map, between a key below the smallest and one above the greatest.
  pub new_list-Serves :
      Serves
        (stored min_key - 1)
        (stored max_key + 1)
        no_value
        (λ k. none)
        (new_list num_threads no_value min_key max_key lengths seeds empty)
  unfolding new_list create_node
  new_list-Serves =
      let (link, e, old, ln) = link_ends-links (max_level + 1) 0 bare in
      subst (Serves (stored min_key - 1) (stored max_key + 1) no_value (λ k. none)) (sym e)
        (bare-Serves link λ l lt. ln l (omega arith) (omega arith))
