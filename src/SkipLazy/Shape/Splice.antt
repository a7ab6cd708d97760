-- ===== src/SkipLazy/Shape/Splice.antt =====
-- The writes that link a new node.
use splaylist.Base.{
  ℕ, zero, suc, ◌+◌, ◌≤◌, ◌<◌, ◌≡◌, ◌≢◌, ◌∙◌, refl, ap, Bool, true, false, Option, some, arith,
  ◌==◌, ltb, leb, if◌then◌else◌, Bool-cases, inl, inr, ==→eq, ◌&&◌,
}
use splaylist.SkipLazy.State.{SkipList, set_next, create_node}
use splaylist.SkipLazy.Search.{Places}
use splaylist.SkipLazy.Change.{fill_next, link_preds, link_node, set_fully_linked}
use splaylist.SkipLazy.Shape.{shape}
use splaylist.SkipLazy.Shape.Inserted.{AreSpliced}

-- The list with other links.
abbrev pub with_links : SkipList → (ℕ → ℕ → Option ℕ) → SkipList
with_links s link = record s { nodes = record (s.nodes) { next = link } }

-- One link written.
next-set_next :
    (p h q l : ℕ) (o : Option ℕ) (s : SkipList)
    → (set_next p h o s).nodes.next q l ≡ (if (q == p) && (l == h) then o else s.nodes.next q l)
next-set_next p h q l o s = elim (Bool-cases (q == p)) [
  | inl e ↦ rw (e, ==→eq q p e) (ground arith)
  | inr n ↦ rw n refl
]

-- The levels from `level` on, `n` of them.
abbrev is_within : ℕ → ℕ → ℕ → Bool
is_within level n l = leb level l && ltb l (level + n)

-- The links that a loop writes: those of the node `at l` at each level `l` of the loop get `o l`.
abbrev Writes : ℕ → ℕ → (ℕ → ℕ) → (ℕ → Option ℕ) → SkipList → (ℕ → ℕ → Option ℕ) → Type 0
Writes level n at o s link =
    (q l : ℕ) → link q l ≡ (if is_within level n l && (q == at l) then o l else s.nodes.next q l)

Writes-step :
    (level n : ℕ) (at : ℕ → ℕ) (o : ℕ → Option ℕ) (s : SkipList) (link : ℕ → ℕ → Option ℕ)
    → Writes (level + 1) n at o (set_next (at level) level (o level) s) link
    → Writes level (suc n) at o s link
Writes-step level n at o s link h q l = elim (Bool-cases (l == level)) [
  | inl e ↦
      let same = ==→eq l level e in
      let low : is_within (level + 1) n l ≡ false = ground arith in
      let high : is_within level (suc n) l ≡ true = ground arith in
      h q l
      ∙ rw (low, high) (next-set_next (at level) level q l (o level) s ∙ rw same (ground arith))
  | inr k ↦
      let same : is_within (level + 1) n l ≡ is_within level (suc n) l = ground arith in
      let old : (set_next (at level) level (o level) s).nodes.next q l ≡ s.nodes.next q l =
        next-set_next (at level) level q l (o level) s ∙ ground arith in
      h q l
      ∙ ap (λ x. if is_within (level + 1) n l && (q == at l) then o l else x) old
      ∙ ap (λ b. if b && (q == at l) then o l else s.nodes.next q l) same
]

-- The loop ends in a list with other links.
abbrev Written : ℕ → ℕ → (ℕ → ℕ) → (ℕ → Option ℕ) → SkipList → SkipList → Type 0
Written level n at o s s' =
    (link : ℕ → ℕ → Option ℕ) × (s' ≡ with_links s link) × Writes level n at o s link

fill_next-Written :
    (n level p : ℕ) (r : Places) (s : SkipList)
    → Written level n (λ l. p) (λ l. some (r.succs l)) s (fill_next n level p r s)
unfolding fill_next
fill_next-Written zero level p r s = (s.nodes.next, refl, λ q l. ground arith)
fill_next-Written (suc n) level p r s =
    let (link, e, h) =
      fill_next-Written n (level + 1) p r (set_next p level (some (r.succs level)) s) in
    (link, e, Writes-step level n (λ l. p) (λ l. some (r.succs l)) s link h)

link_preds-Written :
    (n level p : ℕ) (r : Places) (s : SkipList)
    → Written level n r.preds (λ l. some p) s (link_preds n level p r s)
unfolding link_preds
link_preds-Written zero level p r s = (s.nodes.next, refl, λ q l. ground arith)
link_preds-Written (suc n) level p r s =
    let (link, e, h) =
      link_preds-Written n (level + 1) p r (set_next (r.preds level) level (some p) s) in
    (link, e, Writes-step level n r.preds (λ l. some p) s link h)

-- The list with the new node, and the links `link`.
abbrev pub with_node : ℕ → ℕ → ℕ → (ℕ → ℕ → Option ℕ) → SkipList → SkipList
unfolding create_node
with_node top key value link s =
    set_fully_linked s.size (with_links (create_node top key value s) link)

pub link_node-AreSpliced :
    (top key value : ℕ) (r : Places) (s : SkipList)
    → ((l : ℕ) → l ≤ top → r.preds l < s.size)
    → (link : ℕ → ℕ → Option ℕ) × (link_node top key value r s ≡ with_node top key value link s)
      × AreSpliced (shape s) top r.preds r.succs link
unfolding link_node create_node
link_node-AreSpliced top key value r s live =
    let s₁ = create_node top key value s in
    let (link₁, e₁, h₁) = fill_next-Written (top + 1) 0 s.size r s₁ in
    let (link₂, e₂, h₂) = link_preds-Written (top + 1) 0 s.size r (with_links s₁ link₁) in
    (
      link₂,
      ap (λ t. set_fully_linked s.size (link_preds (top + 1) 0 s.size r t)) e₁
          ∙ ap (set_fully_linked s.size) e₂,
      record {
        to_new = λ l le. h₂ (r.preds l) l ∙ ground arith;
        from_new = λ l le.
            let other : s.size ≢ r.preds l = λ e. absurd (omega (arith, live l le)) in
            h₂ s.size l ∙ ground (arith, h₁ s.size l);
        kept = λ p l old off. h₂ p l ∙ ground (arith, h₁ p l);
      },
    )
