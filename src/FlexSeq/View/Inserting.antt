-- ===== src/FlexSeq/View/Inserting.antt =====
-- The writes of `insertIfAbsent` that link a new node.
use Prim.Native.Nat.{max}
use splaylist.Base.{
  ℕ, ◌+◌, ◌≤◌, ◌<◌, ◌≡◌, ◌≢◌, ◌∙◌, refl, ap, sym, Bool, true, false, Option, none, some, arith,
  ◌==◌, leb, if◌then◌else◌, Bool-cases, inl, inr, ==→eq, ==→ne, ==_self, ne→==,
}
use splaylist.FlexSeq.State.{FlexList, upd, create_node, set_next}
use splaylist.FlexSeq.View.{View, view, link_of, HasLevels, StandsFor, View-ext}
use splaylist.FlexSeq.View.Moves.{value-set_next}
use splaylist.FlexSeq.View.Inserted.{inserted}
use splaylist.FlexSeq.View.Steps.{zero_shown, size_shown, highest_shown}

level_at : (l z b : ℕ) → z ≡ b → (max l z == b) ≡ leb l b
level_at l z b e = elim (Bool-cases (leb l b)) [
  | inl le ↦
      let low : l ≤ b = ground arith in
      let at : max l z ≡ b = omega arith in rw (le, at) (==_self b)
  | inr gt ↦
      let high : b < l = ground arith in
      let at : max l z ≢ b = λ same. absurd (omega arith) in rw gt (ne→== (max l z) b at)
]

-- The link of an old node, read at its own zero level.
low_link :
    (l z b : ℕ) (p_pred : Bool) (x : Option ℕ) (next : ℕ → Option ℕ)
    → (p_pred ≡ true → z ≡ b)
    → (if max l z == b then (if p_pred then x else next (max l z)) else next (max l z))
      ≡ (if leb l b then (if p_pred then x else next (max l z)) else next (max l z))
low_link l z b true x next f =
    let at : (max l z == b) ≡ leb l b = level_at l z b (f refl) in rw at refl
low_link l z b false x next f = ground arith

module _ {ℓ} {V : Type ℓ} where
  -- The list with the new node between `pred` and `succ`.
  abbrev pub with_node : ℕ → ℕ → ℕ → V → FlexList V → FlexList V
  with_node pred succ key value s =
      let z = (s.nodes pred).zero_level in
      set_next pred z (some s.size) (set_next s.size z (some succ) (create_node z key value s))

  size-with_node :
      (pred succ key : ℕ) (value : V) (s : FlexList V)
      → ((with_node pred succ key value s).size ≡ s.size + 1)
        × ((with_node pred succ key value s).highest ≡ s.highest)
        × ((with_node pred succ key value s).zero_level ≡ s.zero_level)
        × ((with_node pred succ key value s).no_value ≡ s.no_value)
  unfolding create_node set_next
  size-with_node pred succ key value s = (refl, refl, refl, refl)

  value-create_node :
      (z key : ℕ) (value : V) (s : FlexList V) (p : ℕ)
      → ((create_node z key value s).nodes p).value ≡ upd (λ q. (s.nodes q).value) s.size value p
  unfolding create_node
  value-create_node z key value s p = elim (Bool-cases (p == s.size)) [
    | inl e ↦ rw e refl
    | inr n ↦ rw n refl
  ]

  zero-with_node :
      (pred succ key : ℕ) (value : V) (s : FlexList V) (p : ℕ)
      → pred < s.size
      → ((with_node pred succ key value s).nodes p).zero_level
        ≡ (if p == s.size then (s.nodes pred).zero_level else (s.nodes p).zero_level)
  unfolding create_node set_next
  zero-with_node pred succ key value s p live = ground arith

  next-with_node :
      (pred succ key : ℕ) (value : V) (s : FlexList V) (p l : ℕ)
      → pred < s.size
      → ((with_node pred succ key value s).nodes p).next l ≡ (
          if l == (s.nodes pred).zero_level
          then (if p == pred
              then some s.size
              else if p == s.size
              then some succ
              else (s.nodes p).next l)
          else if p == s.size
          then none
          else (s.nodes p).next l)
  unfolding create_node set_next
  next-with_node pred succ key value s p l live = ground arith

  top-with_node :
      (pred succ key : ℕ) (value : V) (s : FlexList V) (p : ℕ)
      → pred < s.size
      → (s.nodes pred).zero_level ≡ s.zero_level
      → ((with_node pred succ key value s).nodes p).top_level
        ≡ upd (λ q. (s.nodes q).top_level) s.size s.zero_level p
  unfolding create_node set_next
  top-with_node pred succ key value s p live bottom = ground arith

  key-with_node :
      (pred succ key : ℕ) (value : V) (s : FlexList V) (p : ℕ)
      → pred < s.size
      → ((with_node pred succ key value s).nodes p).key ≡ upd (λ q. (s.nodes q).key) s.size key p
  unfolding create_node set_next
  key-with_node pred succ key value s p live = ground arith

  value-with_node :
      (pred succ key : ℕ) (value : V) (s : FlexList V) (p : ℕ)
      → ((with_node pred succ key value s).nodes p).value
        ≡ upd (λ q. (s.nodes q).value) s.size value p
  value-with_node pred succ key value s p =
      let z = (s.nodes pred).zero_level in
      let s₁ = create_node z key value s in
      value-set_next pred z (some s.size) (set_next s.size z (some succ) s₁) p
      ∙ value-set_next s.size z (some succ) s₁ p
      ∙ value-create_node z key value s p

  link-with_node :
      (pred succ key : ℕ) (value : V) (s : FlexList V)
      → HasLevels s
      → pred < s.size
      → (s.nodes pred).zero_level ≡ s.zero_level
      → (p l : ℕ)
      → link_of (with_node pred succ key value s) p l
        ≡ (inserted (view s) pred succ key value).link p l
  link-with_node pred succ key value s lv live bottom p l =
      let b = (s.nodes pred).zero_level in
      elim (Bool-cases (p == s.size)) [
        | inl e ↦
            let z' : ((with_node pred succ key value s).nodes p).zero_level ≡ b =
              ground (arith, zero-with_node pred succ key value s p live) in
            let at : (max l b == b) ≡ leb l b = level_at l b b refl in
            let other : (p == pred) ≡ false =
              ne→== p pred (λ same. absurd (omega (arith, ==→eq p s.size e))) in
            ap (λ z. ((with_node pred succ key value s).nodes p).next (max l z)) z'
            ∙ next-with_node pred succ key value s p (max l b) live
            ∙ rw (at, other, e, bottom) refl
        | inr n ↦
            let z' : ((with_node pred succ key value s).nodes p).zero_level
                ≡ (s.nodes p).zero_level =
              ground (arith, zero-with_node pred succ key value s p live) in
            let z = (s.nodes p).zero_level in
            ap (λ k. ((with_node pred succ key value s).nodes p).next (max l k)) z'
            ∙ next-with_node pred succ key value s p (max l z) live
            ∙ rw (n, sym bottom)
                (low_link l z b (p == pred) (some s.size) (s.nodes p).next
                  λ e. ap (λ r. (s.nodes r).zero_level) (==→eq p pred e))
      ]

  levels-with_node :
      (pred succ key : ℕ) (value : V) (s : FlexList V)
      → HasLevels s
      → pred < s.size
      → (s.nodes pred).zero_level ≡ s.zero_level
      → s.zero_level < s.highest
      → HasLevels (with_node pred succ key value s)
  levels-with_node pred succ key value s lv live bottom shallow p lp =
      let s' = with_node pred succ key value s in
      let z = zero-with_node pred succ key value s p live in
      let t = top-with_node pred succ key value s p live bottom in
      let (size, top, low, nothing) = size-with_node pred succ key value s in
      elim (Bool-cases (p == s.size)) [
        | inl e ↦
            let z' : (s'.nodes p).zero_level ≡ s.zero_level = ground arith in
            let t' : (s'.nodes p).top_level ≡ s.zero_level = ground arith in
            (omega arith, omega arith, omega arith)
        | inr n ↦
            let l = lv p (omega (arith, ==→ne p s.size n)) in
            let z' : (s'.nodes p).zero_level ≡ (s.nodes p).zero_level = ground arith in
            let t' : (s'.nodes p).top_level ≡ (s.nodes p).top_level = ground arith in
            (omega arith, omega arith, omega arith)
      ]

  pub with_node-StandsFor :
      (v : View V) (pred succ key : ℕ) (value : V) (s : FlexList V)
      → StandsFor v s
      → pred < v.size
      → (s.nodes pred).zero_level ≤ v.zero_level
      → v.zero_level < v.highest
      → StandsFor (inserted v pred succ key value) (with_node pred succ key value s)
  with_node-StandsFor v pred succ key value s st live low shallow =
      let n = size_shown v s st in
      let z = zero_shown v s st in
      let live' : pred < s.size = omega arith in
      let l = st.levels pred live' in
      let bottom : (s.nodes pred).zero_level ≡ s.zero_level = omega arith in
      let (size, top, lowest, nothing) = size-with_node pred succ key value s in
      record {
        shown =
            View-ext (view (with_node pred succ key value s))
              (inserted (view s) pred succ key value) size top lowest nothing
              (λ p. key-with_node pred succ key value s p live')
              (value-with_node pred succ key value s)
              (λ p. top-with_node pred succ key value s p live' bottom)
              (link-with_node pred succ key value s st.levels live' bottom)
            ∙ ap (λ (w : View V). inserted w pred succ key value) st.shown;
        levels =
            levels-with_node pred succ key value s st.levels live' bottom
              (omega (arith, highest_shown v s st));
      }
