-- ===== src/FlexSeq/Calls.antt =====
-- The look-ups of the list, with the update that follows a successful one.
use splaylist.Base.{
  ◌⊎◌, inl, inr, ℕ, ◌+◌, ◌≤◌, ◌<◌, ◌≡◌, ◌≢◌, ◌∙◌, ap, Bool, true, false, Option, none, some, arith,
  ◌==◌,
}
use splaylist.Base.Run.{
  Ensures, ensures, Ensures-bind, Ensures-bind_Returns, Ensures-if, Returns, returns,
}
use splaylist.FlexSeq.State.{FlexList, head, tail}
use splaylist.FlexSeq.Ops.{count_update, contains, qfind, value_at}
use splaylist.FlexSeq.View.{View, StandsFor, IsLinked}
use splaylist.FlexSeq.View.Updating.{Updated, update-Updated, Updated-refl}
use splaylist.FlexSeq.Laws.{find-Answered}

module _ {ℓ} {V : Type ℓ} (v : View V) (linked : IsLinked v) (key : ℕ) (above : v.key head < key)
    (below : key < v.key tail) where
  at_most : key ≤ v.key tail
  at_most = omega (arith, below)

  count_update-Updated : (s : FlexList V) → StandsFor v s → Ensures (Updated v) (count_update key s)
  unfolding count_update
  count_update-Updated s st =
      let s₁ = record s { update_counter = s.update_counter + 1 } in
      let st₁ : StandsFor v s₁ = record { shown = st.shown; levels = st.levels } in
      Ensures-if (s₁.update_counter == s₁.update_num)
        (λ due.
          Ensures-bind (update-Updated v key s₁ linked st₁ (omega (arith, above)) below) λ s₂ u.
            ensures (record {
              after = u.after;
              same = u.same;
              linked = u.linked;
              stands = record { shown = u.stands.shown; levels = u.stands.levels };
            }))
        λ skip. ensures (Updated-refl v s₁ linked st₁)

  -- The answer of a look-up, and what the list stands for afterwards.
  abbrev pub Contained : Bool × FlexList V → Type ℓ
  Contained (found, s) =
      Updated v s
      × (found ≡ true → (q : ℕ) × (q < v.size) × (v.key q ≡ key))
      × (found ≡ false → (r : ℕ) → r < v.size → v.key r ≢ key)

  -- On a list that stands for a linked view, `contains` of a key between those of `head` and `tail`
  -- answers whether a node has the key, and returns a list that stands for a linked view with the same
  -- contents, unless the list would need a level below 0.
  pub contains-Contained : (s : FlexList V) → StandsFor v s → Ensures Contained (contains key s)
  unfolding contains
  contains-Contained s st =
      Ensures-bind_Returns (find-Answered v linked key at_most s st above)
        λ (found, pred, succ, s₁) a.
          Ensures-if found
            (λ hit.
              Ensures-bind (count_update-Updated s₁ a.stands)
                λ s₂ u. ensures (u, (λ e. (a.node, a.live, a.present hit)), λ e. absurd cc))
            λ miss.
              ensures (Updated-refl v s₁ linked a.stands, (λ e. absurd cc), λ e. a.absent miss)

  -- What `qfind` returns: the value of the node with the key, or `no_value` if there is none.
  abbrev pub Fetched : V × FlexList V → Type ℓ
  Fetched (x, s) =
      Updated v s
      × (((q : ℕ) × (q < v.size) × (v.key q ≡ key) × (x ≡ v.value q))
          ⊎ (((r : ℕ) → r < v.size → v.key r ≢ key) × (x ≡ v.no_value)))

  value_at-Returns :
      (s : FlexList V) (o : Option ℕ) (q : ℕ)
      → StandsFor v s
      → o ≡ some q
      → Returns (λ x. x ≡ v.value q) (value_at o s)
  value_at-Returns s none q st e = absurd cc
  value_at-Returns s (some r) q st e =
      let same : r ≡ q = cc in returns (ap (λ (w : View V). w.value r) st.shown ∙ ap v.value same)

  -- On a list that stands for a linked view, `qfind` of a key between those of `head` and `tail`
  -- returns the value of the node that has it, or the list's `no_value` if no node has it, and a list
  -- that stands for a linked view with the same contents, unless the list would need a level below 0.
  pub qfind-Fetched : (s : FlexList V) → StandsFor v s → Ensures Fetched (qfind key s)
  unfolding qfind
  qfind-Fetched s st =
      Ensures-bind_Returns (find-Answered v linked key at_most s st above)
        λ (found, pred, succ, s₁) a.
          Ensures-if found
            (λ hit. Ensures-bind_Returns (value_at-Returns s₁ succ a.node a.stands a.at) λ x at.
              Ensures-bind (count_update-Updated s₁ a.stands)
                λ s₂ u. ensures (u, inl (a.node, a.live, a.present hit, at)))
            λ miss. ensures (
              Updated-refl v s₁ linked a.stands,
              inr (a.absent miss, ap (λ (w : View V). w.no_value) a.stands.shown),
            )
