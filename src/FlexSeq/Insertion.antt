-- ===== src/FlexSeq/Insertion.antt =====
-- `insertIfAbsent`: the search, the new node at the lowest level, and the update.
use mathlib.Core.Path.{subst}
use splaylist.Base.{
  ℕ, ◌+◌, ◌≤◌, ◌<◌, ◌≡◌, ◌≢◌, ◌∙◌, refl, ap, sym, Bool, true, false, Option, none, some, arith,
  ◌==◌, if◌then◌else◌, inl, inr, ==_self, ◌⊎◌,
}
use splaylist.Base.Run.{Run, done, Ensures, ensures, Ensures-bind, Ensures-bind_Returns, ◌>>=◌}
use splaylist.FlexSeq.State.{FlexList, head, tail, upd, create_node, set_next}
use splaylist.FlexSeq.Update.{links_to, update}
use splaylist.FlexSeq.Ops.{insert_loop, insert_if_absent, value_at}
use splaylist.FlexSeq.View.{View, StandsFor, IsLinked}
use splaylist.FlexSeq.View.Search.{Between, read_link}
use splaylist.FlexSeq.View.Inserted.{inserted, inserted-IsLinked, key_old}
use splaylist.FlexSeq.View.Inserting.{with_node, with_node-StandsFor}
use splaylist.FlexSeq.View.Steps.{size_shown, zero_shown}
use splaylist.FlexSeq.View.Updating.{Updated, update-Updated, Updated-refl}
use splaylist.FlexSeq.Laws.{Answer, find-Answered}

module _ {ℓ} {V : Type ℓ} where
  -- One more node with the key and the value.
  abbrev pub extended : View V → ℕ → V → View V
  extended v key value = record v {
    size = v.size + 1;
    key = upd v.key v.size key;
    value = upd v.value v.size value;
  }

  -- A search that ends between two nodes ends at a link.
  links_to-hit :
      (pred q z key : ℕ) (value : V) (s : FlexList V)
      → pred < s.size
      → (s.nodes pred).next z ≡ some q
      → links_to pred z q (set_next s.size z (some q) (create_node z key value s)) ≡ true
  unfolding create_node set_next
  links_to-hit pred q z key value s live e =
      let s' = set_next s.size z (some q) (create_node z key value s) in
      let kept : (s'.nodes pred).next z ≡ some q = ground (arith, e) in
      subst (λ o. (elim o [ none ↦ false | some r ↦ r == q ]) ≡ true) (sym kept) (==_self q)

module _ {ℓ} {V : Type ℓ} (v : View V) (linked : IsLinked v) (key : ℕ) (above : v.key head < key)
    (below : key < v.key tail) where
  at_most : key ≤ v.key tail
  at_most = omega (arith, below)

  -- What the insertion returns, and the list afterwards: a node has the key, and its value is returned
  -- and the contents stay; or no node has it, `no_value` is returned and there is one more node.
  abbrev pub Placed : V → V × FlexList V → Type ℓ
  Placed value (x, s) =
      ((q : ℕ) × (q < v.size) × (v.key q ≡ key) × (x ≡ v.value q) × Updated v s)
      ⊎ (((r : ℕ) → r < v.size → v.key r ≢ key)
          × (x ≡ v.no_value)
          × Updated (extended v key value) s)

  -- `pred` still links to the node behind the key.
  link-Between :
      (s : FlexList V) (pred succ : ℕ)
      → StandsFor v s
      → Between v key v.zero_level pred succ
      → (s.nodes pred).zero_level ≤ v.zero_level
      → (s.nodes pred).next (s.nodes pred).zero_level ≡ some succ
  link-Between s pred succ st b low =
      let l = st.levels pred (omega (arith, b.live, size_shown v s st)) in
      let at : (s.nodes pred).zero_level ≡ v.zero_level = omega (arith, zero_shown v s st) in
      let (q, e, f) =
        linked.links pred v.zero_level b.live (omega (arith, b.before, below)) (omega arith)
          b.wide in
      let k : v.key q ≡ v.key succ = omega (
        arith,
        f.least succ b.follows.live b.follows.above b.follows.reaches,
        b.follows.least q f.live f.above f.reaches,
      ) in
      ap (s.nodes pred).next at
      ∙ read_link v s pred v.zero_level q st low e
      ∙ ap (λ r. some r) (linked.keys q succ f.live b.follows.live k)

  linked-Placed :
      (value : V) (s : FlexList V) (pred succ : ℕ)
      → StandsFor v s
      → Between v key v.zero_level pred succ
      → key < v.key succ
      → (s.nodes pred).zero_level ≤ v.zero_level
      → ((r : ℕ) → r < v.size → v.key r ≢ key)
      → Ensures
          (Placed value)
          (update key (with_node pred succ key value s) >>= λ s'. done (s'.no_value, s'))
  linked-Placed value s pred succ st b lt low absent =
      let w = inserted v pred succ key value in
      let h_old = key_old v linked key pred succ value b lt head (omega (arith, linked.sized)) in
      let t_old = key_old v linked key pred succ value b lt tail (omega (arith, linked.sized)) in
      Ensures-bind
        (update-Updated w key (with_node pred succ key value s)
          (inserted-IsLinked v linked key pred succ value b lt above)
          (with_node-StandsFor v pred succ key value s st b.live low linked.shallow)
          (omega (arith, above)) (omega (arith, below)))
        λ s' u. ensures (
          inr (
            absent,
            ap (λ (x : View V). x.no_value) u.stands.shown ∙ u.same.no_value,
            record {
              after = u.after;
              same = record {
                size = u.same.size;
                highest = u.same.highest;
                no_value = u.same.no_value;
                key = u.same.key;
                value = u.same.value;
              };
              linked = u.linked;
              stands = u.stands;
            },
          ))

  present-Placed :
      (value : V) (s : FlexList V) (q : ℕ)
      → StandsFor v s
      → q < v.size
      → v.key q ≡ key
      → Ensures (Placed value) (value_at (some q) s >>= λ x. done (x, s))
  present-Placed value s q st live e =
      ensures
        (inl (q, live, e, ap (λ (x : View V). x.value q) st.shown, Updated-refl v s linked st))

  -- What a round does with the answer of the search.
  abbrev answered : ℕ → V → Bool → ℕ → Option ℕ → FlexList V → Run (V × FlexList V)
  answered fuel value found pred succ s₁ =
      let z = (s₁.nodes pred).zero_level in
      let s₂ = set_next s₁.size z succ (create_node z key value s₁) in
      if found
      then (value_at succ s₁ >>= λ x. done (x, s₁))
      else if (elim succ [ none ↦ false | some q ↦ links_to pred z q s₂ ])
      then (update key (set_next pred z (some s₁.size) s₂) >>= λ s₃. done (s₃.no_value, s₃))
      else insert_loop fuel key value s₂

  answered-Placed :
      (fuel : ℕ) (value : V) (found : Bool) (pred : ℕ) (succ : Option ℕ) (s₁ : FlexList V)
      → Answer v linked key at_most found pred succ s₁
      → Ensures (Placed value) (answered fuel value found pred succ s₁)
  answered-Placed fuel value found pred none s₁ a = absurd (cc (a.at))
  answered-Placed fuel value true pred (some q) s₁ a =
      let same : a.node ≡ q = cc (a.at) in
      present-Placed value s₁ q a.stands (omega (arith, a.live))
        (sym (ap v.key same) ∙ a.present refl)
  answered-Placed fuel value false pred (some q) s₁ a =
      let same : a.node ≡ q = cc (a.at) in
      let (b, lt) = a.gap refl in
      let b' = subst (Between v key v.zero_level pred) same b in
      let live : pred < s₁.size = omega (arith, b.live, size_shown v s₁ a.stands) in
      let hit =
        links_to-hit pred q (s₁.nodes pred).zero_level key value s₁ live
          (link-Between s₁ pred q a.stands b' (a.bottom refl)) in
      rw hit (
        linked-Placed value s₁ pred q a.stands b' (omega (arith, lt, ap v.key same)) (a.bottom refl)
          (a.absent refl))

  -- On a list that stands for a linked view, `insertIfAbsent` of a key between those of `head` and
  -- `tail` returns the value of the node that has the key and keeps the contents, or, if no node has it,
  -- returns `no_value` and the list has one more node, with the key and the value. It stands for a
  -- linked view again. The only other end is that the list would need a level below 0.
  pub insert_if_absent-Placed :
      (value : V) (s : FlexList V)
      → StandsFor v s
      → Ensures (Placed value) (insert_if_absent key value s)
  unfolding insert_if_absent insert_loop
  insert_if_absent-Placed value s st =
      Ensures-bind_Returns (find-Answered v linked key at_most s st above)
        λ (found, pred, succ, s₁) a. answered-Placed 0 value found pred succ s₁ a
