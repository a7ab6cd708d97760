-- ===== src/SkipLazy/Serves.antt =====
-- What a list promises between two calls, and what the writes of a call make of it.
use splaylist.Base.{
  ℕ, ◌+◌, ◌≤◌, ◌<◌, ◌≡◌, ◌≢◌, ◌∙◌, refl, ap, sym, Bool, false, Option, none, some, arith, ◌==◌,
  Bool-cases, inl, inr, ==→eq, ==→ne,
}
use splaylist.Base.Memory.{upd, upd-same, upd-other}
use splaylist.SkipLazy.State.{SkipList, max_level, head, tail, create_node}
use splaylist.SkipLazy.Shape.{shape, IsLinked, Between, IsAbsent}
use splaylist.SkipLazy.Shape.Inserted.{inserted-IsLinked, AreSpliced}
use splaylist.SkipLazy.Shape.Splice.{with_node}
use splaylist.SkipLazy.Locks.{with_locks}

-- The nodes between `head` and `tail` hold what the map says.
pub record Models (s : SkipList) (m : ℕ → Option ℕ) : Type 0 where
  pub held :
      (q : ℕ)
      → q < s.size
      → s.nodes.key head < s.nodes.key q
      → s.nodes.key q < s.nodes.key tail
      → m (s.nodes.key q) ≡ some (s.nodes.value q)
  pub missing :
      (k : ℕ) → s.nodes.key head < k → k < s.nodes.key tail → IsAbsent (shape s) k → m k ≡ none

-- A linked list between the keys `low` and `high`, with no lock held, that holds what the map says.
pub record Serves (low high d : ℕ) (m : ℕ → Option ℕ) (s : SkipList) : Type 0 where
  pub linked : IsLinked (shape s)
  pub free : (p : ℕ) → p < s.size → s.nodes.lock p ≡ false
  pub models : Models s m
  pub reach : s.real_max_lvl ≤ max_level
  pub least : s.nodes.key head ≡ low
  pub greatest : s.nodes.key tail ≡ high
  pub default : s.no_value ≡ d

-- The list with other values.
abbrev pub with_values : SkipList → (ℕ → ℕ) → SkipList
with_values s value = record s { nodes = record (s.nodes) { value = value } }

-- A node with the key `k` gets the value `y`.
pub Serves-with_values :
    (low high d : ℕ) (m : ℕ → Option ℕ) (s : SkipList) (p k y : ℕ) (value : ℕ → ℕ)
    → Serves low high d m s
    → p < s.size
    → s.nodes.key p ≡ k
    → ((q : ℕ) → value q ≡ upd s.nodes.value p y q)
    → Serves low high d (upd m k (some y)) (with_values s value)
Serves-with_values low high d m s p k y value v live at same = record {
  linked = v.linked;
  free = v.free;
  models = record {
    held = λ q lq above below. elim (Bool-cases (q == p)) [
      | inl e ↦
          let here = ==→eq q p e in
          upd-same m k (some y) (s.nodes.key q) (ap s.nodes.key here ∙ at)
          ∙ ap (λ x. some x) (sym (same q ∙ upd-same s.nodes.value p y q here))
      | inr n ↦
          let other = ==→ne q p n in
          upd-other m k (some y) (s.nodes.key q)
            (λ e. other (v.linked.keys q p lq live (e ∙ sym at)))
          ∙ v.models.held q lq above below
          ∙ ap (λ x. some x) (sym (same q ∙ upd-other s.nodes.value p y q other))
    ];
    missing = λ j above below absent.
        upd-other m k (some y) j (λ e. absent p live (at ∙ sym e))
        ∙ v.models.missing j above below absent;
  };
  reach = v.reach;
  least = v.least;
  greatest = v.greatest;
  default = v.default;
}

-- The same map, pointwise.
pub Serves-same :
    (low high d : ℕ) (m m' : ℕ → Option ℕ) (s : SkipList)
    → ((k : ℕ) → m' k ≡ m k)
    → Serves low high d m s
    → Serves low high d m' s
Serves-same low high d m m' s same v = record {
  linked = v.linked;
  free = v.free;
  models = record {
    held = λ q live above below. same (s.nodes.key q) ∙ v.models.held q live above below;
    missing = λ k above below absent. same k ∙ v.models.missing k above below absent;
  };
  reach = v.reach;
  least = v.least;
  greatest = v.greatest;
  default = v.default;
}

-- Counters, seeds and the highest level in use are no part of the map.
pub Serves-tuned :
    (low high d : ℕ) (m : ℕ → Option ℕ) (s : SkipList) (sums seeds : ℕ → ℕ) (max : ℕ)
    → max ≤ max_level
    → Serves low high d m s
    → Serves low high d m (record s { sum_lengths = sums; seed = seeds; real_max_lvl = max })
Serves-tuned low high d m s sums seeds max le v = record {
  linked = v.linked;
  free = v.free;
  models = record { held = v.models.held; missing = v.models.missing };
  reach = le;
  least = v.least;
  greatest = v.greatest;
  default = v.default;
}

-- A new node with the key, linked at its levels, and all locks given back.
pub Serves-with_node :
    (low high d : ℕ) (m : ℕ → Option ℕ) (s : SkipList) (t key value : ℕ) (preds succs : ℕ → ℕ)
    (link : ℕ → ℕ → Option ℕ) (lock : ℕ → Bool)
    → Serves low high d m s
    → t ≤ max_level
    → ((l : ℕ) → l ≤ t → Between (shape s) key l (preds l) (succs l))
    → IsAbsent (shape s) key
    → AreSpliced (shape s) t preds succs link
    → low < key
    → ((p : ℕ) → p < s.size + 1 → lock p ≡ false)
    → Serves low high d (upd m key (some value)) (with_locks (with_node t key value link s) lock)
unfolding create_node
Serves-with_node low high d m s t key value preds succs link lock v height between absent spliced
      above free =
    let keys' = upd s.nodes.key s.size key in
    let not_head : head ≢ s.size = λ e. absurd (omega (arith, v.linked.sized)) in
    let not_tail : tail ≢ s.size = λ e. absurd (omega (arith, v.linked.sized)) in
    let h : keys' head ≡ s.nodes.key head = upd-other s.nodes.key s.size key head not_head in
    let t' : keys' tail ≡ s.nodes.key tail = upd-other s.nodes.key s.size key tail not_tail in
    record {
      linked =
          inserted-IsLinked (shape s) v.linked t key preds succs link height between absent spliced
            (omega (arith, v.least));
      free = free;
      models = record {
        held = λ q live low high. elim (Bool-cases (q == s.size)) [
          | inl e ↦
              let at = ==→eq q s.size e in
              upd-same m key (some value) (keys' q) (upd-same s.nodes.key s.size key q at)
              ∙ ap (λ x. some x) (sym (upd-same s.nodes.value s.size value q at))
          | inr n ↦
              let old = ==→ne q s.size n in
              let k = upd-other s.nodes.key s.size key q old in
              let lq : q < s.size = omega arith in
              upd-other m key (some value) (keys' q) (λ e. absent q lq (sym k ∙ e))
              ∙ ap m k
              ∙ v.models.held q lq (omega arith) (omega arith)
              ∙ ap (λ x. some x) (sym (upd-other s.nodes.value s.size value q old))
        ];
        missing = λ k low high none_has.
            upd-other m key (some value) k (λ e.
              none_has s.size (omega arith) (upd-same s.nodes.key s.size key s.size refl ∙ sym e))
            ∙ v.models.missing k (omega arith) (omega arith) λ r live e.
              none_has r (omega arith)
                (upd-other s.nodes.key s.size key r (λ z. absurd (omega arith)) ∙ e);
      };
      reach = v.reach;
      least = h ∙ v.least;
      greatest = t' ∙ v.greatest;
      default = v.default;
    }
