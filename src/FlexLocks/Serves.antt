-- ===== src/FlexLocks/Serves.antt =====
-- What the list holds: a map from keys to values, where a node with `noValue` counts as absent.
use splaylist.Base.{
  ℕ, ◌<◌, ◌≡◌, ◌∙◌, refl, sym, ap, Option, none, some, arith, ◌==◌, if◌then◌else◌, Bool-cases, inl,
  inr, ==→eq, ==→ne,
}
use splaylist.Base.Memory.{upd-same, upd-other}
use splaylist.FlexSeq.State.{FlexList, head, tail, upd}
use splaylist.FlexSeq.View.{View, View-ext, view, StandsFor, IsLinked}
use splaylist.FlexSeq.Insertion.{extended}
use splaylist.FlexSeq.Client.{Models, Models-Same, Models-extended}
use splaylist.FlexLocks.Shared.{LockList, on_list}
use splaylist.FlexLocks.Ops.{set_value}
use splaylist.FlexLocks.Held.{AreFree}
use splaylist.FlexLocks.Levels.{Settled}
use splaylist.FlexLocks.Rounds.{IsAbsent}
use splaylist.FlexLocks.Placing.{IsPlaced}

-- What a node's value stands for, with `d` for `noValue`.
abbrev pub live : ℕ → Option ℕ → Option ℕ
live d none = none
live d (some x) = if x == d then none else some x

-- The node `p` gets another value.
abbrev pub valued : View ℕ → ℕ → ℕ → View ℕ
valued v p x = record v { value = upd v.value p x }

valued-IsLinked : (v : View ℕ) (p x : ℕ) → IsLinked v → IsLinked (valued v p x)
valued-IsLinked v p x linked = record {
  sized = linked.sized;
  shallow = linked.shallow;
  head_top = linked.head_top;
  tail_top = linked.tail_top;
  low = linked.low;
  keys = linked.keys;
  above_head = linked.above_head;
  below_tail = linked.below_tail;
  links = λ q h l lt low wide.
      let (r, e, f) = linked.links q h l lt low wide in
      (r, e, record { live = f.live; above = f.above; reaches = f.reaches; least = f.least });
}

valued-StandsFor :
    (v : View ℕ) (p x : ℕ) (l : FlexList ℕ)
    → StandsFor v l
    → StandsFor (valued v p x) (set_value p x l)
valued-StandsFor v p x l st = record {
  shown =
      View-ext (view (set_value p x l)) (valued (view l) p x) refl refl refl refl
        (λ q. ground arith) (λ q. ground arith) (λ q. ground arith) (λ q h. ground arith)
      ∙ ap (λ w. valued w p x) st.shown;
  levels = λ q lq. ground (arith, st.levels q);
}

Models-valued :
    (v : View ℕ) (m : ℕ → Option ℕ) (p x : ℕ)
    → IsLinked v
    → p < v.size
    → Models v m
    → Models (valued v p x) (upd m (v.key p) (some x))
Models-valued v m p x linked live o = record {
  held = λ q lq above below. elim (Bool-cases (q == p)) [
    | inl e ↦
        let at = ==→eq q p e in
        upd-same m (v.key p) (some x) (v.key q) (ap v.key at)
        ∙ ap (λ y. some y) (sym (upd-same v.value p x q at))
    | inr n ↦
        let other = ==→ne q p n in
        upd-other m (v.key p) (some x) (v.key q) (λ e. other (linked.keys q p lq live e))
        ∙ o.held q lq above below
        ∙ ap (λ y. some y) (sym (upd-other v.value p x q other))
  ];
  missing = λ k above below absent.
      upd-other m (v.key p) (some x) k (λ e. absent p live (sym e))
      ∙ o.missing k above below absent;
}

-- The list holds what the map `m` says, between the keys `low` and `high`, and all locks are free.
pub record Serves (low high d : ℕ) (m : ℕ → Option ℕ) (s : LockList) : Type 0 where
  pub shown : View ℕ
  pub linked : IsLinked shown
  pub stands : StandsFor shown s.list
  pub raw : ℕ → Option ℕ
  pub models : Models shown raw
  pub clean : (k : ℕ) → m k ≡ live d (raw k)
  pub least : shown.key head ≡ low
  pub greatest : shown.key tail ≡ high
  pub default : shown.no_value ≡ d
  pub free : AreFree s

module _ (low high d : ℕ) (m : ℕ → Option ℕ) (s : LockList) (v : Serves low high d m s) where
  -- Another way to write the same map.
  pub Serves-ext : (m' : ℕ → Option ℕ) → ((k : ℕ) → m' k ≡ m k) → Serves low high d m' s
  Serves-ext m' same = record {
    shown = v.shown;
    linked = v.linked;
    stands = v.stands;
    raw = v.raw;
    models = v.models;
    clean = λ k. same k ∙ v.clean k;
    least = v.least;
    greatest = v.greatest;
    default = v.default;
    free = v.free;
  }

  -- After an operation that keeps the contents.
  abbrev pub Serves-Settled : (s' : LockList) → Settled v.shown s' → Serves low high d m s'
  Serves-Settled s' u = record {
    shown = u.updated.after;
    linked = u.updated.linked;
    stands = u.updated.stands;
    raw = v.raw;
    models = Models-Same v.shown u.updated.after v.raw u.updated.same v.models;
    clean = v.clean;
    least = u.updated.same.key head ∙ v.least;
    greatest = u.updated.same.key tail ∙ v.greatest;
    default = u.updated.same.no_value ∙ v.default;
    free = u.free;
  }

  -- The map at a key that is put, and at the others.
  clean_put :
      (k x : ℕ) (o : Option ℕ)
      → o ≡ live d (some x)
      → (j : ℕ) → upd m k o j ≡ live d (upd v.raw k (some x) j)
  clean_put k x o e j = elim (Bool-cases (j == k)) [
    | inl at ↦ rw at e
    | inr off ↦ rw off (v.clean j)
  ]

  -- After the value of a node has been written.
  pub Serves-valued :
      (p x : ℕ) (o : Option ℕ)
      → p < v.shown.size
      → o ≡ live d (some x)
      → Serves low high d (upd m (v.shown.key p) o) (on_list (set_value p x) s)
  Serves-valued p x o lp e = record {
    shown = valued v.shown p x;
    linked = valued-IsLinked v.shown p x v.linked;
    stands = valued-StandsFor v.shown p x s.list v.stands;
    raw = upd v.raw (v.shown.key p) (some x);
    models = Models-valued v.shown v.raw p x v.linked lp v.models;
    clean = clean_put (v.shown.key p) x o e;
    least = v.least;
    greatest = v.greatest;
    default = v.default;
    free = v.free;
  }

  -- After a new node has gone in.
  pub Serves-placed :
      (k x y : ℕ) (o : Option ℕ) (s' : LockList)
      → IsAbsent v.shown k
      → o ≡ live d (some x)
      → IsPlaced v.shown k x (y, s')
      → Serves low high d (upd m k o) s'
  Serves-placed k x y o s' absent e (back, free, u) =
      let w = extended v.shown k x in
      record {
        shown = u.after;
        linked = u.linked;
        stands = u.stands;
        raw = upd v.raw k (some x);
        models =
            Models-Same w u.after (upd v.raw k (some x)) u.same
              (Models-extended v.shown v.raw k x v.linked absent v.models);
        clean = clean_put k x o e;
        least =
            u.same.key head
            ∙ upd-other v.shown.key v.shown.size k head (omega (arith, v.linked.sized))
            ∙ v.least;
        greatest =
            u.same.key tail
            ∙ upd-other v.shown.key v.shown.size k tail (omega (arith, v.linked.sized))
            ∙ v.greatest;
        default = u.same.no_value ∙ v.default;
        free = free;
      }
