-- ===== src/FlexSeq/Client.antt =====
-- Sequences of calls, against the same calls on a map.
use mathlib.Core.Path.{subst}
use splaylist.Base.{
  ℕ, ◌<◌, ◌≡◌, ◌≢◌, ◌∙◌, refl, sym, ap, Bool, true, false, Option, none, some, arith, ◌==◌,
  Bool-cases, inl, inr, List, [], ◌∷◌, ==→eq, ==→ne, ne→==,
}
use splaylist.Base.Run.{Run, done, Ensures, ensures, Ensures-bind, ◌>>=◌}
use splaylist.FlexSeq.State.{FlexList, head, tail, upd}
use splaylist.FlexSeq.Ops.{contains, qfind, insert_if_absent}
use splaylist.FlexSeq.View.{View, StandsFor, IsLinked}
use splaylist.FlexSeq.View.Rising.{Same}
use splaylist.FlexSeq.View.Updating.{Updated}
use splaylist.FlexSeq.Calls.{contains-Contained, qfind-Fetched}
use splaylist.FlexSeq.Insertion.{extended, insert_if_absent-Placed}

pub data Call {ℓ} (V : Type ℓ) : Type ℓ where
  insert_call : ℕ → V → Call V
  find_call : ℕ → Call V
  contains_call : ℕ → Call V

pub data Reply {ℓ} (V : Type ℓ) : Type ℓ where
  value_reply : V → Reply V
  bool_reply : Bool → Reply V

put_index {ℓ} : {A : Type ℓ} (f : ℕ → A) (i : ℕ) (x : A) (q : ℕ) → q ≡ i → upd f i x q ≡ x
put_index f i x q e = let same : (q == i) ≡ true = ground arith in rw same refl

put_past {ℓ} : {A : Type ℓ} (f : ℕ → A) (i : ℕ) (x : A) (q : ℕ) → q ≢ i → upd f i x q ≡ f q
put_past f i x q n = rw (ne→== q i n) refl

module _ {ℓ} {V : Type ℓ} where
  abbrev pub key_of : Call V → ℕ
  key_of (insert_call k x) = k
  key_of (find_call k) = k
  key_of (contains_call k) = k

  abbrev pub call : Call V → FlexList V → Run (Reply V × FlexList V)
  call (insert_call k x) s = do (y, s') ← insert_if_absent k x s; done (value_reply y, s')
  call (find_call k) s = do (y, s') ← qfind k s; done (value_reply y, s')
  call (contains_call k) s = do (b, s') ← contains k s; done (bool_reply b, s')

  abbrev pub value_or : V → Option V → V
  value_or d none = d
  value_or d (some x) = x

  abbrev pub is_there : Option V → Bool
  is_there none = false
  is_there (some x) = true

  abbrev pub first_of : Option V → V → Option V
  first_of none x = some x
  first_of (some y) x = some y

  -- The same call on a map: an insertion keeps the value of a key that is there.
  abbrev pub reply : V → Call V → (ℕ → Option V) → Reply V
  reply d (insert_call k x) m = value_reply (value_or d (m k))
  reply d (find_call k) m = value_reply (value_or d (m k))
  reply d (contains_call k) m = bool_reply (is_there (m k))

  abbrev pub store_after : Call V → (ℕ → Option V) → ℕ → Option V
  store_after (insert_call k x) m = upd m k (first_of (m k) x)
  store_after (find_call k) m = m
  store_after (contains_call k) m = m

  -- The nodes between `head` and `tail` hold what the map says.
  pub record Models (v : View V) (m : ℕ → Option V) : Type ℓ where
    pub held :
        (q : ℕ)
        → q < v.size
        → v.key head < v.key q
        → v.key q < v.key tail
        → m (v.key q) ≡ some (v.value q)
    pub missing :
        (k : ℕ)
        → v.key head < k
        → k < v.key tail
        → ((r : ℕ) → r < v.size → v.key r ≢ k)
        → m k ≡ none

  -- A list between the keys `low` and `high` that holds what the map says.
  pub record Serves (low high : ℕ) (d : V) (m : ℕ → Option V) (s : FlexList V) : Type ℓ where
    pub shown : View V
    pub linked : IsLinked shown
    pub stands : StandsFor shown s
    pub models : Models shown m
    pub least : shown.key head ≡ low
    pub greatest : shown.key tail ≡ high
    pub default : shown.no_value ≡ d

  pub Models-Same : (v w : View V) (m : ℕ → Option V) → Same v w → Models v m → Models w m
  Models-Same v w m same o = record {
    held = λ q live above below.
        ap m (same.key q)
        ∙ o.held q (omega (arith, same.size)) (omega (arith, same.key q, same.key head))
            (omega (arith, same.key q, same.key tail))
        ∙ ap (λ x. some x) (sym (same.value q));
    missing = λ k above below absent.
        o.missing k (omega (arith, same.key head)) (omega (arith, same.key tail))
          λ r live e. absent r (omega (arith, same.size)) (same.key r ∙ e);
  }

  -- The map at the key that is put, and at the others.
  put_at : (m : ℕ → Option V) (k : ℕ) (o : Option V) (j : ℕ) → j ≡ k → upd m k o j ≡ o
  put_at m k o j e = let same : (j == k) ≡ true = ground arith in rw same refl

  put_off : (m : ℕ → Option V) (k : ℕ) (o : Option V) (j : ℕ) → j ≢ k → upd m k o j ≡ m j
  put_off m k o j n = rw (ne→== j k n) refl

  pub Models-kept :
      (v : View V) (m : ℕ → Option V) (k : ℕ) (y : V)
      → m k ≡ some y
      → Models v m
      → Models v (upd m k (some y))
  Models-kept v m k y e o =
      let same : (j : ℕ) → upd m k (some y) j ≡ m j = λ j. elim (Bool-cases (j == k)) [
        | inl hit ↦ put_at m k (some y) j (==→eq j k hit) ∙ sym e ∙ sym (ap m (==→eq j k hit))
        | inr off ↦ put_off m k (some y) j (==→ne j k off)
      ] in
      record {
        held = λ q live above below. same (v.key q) ∙ o.held q live above below;
        missing = λ j above below absent. same j ∙ o.missing j above below absent;
      }

  pub Models-extended :
      (v : View V) (m : ℕ → Option V) (key : ℕ) (x : V)
      → IsLinked v
      → ((r : ℕ) → r < v.size → v.key r ≢ key)
      → Models v m
      → Models (extended v key x) (upd m key (some x))
  Models-extended v m key x linked absent o =
      let w = extended v key x in
      let key_old : (q : ℕ) → q ≢ v.size → w.key q ≡ v.key q = λ q n. rw (ne→== q v.size n) refl in
      let value_old : (q : ℕ) → q ≢ v.size → w.value q ≡ v.value q =
        λ q n. rw (ne→== q v.size n) refl in
      let h = key_old head (omega (arith, linked.sized)) in
      let t = key_old tail (omega (arith, linked.sized)) in
      record {
        held = λ q live above below. elim (Bool-cases (q == v.size)) [
          | inl new ↦
              put_at m key (some x) (w.key q) (rw new refl)
              ∙ ap (λ y. some y) (sym (put_index v.value v.size x q (==→eq q v.size new)))
          | inr old ↦
              let n = ==→ne q v.size old in
              let live' : q < v.size = omega arith in
              put_off m key (some x) (w.key q) (λ e. absent q live' (sym (key_old q n) ∙ e))
              ∙ ap m (key_old q n)
              ∙ o.held q live' (omega (arith, key_old q n)) (omega (arith, key_old q n))
              ∙ ap (λ y. some y) (sym (value_old q n))
        ];
        missing = λ k above below none_has.
            put_off m key (some x) k
              (λ e. none_has v.size (omega arith) (put_index v.key v.size key v.size refl ∙ sym e))
            ∙ o.missing k (omega arith) (omega arith)
                λ r live e. none_has r (omega arith) (key_old r (omega arith) ∙ e);
      }

  Serves-Updated :
      (low high : ℕ) (d : V) (m : ℕ → Option V) (v : View V) (s : FlexList V)
      → v.key head ≡ low
      → v.key tail ≡ high
      → v.no_value ≡ d
      → Models v m
      → Updated v s
      → Serves low high d m s
  Serves-Updated low high d m v s l h n o u = record {
    shown = u.after;
    linked = u.linked;
    stands = u.stands;
    models = Models-Same v u.after m u.same o;
    least = u.same.key head ∙ l;
    greatest = u.same.key tail ∙ h;
    default = u.same.no_value ∙ n;
  }

  -- The reply of the map, and a list that serves as the map does afterwards.
  abbrev pub Replied : ℕ → ℕ → V → Call V → (ℕ → Option V) → Reply V × FlexList V → Type ℓ
  Replied low high d c m (r, s) = (r ≡ reply d c m) × Serves low high d (store_after c m) s

  pub call-Replied :
      (low high : ℕ) (d : V) (m : ℕ → Option V) (c : Call V) (s : FlexList V)
      → Serves low high d m s
      → low < key_of c
      → key_of c < high
      → Ensures (Replied low high d c m) (call c s)
  call-Replied low high d m (find_call k) s v above below =
      Ensures-bind
        (qfind-Fetched v.shown v.linked k (omega (arith, v.least)) (omega (arith, v.greatest)) s
          v.stands)
        λ (x, s') (u, o). ensures (
          elim o [
            | inl (q, live, e, at) ↦
                let h : m k ≡ some x =
                  ap m (sym e)
                  ∙ v.models.held q live (omega (arith, e, v.least)) (omega (arith, e, v.greatest))
                  ∙ ap (λ y. some y) (sym at) in
                ap (λ y. value_reply (value_or d y)) (sym h)
            | inr (absent, at) ↦
                let h : m k ≡ none =
                  v.models.missing k (omega (arith, v.least)) (omega (arith, v.greatest)) absent in
                ap value_reply (at ∙ v.default) ∙ ap (λ y. value_reply (value_or d y)) (sym h)
          ],
          Serves-Updated low high d m v.shown s' v.least v.greatest v.default v.models u,
        )
  call-Replied low high d m (contains_call k) s v above below =
      Ensures-bind
        (contains-Contained v.shown v.linked k (omega (arith, v.least)) (omega (arith, v.greatest))
          s v.stands)
        λ (b, s') (u, hit, miss). ensures (
          elim (Bool-cases b) [
            | inl e ↦
                let (q, live, at) = hit e in
                let h : m k ≡ some (v.shown.value q) =
                  ap m (sym at)
                  ∙ v.models.held q live (omega (arith, at, v.least))
                      (omega (arith, at, v.greatest)) in
                ap bool_reply e ∙ ap (λ y. bool_reply (is_there y)) (sym h)
            | inr e ↦
                let h : m k ≡ none =
                  v.models.missing k (omega (arith, v.least)) (omega (arith, v.greatest))
                    (miss e) in
                ap bool_reply e ∙ ap (λ y. bool_reply (is_there y)) (sym h)
          ],
          Serves-Updated low high d m v.shown s' v.least v.greatest v.default v.models u,
        )
  call-Replied low high d m (insert_call k x) s v above below =
      Ensures-bind
        (insert_if_absent-Placed v.shown v.linked k (omega (arith, v.least))
          (omega (arith, v.greatest)) x s v.stands)
        λ (y, s') o. ensures (elim o [
          | inl (q, live, e, at, u) ↦
              let h : m k ≡ some y =
                ap m (sym e)
                ∙ v.models.held q live (omega (arith, e, v.least)) (omega (arith, e, v.greatest))
                ∙ ap (λ z. some z) (sym at) in
              (
                ap (λ z. value_reply (value_or d z)) (sym h),
                subst (λ z. Serves low high d (upd m k (first_of z x)) s') (sym h)
                    (Serves-Updated low high d (upd m k (some y)) v.shown s' v.least v.greatest
                      v.default (Models-kept v.shown m k y h v.models) u),
              )
          | inr (absent, at, u) ↦
              let h : m k ≡ none =
                v.models.missing k (omega (arith, v.least)) (omega (arith, v.greatest)) absent in
              let w = extended v.shown k x in
              (
                ap value_reply (at ∙ v.default) ∙ ap (λ z. value_reply (value_or d z)) (sym h),
                subst (λ z. Serves low high d (upd m k (first_of z x)) s') (sym h)
                    (Serves-Updated low high d (upd m k (some x)) w s'
                      (put_past v.shown.key v.shown.size k head (omega (arith, v.linked.sized))
                        ∙ v.least)
                      (put_past v.shown.key v.shown.size k tail (omega (arith, v.linked.sized))
                        ∙ v.greatest)
                      v.default (Models-extended v.shown m k x v.linked absent v.models) u),
              )
        ])

  -- The replies to the calls in a row, from the list and from the map.
  abbrev pub run_calls : List (Call V) → FlexList V → Run (List (Reply V))
  run_calls [] s = done []
  run_calls (c ∷ cs) s = do (r, s') ← call c s; rs ← run_calls cs s'; done (r ∷ rs)

  abbrev pub replies : V → List (Call V) → (ℕ → Option V) → List (Reply V)
  replies d [] m = []
  replies d (c ∷ cs) m = reply d c m ∷ replies d cs (store_after c m)

  -- Every call has a key between `low` and `high`.
  abbrev pub AreWithin : ℕ → ℕ → List (Call V) → Type 0
  AreWithin low high [] = Unit
  AreWithin low high (c ∷ cs) = (low < key_of c) × (key_of c < high) × AreWithin low high cs

  pub run_calls-Serves :
      (low high : ℕ) (d : V) (cs : List (Call V)) (m : ℕ → Option V) (s : FlexList V)
      → Serves low high d m s
      → AreWithin low high cs
      → Ensures (λ rs. rs ≡ replies d cs m) (run_calls cs s)
  run_calls-Serves low high d [] m s v w = ensures refl
  run_calls-Serves low high d (c ∷ cs) m s v (a, b, w) =
      Ensures-bind (call-Replied low high d m c s v a b) λ (r, s') (e, v').
        Ensures-bind (run_calls-Serves low high d cs (store_after c m) s' v' w)
          λ rs es. ensures (ap (λ x. x ∷ rs) e ∙ ap (λ x. reply d c m ∷ x) es)
