-- ===== src/FlexLocks/Calls.antt =====
-- Each operation on a list that holds what a map says.
use splaylist.Base.{
  ℕ, ◌+◌, ◌<◌, ◌≡◌, ◌≢◌, ◌∙◌, refl, sym, ap, Bool, true, false, not, Option, none, some, arith,
  ◌==◌, if◌then◌else◌, Bool-cases, inl, inr, ne→==, ==→eq, ==_self,
}
use splaylist.Base.Run.{
  Run, done, ◌>>=◌, Ensures, ensures, Ensures-bind, Ensures-bind_Returns, Ensures-if,
}
use splaylist.FlexSeq.State.{head, tail, upd}
use splaylist.FlexSeq.View.{View, StandsFor, IsLinked}
use splaylist.FlexSeq.View.Updating.{Updated-refl}
use splaylist.FlexSeq.Client.{value_or, is_there}
use splaylist.FlexLocks.Shared.{LockList}
use splaylist.FlexLocks.Find.{find}
use splaylist.FlexLocks.Ops.{at_node, value_of, count_update, contains, qfind}
use splaylist.FlexLocks.Search.{locked_find-Answered}
use splaylist.FlexLocks.Held.{AreFree}
use splaylist.FlexLocks.Levels.{Settled, update-Settled}
use splaylist.FlexLocks.Rounds.{IsAbsent}
use splaylist.FlexLocks.Serves.{live, Serves, Serves-Settled}

abbrev pub first_of : ℕ → Option ℕ → ℕ → Option ℕ
first_of d none x = live d (some x)
first_of d (some y) x = some y

pub value_or-live : (d x : ℕ) → value_or d (live d (some x)) ≡ x
value_or-live d x = elim (Bool-cases (x == d)) [
  | inl e ↦ rw e (sym (==→eq x d e))
  | inr n ↦ rw n refl
]

pub is_there-live : (d x : ℕ) → is_there (live d (some x)) ≡ not (x == d)
is_there-live d x = elim (Bool-cases (x == d)) [ inl e ↦ rw e refl | inr n ↦ rw n refl ]

pub live_none : (d x : ℕ) → x ≡ d → live d (some x) ≡ none
live_none d x e = let same : (x == d) ≡ true = ap (λ y. y == d) e ∙ ==_self d in rw same refl

pub live_some : (d x : ℕ) → x ≢ d → live d (some x) ≡ some x
live_some d x n = rw (ne→== x d n) refl

module _ (v : View ℕ) (tid key : ℕ) (linked : IsLinked v) (above : v.key head < key)
    (below : key < v.key tail) where
  -- What a successful search does afterwards keeps the contents and the locks.
  count_update-Settled :
      (s : LockList) → StandsFor v s.list → AreFree s → Ensures (Settled v) (count_update tid key s)
  unfolding count_update
  count_update-Settled s st free =
      let s₁ : LockList = record s {
        update_counter = upd s.update_counter tid (s.update_counter tid + 1);
      } in
      Ensures-if (s₁.update_counter tid == s₁.list.update_num)
        (λ due.
          Ensures-bind (update-Settled v key s₁ linked st free (omega (arith, above)) below)
            λ s₂ u. ensures (record { free = u.free; updated = u.updated }))
        λ skip. ensures (record { free = free; updated = Updated-refl v s₁.list linked st })

module _ (low high d : ℕ) (m : ℕ → Option ℕ) (s : LockList) (v : Serves low high d m s)
    (tid key : ℕ) (above : low < key) (below : key < high) where
  pub head_lt : v.shown.key head < key
  head_lt = omega (arith, v.least)

  pub tail_gt : key < v.shown.key tail
  tail_gt = omega (arith, v.greatest)

  -- What the map says of the key of a node, and of a key that no node has.
  pub at_live :
      (q : ℕ) → q < v.shown.size → v.shown.key q ≡ key → m key ≡ live d (some (v.shown.value q))
  at_live q lq at =
      v.clean key
      ∙ ap (live d) (
          ap v.raw (sym at)
          ∙ v.models.held q lq (omega (arith, head_lt, at)) (omega (arith, tail_gt, at)))

  pub at_absent : IsAbsent v.shown key → m key ≡ none
  at_absent absent = v.clean key ∙ ap (live d) (v.models.missing key head_lt tail_gt absent)

  -- A search, with what follows it in the two cases.
  pub searched :
      {A : Type 0} {P : A → Type 0} (k : Bool → Option ℕ → LockList → Run A)
      → ((q : ℕ) (s₁ : LockList)
          → StandsFor v.shown s₁.list
          → AreFree s₁
          → q < v.shown.size
          → v.shown.key q ≡ key
          → Ensures P (k true (some q) s₁))
      → ((succ : Option ℕ) (s₁ : LockList)
          → StandsFor v.shown s₁.list
          → AreFree s₁
          → IsAbsent v.shown key
          → Ensures P (k false succ s₁))
      → Ensures P (find tid key s >>= λ (found, pred, succ, s₁). k found succ s₁)
  searched k hit miss =
      Ensures-bind_Returns
        (locked_find-Answered v.shown v.linked tid key (omega (arith, tail_gt)) s v.stands v.free
          head_lt)
        λ (found, pred, succ, s₁) a. elim (Bool-cases found) [
          | inl yes_found ↦
              let (q, at, lq, e) = a.present yes_found in
              rw (yes_found, at) (hit q s₁ a.stands a.free lq e)
          | inr no_found ↦ rw no_found (miss succ s₁ a.stands a.free (a.absent no_found))
        ]

  pub kept : (s₁ : LockList) → StandsFor v.shown s₁.list → AreFree s₁ → Serves low high d m s₁
  kept s₁ st free =
      Serves-Settled low high d m s v s₁
        (record { free = free; updated = Updated-refl v.shown s₁.list v.linked st })

  pub shown_value :
      (q : ℕ) (s₁ : LockList) (u : Settled v.shown s₁) → value_of q s₁ ≡ v.shown.value q
  shown_value q s₁ u =
      ap (λ (w : View ℕ). w.value q) u.updated.stands.shown ∙ u.updated.same.value q

  -- What follows a successful search, for each operation.
  pub counted :
      {A : Type 0} {P : A → Type 0} (k : LockList → Run A) (s₁ : LockList)
      → StandsFor v.shown s₁.list
      → AreFree s₁
      → ((s₂ : LockList) → Settled v.shown s₂ → Ensures P (k s₂))
      → Ensures P (count_update tid key s₁ >>= k)
  counted k s₁ st free next =
      Ensures-bind (count_update-Settled v.shown tid key v.linked head_lt tail_gt s₁ st free) next

  -- The value that an operation returns, and the map afterwards.
  abbrev pub Gives : (ℕ → Option ℕ) → ℕ × LockList → Type 0
  Gives m' (y, s') = (y ≡ value_or d (m key)) × Serves low high d m' s'

  pub default_back :
      (s₁ : LockList)
      → StandsFor v.shown s₁.list
      → IsAbsent v.shown key
      → s₁.list.no_value ≡ value_or d (m key)
  default_back s₁ st absent =
      ap (λ (w : View ℕ). w.no_value) st.shown
      ∙ v.default
      ∙ ap (value_or d) (sym (at_absent absent))

  pub value_back :
      (q : ℕ) (s₁ : LockList)
      → StandsFor v.shown s₁.list
      → q < v.shown.size
      → v.shown.key q ≡ key
      → value_of q s₁ ≡ value_or d (m key)
  value_back q s₁ st lq at =
      ap (λ (w : View ℕ). w.value q) st.shown
      ∙ sym (value_or-live d (v.shown.value q))
      ∙ ap (value_or d) (sym (at_live q lq at))

  pub default_kept : (s₂ : LockList) → Settled v.shown s₂ → s₂.list.no_value ≡ d
  default_kept s₂ u =
      ap (λ (w : View ℕ). w.no_value) u.updated.stands.shown ∙ u.updated.same.no_value ∙ v.default

  pub qfind-Gives : Ensures (Gives m) (qfind tid key s)
  unfolding qfind
  qfind-Gives =
      searched
        (λ found succ s₁.
          if found
          then at_node succ (λ p. count_update tid key s₁ >>= λ s₂. done (value_of p s₁, s₂))
          else done (s₁.list.no_value, s₁))
        (λ q s₁ st free lq at.
          counted (λ s₂. done (value_of q s₁, s₂)) s₁ st free
            λ s₂ u. ensures (value_back q s₁ st lq at, Serves-Settled low high d m s v s₂ u))
        λ succ s₁ st free absent. ensures (default_back s₁ st absent, kept s₁ st free)

  pub contains-Gives :
      Ensures (λ (b, s'). (b ≡ is_there (m key)) × Serves low high d m s') (contains tid key s)
  unfolding contains
  contains-Gives =
      searched
        (λ found succ s₁.
          if found
          then at_node succ (λ p.
            count_update tid key s₁ >>= λ s₂. done (not (value_of p s₂ == s₂.list.no_value), s₂))
          else done (false, s₁))
        (λ q s₁ st free lq at.
          counted (λ s₂. done (not (value_of q s₂ == s₂.list.no_value), s₂)) s₁ st free
            λ s₂ u. ensures (
              ap (λ x. not (x == s₂.list.no_value)) (shown_value q s₂ u)
                  ∙ ap (λ e. not (v.shown.value q == e)) (default_kept s₂ u)
                  ∙ sym (is_there-live d (v.shown.value q))
                  ∙ ap is_there (sym (at_live q lq at)),
              Serves-Settled low high d m s v s₂ u,
            ))
        λ succ s₁ st free absent. ensures (ap is_there (sym (at_absent absent)), kept s₁ st free)
