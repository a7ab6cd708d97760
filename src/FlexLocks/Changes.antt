-- ===== src/FlexLocks/Changes.antt =====
-- The operations that change what the list holds.
use mathlib.Core.Path.{subst}
use splaylist.Base.Memory.{upd-id, upd-same, upd-other}
use splaylist.Base.{
  ℕ, ◌<◌, ◌≡◌, ◌∙◌, sym, ap, true, Option, none, some, arith, ◌==◌, if◌then◌else◌, Bool-cases, inl,
  inr, ==→eq, ==→ne, ==_self, ◌≢◌, refl,
}
use splaylist.Base.Run.{done, ◌>>=◌, Ensures, ensures, Ensures-mono, Ensures-bind}
use splaylist.FlexSeq.State.{upd}
use splaylist.FlexSeq.View.{View}
use splaylist.FlexSeq.Client.{value_or}
use splaylist.FlexLocks.Shared.{LockList, on_list}
use splaylist.FlexLocks.Update.{update_with_insert}
use splaylist.FlexLocks.Ops.{
  at_node, value_of, set_value, count_update, revive, insert_if_absent, bury, erase,
}
use splaylist.FlexLocks.Levels.{Settled}
use splaylist.FlexLocks.Placing.{update_with_insert-IsPlaced}
use splaylist.FlexLocks.Serves.{
  live, Serves-ext, Serves, Serves-Settled, Serves-valued, Serves-placed,
}
use splaylist.FlexLocks.Calls.{
  first_of, live_none, live_some, head_lt, tail_gt, at_live, at_absent, searched, kept, shown_value,
  counted, Gives, default_back, value_back, default_kept,
}

module _ (low high d : ℕ) (m : ℕ → Option ℕ) (s : LockList) (v : Serves low high d m s)
    (tid key : ℕ) (above : low < key) (below : key < high) where
  -- The value of a node is written with the CAS, which succeeds.
  written :
      (q x : ℕ) (o : Option ℕ) (s₂ : LockList)
      → Settled v.shown s₂
      → q < v.shown.size
      → v.shown.key q ≡ key
      → o ≡ live d (some x)
      → Serves low high d (upd m key o) (on_list (set_value q x) s₂)
  written q x o s₂ u lq at e =
      let served = Serves-Settled low high d m s v s₂ u in
      subst (λ k. Serves low high d (upd m k o) (on_list (set_value q x) s₂))
        (u.updated.same.key q ∙ at)
        (Serves-valued low high d m s₂ served q x o (omega (arith, lq, u.updated.same.size)) e)

  -- Writing what the map says already.
  unchanged :
      (o : Option ℕ) (s₂ : LockList)
      → m key ≡ o
      → Serves low high d m s₂
      → Serves low high d (upd m key o) s₂
  unchanged o s₂ e w = Serves-ext low high d m s₂ w (upd m key o) (upd-id m key o e)

  pub erase-Gives :
      Ensures (Gives low high d m s v tid key above below (upd m key none)) (erase tid key s)
  unfolding erase bury
  erase-Gives =
      searched low high d m s v tid key above below
        (λ found succ s₁.
          if found
          then at_node succ (λ p. count_update tid key s₁ >>= λ s₂. bury 1 p (value_of p s₁) s₂)
          else done (s₁.list.no_value, s₁))
        (λ q s₁ st free lq at.
          counted low high d m s v tid key above below (λ s₂. bury 1 q (value_of q s₁) s₂) s₁ st
            free
            λ s₂ u.
              let back = value_back low high d m s v tid key above below q s₁ st lq at in
              let n = default_kept low high d m s v tid key above below s₂ u in
              let x : value_of q s₁ ≡ v.shown.value q = ap (λ (w : View ℕ). w.value q) st.shown in
              elim (Bool-cases (value_of q s₁ == s₂.list.no_value)) [
                | inl none_there ↦ rw none_there (
                    ensures (
                      back,
                      unchanged none s₂
                          (at_live low high d m s v tid key above below q lq at
                            ∙ live_none d (v.shown.value q)
                                (sym x ∙ ==→eq (value_of q s₁) s₂.list.no_value none_there ∙ n))
                          (Serves-Settled low high d m s v s₂ u),
                    ))
                | inr there ↦
                    let hit : (value_of q s₂ == value_of q s₁) ≡ true =
                      ap (λ y. y == value_of q s₁)
                        (shown_value low high d m s v tid key above below q s₂ u ∙ sym x)
                      ∙ ==_self (value_of q s₁) in
                    rw (there, hit)
                      (ensures (
                        back,
                        written q s₂.list.no_value none s₂ u lq at
                            (sym (live_none d s₂.list.no_value n)),
                      ))
              ])
        λ succ s₁ st free absent. ensures (
          default_back low high d m s v tid key above below s₁ st absent,
          unchanged none s₁ (at_absent low high d m s v tid key above below absent)
              (kept low high d m s v tid key above below s₁ st free),
        )

  -- The map after an insertion: a key that is there keeps its value.
  abbrev inserts : ℕ → ℕ → Option ℕ
  inserts x = upd m key (first_of d (m key) x)

  pub insert_if_absent-Gives :
      (x : ℕ)
      → Ensures
          (Gives low high d m s v tid key above below (inserts x))
          (insert_if_absent tid key x s)
  unfolding insert_if_absent revive
  insert_if_absent-Gives x =
      searched low high d m s v tid key above below
        (λ found succ s₁.
          if found
          then at_node succ (λ p. count_update tid key s₁ >>= λ s₂. revive 1 p (value_of p s₁) x s₂)
          else update_with_insert key x s₁)
        (λ q s₁ st free lq at.
          counted low high d m s v tid key above below (λ s₂. revive 1 q (value_of q s₁) x s₂) s₁ st
            free
            λ s₂ u.
              let back = value_back low high d m s v tid key above below q s₁ st lq at in
              let n = default_kept low high d m s v tid key above below s₂ u in
              let same : value_of q s₁ ≡ v.shown.value q =
                ap (λ (w : View ℕ). w.value q) st.shown in
              elim (Bool-cases (value_of q s₁ == s₂.list.no_value)) [
                | inl blank ↦
                    let now = ==→eq (value_of q s₁) s₂.list.no_value blank in
                    let gone : m key ≡ none =
                      at_live low high d m s v tid key above below q lq at
                      ∙ live_none d (v.shown.value q) (sym same ∙ now ∙ n) in
                    let still : (value_of q s₂ == s₂.list.no_value) ≡ true =
                      ap (λ y. y == s₂.list.no_value)
                        (shown_value low high d m s v tid key above below q s₂ u ∙ sym same)
                      ∙ blank in
                    rw (blank, still)
                      (ensures (
                        back,
                        written q x (first_of d (m key) x) s₂ u lq at
                            (ap (λ o. first_of d o x) gone),
                      ))
                | inr there ↦
                    let held : m key ≡ some (v.shown.value q) =
                      at_live low high d m s v tid key above below q lq at
                      ∙ live_some d (v.shown.value q)
                          (λ e. ==→ne (value_of q s₁) s₂.list.no_value there (same ∙ e ∙ sym n)) in
                    rw there (
                      ensures (
                        back,
                        unchanged (first_of d (m key) x) s₂
                            (held ∙ sym (ap (λ o. first_of d o x) held))
                            (Serves-Settled low high d m s v s₂ u),
                      ))
              ])
        λ succ s₁ st free absent.
          Ensures-mono
            (update_with_insert-IsPlaced v.shown key x s₁ v.linked st free absent
              (head_lt low high d m s v tid key above below)
              (tail_gt low high d m s v tid key above below))
            λ (y, s') placed. (
              placed.0
                  ∙ v.default
                  ∙ ap (value_or d) (sym (at_absent low high d m s v tid key above below absent)),
              Serves-placed low high d m s v key x y (first_of d (m key) x) s' absent
                  (ap (λ o. first_of d o x) (at_absent low high d m s v tid key above below absent))
                  placed,
            )

-- On a list that holds what a map says, with all locks free, `erase` after `insertIfAbsent` of a key that
-- the map does not have, with a value other than `noValue`, returns that value, and the list holds what the
-- map says again; the two calls may be made by different threads. The only other end is that the list
-- would need a level below 0.
pub erase-insert_if_absent :
    (low high d : ℕ) (m : ℕ → Option ℕ) (s : LockList) (tid tid' key x : ℕ)
    → Serves low high d m s
    → low < key
    → key < high
    → m key ≡ none
    → x ≢ d
    → Ensures
        (λ (y, s'). (y ≡ x) × Serves low high d m s')
        (insert_if_absent tid key x s >>= λ (z, s₁). erase tid' key s₁)
erase-insert_if_absent low high d m s tid tid' key x v above below absent n =
    let m₁ : ℕ → Option ℕ = upd m key (first_of d (m key) x) in
    let at : m₁ key ≡ some x =
      upd-same m key (first_of d (m key) x) key refl
      ∙ ap (λ o. first_of d o x) absent
      ∙ live_some d x n in
    let back : (k : ℕ) → m k ≡ upd m₁ key none k = λ k. elim (Bool-cases (k == key)) [
      | inl e ↦ ap m (==→eq k key e) ∙ absent ∙ sym (upd-same m₁ key none k (==→eq k key e))
      | inr off ↦
          let other = ==→ne k key off in
          sym (upd-other m key (first_of d (m key) x) k other) ∙ sym (upd-other m₁ key none k other)
    ] in
    Ensures-bind (insert_if_absent-Gives low high d m s v tid key above below x) λ (z, s₁) (e, w).
      Ensures-mono (erase-Gives low high d m₁ s₁ w tid' key above below) λ (y, s') (e', w').
        (e' ∙ ap (value_or d) at, Serves-ext low high d (upd m₁ key none) s' w' m back)
