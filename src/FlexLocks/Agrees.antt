-- ===== src/FlexLocks/Agrees.antt =====
-- The loop of `update` along a level, with and without the locks.
use mathlib.Core.Path.{subst}
use splaylist.Base.{
  ℕ, zero, suc, ◌+◌, ◌≤◌, ◌<◌, ◌≡◌, ◌≢◌, ◌∙◌, refl, sym, ap, Bool, true, false, ◌||◌, ◌&&◌, not,
  Option, none, some, arith, ◌==◌, ltb, leb, if◌then◌else◌, Bool-cases, inl, inr, ltb→le, ne→==,
}
use splaylist.Base.Run.{
  Run, done, stuck, ◌>>=◌, Returns, returns, Shadows, both_done, both_stuck, Shadows-mono,
  Shadows-bind_Ensures,
}
use splaylist.FlexSeq.State.{FlexList, upd, lower_to, lower}
use splaylist.FlexSeq.Update.{count_hit, may_rise, links_to, may_fall}
use splaylist.FlexSeq.Update
use splaylist.FlexSeq.View.{View, StandsFor}
use splaylist.FlexSeq.View.Lowering.{lower_to-Lowered}
use splaylist.FlexSeq.View.Search.{key_shown}
use splaylist.FlexSeq.View.Steps.{count_hit-Counted, Counted-StandsFor}
use splaylist.FlexSeq.View.Level.{Walking, next_of}
use splaylist.FlexSeq.View.Round.{walk_in, round-Rounded}
use splaylist.FlexLocks.Shared.{LockList, lower_locked, release_lock}
use splaylist.FlexLocks.Walk.{
  Position, count_step, count_locked, go_up, go_down, go_on, round, walk_level,
}
use splaylist.FlexLocks.Held.{acquire_lock_free, LoweredHere, put_back, or_false, lock_taken}
use splaylist.FlexLocks.Branches.{plain, HoldsAt}
use splaylist.FlexLocks.Falls.{branches-Shadows}
use splaylist.FlexLocks.Rounds.{count_locked_past, count_locked_before}

returned {ℓ κ} :
    {A : Type ℓ} {P : A → Type κ} {m : Run A} → Returns P m → (a : A) × (m ≡ done a) × P a
returned (returns p) = (_, refl, p)

lower_at :
    (fuel p h : ℕ) (l : FlexList ℕ)
    → 0 < fuel
    → ltb h (l.nodes p).zero_level ≡ false
    → lower fuel p h l ≡ done l
unfolding lower
lower_at zero p h l some_fuel at = absurd (omega arith)
lower_at (suc fuel) p h l some_fuel at = rw at refl

-- The node is lowered alike.
pub lower_both :
    (v : View ℕ) (p h : ℕ) (s : LockList)
    → StandsFor v s.list
    → v.zero_level ≤ h
    → p < v.size
    → s.lock p ≡ false
    → (s' : LockList) × (lower_locked p h s ≡ done s')
      × (lower_to p h s.list ≡ done (s'.list))
      × LoweredHere v s p h s'
unfolding lower_locked release_lock lower_to lower
lower_both v p h s st low live free =
    let (l, e, w) = returned (lower_to-Lowered v p h s.list st low live) in
    elim (Bool-cases (ltb h (s.list.nodes p).zero_level)) [
      | inl above ↦ (
        record s { list = l; lock = upd (upd s.lock p true) p false },
        rw (above, acquire_lock_free p s free, e) refl,
        e,
        record { lowered = w; locks = put_back s.lock p free },
      )
      | inr at ↦ (
        s,
        rw at refl,
        lower_at (s.list.highest + 1) p h s.list (omega arith) at,
        record {
          lowered = record {
            stands = st;
            reached = ltb→le h (s.list.nodes p).zero_level at;
            kept = λ q. omega arith;
          };
          locks = λ j. refl;
        },
      )
    ]

lower_both-bind {ℓ μ κ} :
    {A : Type ℓ} {B : Type μ} {erase : A → B} {R : A → Type κ} (k : LockList → Run A)
    (k' : FlexList ℕ → Run B) (v : View ℕ) (p h : ℕ) (s : LockList)
    → StandsFor v s.list
    → v.zero_level ≤ h
    → p < v.size
    → s.lock p ≡ false
    → ((s' : LockList) → LoweredHere v s p h s' → Shadows erase R (k s') (k' s'.list))
    → Shadows erase R (lower_locked p h s >>= k) (lower_to p h s.list >>= k')
lower_both-bind k k' v p h s st low live free next =
    let (s', locked, unlocked, l) = lower_both v p h s st low live free in
    rw (locked, unlocked) (next s' l)

-- The rest of a round, once it is known whether the next key is greater.
abbrev locked_rest : ℕ → ℕ → Position → Bool → Run (Bool × Bool × LockList) → Run Position
locked_rest key h p past counted = do
  (acquired, ok, s) ← counted
  if may_rise p.predpred h s.list && links_to p.predpred h p.cur s.list
      then go_up h acquired ok p.predpred p.cur s
      else if not past && may_fall p.pred p.cur h s.list
      then go_down key h ok p.predpred p.pred p.cur s
      else go_on h ok p.predpred p.cur s

abbrev plain_rest : ℕ → ℕ → Position → Bool → FlexList ℕ → Run (splaylist.FlexSeq.Update.Position ℕ)
plain_rest key h p past l =
    let l₃ = if past then count_hit key h p.cur l else l in
    let ok = if past && ((l.nodes p.cur).key == key) then true else p.ok in
    if may_rise p.predpred h l₃ && links_to p.predpred h p.cur l₃
    then splaylist.FlexSeq.Update.go_up h ok p.predpred p.cur l₃
    else if not past && may_fall p.pred p.cur h l₃
    then splaylist.FlexSeq.Update.go_down h ok p.predpred p.pred p.cur l₃
    else splaylist.FlexSeq.Update.go_on h ok p.predpred p.cur l₃

round-Shadows :
    (v : View ℕ) (key h : ℕ) (p : Position)
    → Walking v key h (plain p)
    → v.key p.cur ≤ key
    → HoldsAt key p
    → Shadows plain
        (HoldsAt key)
        (round count_hit key h p)
        (splaylist.FlexSeq.Update.round key h (plain p))
unfolding round splaylist.FlexSeq.Update.round
round-Shadows v key h p w le held =
    let k = key_shown v p.state.list p.cur w.stands in
    let before : ltb key (p.state.list.nodes p.cur).key ≡ false = ground arith in
    let pp_other : p.cur ≢ p.predpred =
      λ same. absurd (omega (arith, w.pp_before, w.follows.above, ap v.key same)) in
    let only_pp : (j : ℕ) → p.state.lock j ≡ ((j == p.predpred) || false) =
      λ j. held j ∙ ap (λ b. (j == p.predpred) || (b && (j == p.pred))) before in
    let free : p.state.lock p.cur ≡ false =
      only_pp p.cur ∙ or_false (p.cur == p.predpred) ∙ ne→== p.cur p.predpred pp_other in
    lower_both-bind _ _ v p.cur h p.state w.stands w.low w.follows.live free λ s₁ l.
      let s₂ = count_step s₁ in
      let st₂ : StandsFor v s₂.list = record {
        shown = l.lowered.stands.shown;
        levels = l.lowered.stands.levels;
      } in
      let (n, e, f) =
        next_of v s₂.list p.cur h w.linked st₂ w.follows.live (omega (arith, w.below)) w.low
          w.follows.reaches l.lowered.reached in
      let held₂ : (j : ℕ) → s₂.lock j ≡ ((j == p.predpred) || false) = λ j. l.locks j ∙ only_pp j in
      rw e (elim (Bool-cases (ltb key (s₂.list.nodes n).key)) [
        | inl past ↦
            let lt : key < (s₂.list.nodes n).key = ground arith in
            let ok = if (s₂.list.nodes p.cur).key == key then true else p.ok in
            let c = count_hit-Counted key h p.cur s₂.list in
            let s₃ = record s₂ {
              list = count_hit key h p.cur s₂.list;
              lock = upd s₂.lock p.cur true;
            } in
            let w₃ =
              walk_in v key h (plain p) ok s₃.list w (Counted-StandsFor v s₂.list s₃.list c st₂)
                (λ q. omega (arith, c.zero q, l.lowered.kept q)) in
            subst
              (λ b.
                Shadows plain (HoldsAt key)
                  (locked_rest key h p b (count_locked count_hit key h p.ok p.cur n s₂))
                  (plain_rest key h p b s₂.list))
              (sym past)
              (rw (count_locked_past count_hit key h p.cur n p.ok s₂ e (l.locks p.cur ∙ free) lt) (
                Shadows-mono
                  (branches-Shadows v key h p.predpred p.pred p.cur ok s₃ w₃
                    (omega (arith, c.zero p.cur, l.lowered.reached)) le n true
                    (ap (λ (g : ℕ → Option ℕ). elim (g h) [ none ↦ stuck | some q ↦ done q ])
                        (c.next p.cur)
                      ∙ e)
                    f (ap (ltb key) (c.key n) ∙ past) (lock_taken s₂.lock p.predpred p.cur held₂))
                  λ p' kept. kept.0))
        | inr early ↦
            let w₃ = walk_in v key h (plain p) p.ok s₂.list w st₂ l.lowered.kept in
            subst
              (λ b.
                Shadows plain (HoldsAt key)
                  (locked_rest key h p b (count_locked count_hit key h p.ok p.cur n s₂))
                  (plain_rest key h p b s₂.list))
              (sym early)
              (rw (count_locked_before count_hit key h p.cur n p.ok s₂ early) (
                Shadows-mono
                  (branches-Shadows v key h p.predpred p.pred p.cur p.ok s₂ w₃ l.lowered.reached le
                    n false e f early held₂)
                  λ p' kept. kept.0))
      ])

pub walk_level-Shadows :
    (fuel : ℕ) (v : View ℕ) (key h : ℕ) (p : Position)
    → Walking v key h (plain p)
    → HoldsAt key p
    → Shadows plain
        (HoldsAt key)
        (walk_level count_hit fuel key h p)
        (splaylist.FlexSeq.Update.walk_level fuel key h (plain p))
unfolding walk_level splaylist.FlexSeq.Update.walk_level
walk_level-Shadows zero v key h p w held = both_stuck
walk_level-Shadows (suc n) v key h p w held =
    let k = key_shown v p.state.list p.cur w.stands in
    elim (Bool-cases (leb (p.state.list.nodes p.cur).key key)) [
      | inl more ↦
          let le : v.key p.cur ≤ key = ground arith in
          rw more (
            Shadows-bind_Ensures _ (round-Shadows v key h p w le held)
              (round-Rounded v key h (plain p) w le)
              λ p' held' r. walk_level-Shadows n r.after key h p' r.walking held')
      | inr stop ↦ rw stop (both_done held)
    ]
