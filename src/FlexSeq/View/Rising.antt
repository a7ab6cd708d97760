-- ===== src/FlexSeq/View/Rising.antt =====
-- The loop that lets a node rise.
use splaylist.Base.{ℕ, zero, suc, ◌+◌, ◌≤◌, ◌<◌, ◌≡◌, ◌∙◌, refl, true, arith, Bool-cases, inl, inr}
use splaylist.Base.Run.{Returns, returns, Returns-mono}
use splaylist.FlexSeq.State.{FlexList}
use splaylist.FlexSeq.Update.{may_rise, rise, rise_loop}
use splaylist.FlexSeq.View.{View, StandsFor, Follows, IsLinked}
use splaylist.FlexSeq.View.Risen.{risen, MayRise, Follows-risen, risen-IsLinked}
use splaylist.FlexSeq.View.Moves.{zero-rise}
use splaylist.FlexSeq.View.Steps.{rise-StandsFor, top_shown, highest_shown}

module _ {ℓ} {V : Type ℓ} where
  -- The same keys and values in the same nodes.
  pub record Same (v w : View V) : Type ℓ where
    pub size : w.size ≡ v.size
    pub highest : w.highest ≡ v.highest
    pub no_value : w.no_value ≡ v.no_value
    pub key : (p : ℕ) → w.key p ≡ v.key p
    pub value : (p : ℕ) → w.value p ≡ v.value p

  pub Same-refl : (v : View V) → Same v v
  Same-refl v = record {
    size = refl;
    highest = refl;
    no_value = refl;
    key = λ p. refl;
    value = λ p. refl;
  }

  pub Same-trans : (u v w : View V) → Same u v → Same v w → Same u w
  Same-trans u v w a b = record {
    size = b.size ∙ a.size;
    highest = b.highest ∙ a.highest;
    no_value = b.no_value ∙ a.no_value;
    key = λ p. b.key p ∙ a.key p;
    value = λ p. b.value p ∙ a.value p;
  }

  -- The list after `cur` has risen: it stands for a linked view with the same contents.
  pub record Raised (v : View V) (cur : ℕ) (s s' : FlexList V) : Type ℓ where
    pub after : View V
    pub same : Same v after
    pub linked : IsLinked after
    pub stands : StandsFor after s'
    pub zero_kept : after.zero_level ≡ v.zero_level
    pub zeros_kept : (q : ℕ) → (s'.nodes q).zero_level ≡ (s.nodes q).zero_level
    pub higher : v.top cur ≤ after.top cur

  pub may_rise-bounds :
      (pp c : ℕ) (s : FlexList V)
      → may_rise pp c s ≡ true
      → (c + 1 < s.highest) × (c < (s.nodes pp).top_level)
  unfolding may_rise
  may_rise-bounds pp c s e = (ground arith, ground arith)

  -- A node that rises stays behind the same one, at the levels below.
  risen-Raised :
      (v : View V) (linked : IsLinked v) (pp cur c : ℕ) (s s' : FlexList V)
      → MayRise v pp cur c
      → Raised (risen v pp cur c) cur (rise pp cur c s) s'
      → Raised v cur s s'
  risen-Raised v linked pp cur c s s' m r = record {
    after = r.after;
    same = record {
      size = r.same.size;
      highest = r.same.highest;
      no_value = r.same.no_value;
      key = r.same.key;
      value = r.same.value;
    };
    linked = r.linked;
    stands = r.stands;
    zero_kept = r.zero_kept;
    zeros_kept = λ q. r.zeros_kept q ∙ zero-rise pp cur c q s;
    higher =
        let top : (risen v pp cur c).top cur ≡ c + 1 = ground arith in
        omega (arith, r.higher, m.height);
  }

  -- `highest` rounds are enough: no node rises above the levels that there are.
  pub rise_loop-Raised :
      (fuel : ℕ) (v : View V) (pp cur c h : ℕ) (s : FlexList V)
      → IsLinked v
      → StandsFor v s
      → pp < v.size
      → Follows v h pp cur
      → v.zero_level ≤ h
      → v.top cur ≡ c
      → (s.nodes pp).zero_level ≤ h
      → 0 < fuel
      → v.highest ≤ c + fuel
      → Returns (Raised v cur s) (rise_loop fuel pp cur c s)
  unfolding rise_loop
  rise_loop-Raised zero v pp cur c h s linked st live f low t zp pos fuel = absurd (omega arith)
  rise_loop-Raised (suc n) v pp cur c h s linked st live f low t zp pos fuel =
      elim (Bool-cases (may_rise pp c s)) [
        | inr stay ↦ rw stay (
            returns (record {
              after = v;
              same = Same-refl v;
              linked = linked;
              stands = st;
              zero_kept = refl;
              zeros_kept = λ q. refl;
              higher = omega arith;
            }))
        | inl go ↦
            let (lim, room) = may_rise-bounds pp c s go in
            let m : MayRise v pp cur c = record {
              from = h;
              live = live;
              follows = f;
              low = low;
              deep = omega (arith, f.reaches);
              height = t;
              room = omega (arith, top_shown v s pp st);
              limit = omega (arith, lim, highest_shown v s st);
            } in
            rw go (
              Returns-mono
                (rise_loop-Raised n (risen v pp cur c) pp cur (c + 1) h (rise pp cur c s)
                  (risen-IsLinked v linked pp cur c m)
                  (rise-StandsFor v pp cur c s st m (omega (arith, f.reaches))) live
                  (Follows-risen v linked pp cur c m h pp cur f
                    λ e. absurd (omega (arith, f.reaches)))
                  low (ground arith) (omega (arith, zero-rise pp cur c pp s)) (omega arith)
                  (omega arith))
                λ s' r. risen-Raised v linked pp cur c s s' m r)
      ]
