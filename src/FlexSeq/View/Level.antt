-- ===== src/FlexSeq/View/Level.antt =====
-- A round of `update` along one level.
use Prim.Native.Nat.{max}
use mathlib.Core.Path.{subst}
use splaylist.Base.{
  ℕ, ◌≤◌, ◌<◌, ◌≡◌, ◌≢◌, ◌∙◌, ap, sym, Bool, true, false, Option, none, some, arith, ◌==◌,
  if◌then◌else◌, Bool-cases, inl, inr, ==→eq, ==→ne, ◌&&◌, not,
}
use splaylist.Base.Run.{done, Ensures, ensures, Ensures-bind, Ensures-bind_Returns}
use splaylist.FlexSeq.State.{FlexList, tail, read_next}
use splaylist.FlexSeq.Update.{Position, links_to, may_rise, may_fall, go_up, go_down, go_on}
use splaylist.FlexSeq.View.{View, StandsFor, Follows, IsLinked}
use splaylist.FlexSeq.View.Search.{read_next-done}
use splaylist.FlexSeq.View.Fallen.{MayFall, deepened}
use splaylist.FlexSeq.View.Steps.{top_shown, highest_shown}
use splaylist.FlexSeq.View.Rising.{Same, Same-refl, rise_loop-Raised}
use splaylist.FlexSeq.View.Falling.{Dropped, fall-Dropped}

module _ {ℓ} {V : Type ℓ} where
  -- The loop along level `h` for `key`: `cur` follows `pred`, and `predpred` is not after `pred`.
  pub record Walking (v : View V) (key h : ℕ) (p : Position V) : Type ℓ where
    pub linked : IsLinked v
    pub stands : StandsFor v p.list
    pub low : v.zero_level ≤ h
    pub inner : h < v.highest
    pub below : key < v.key tail
    pub follows : Follows v h p.pred p.cur
    pub live : p.pred < v.size
    pub before : v.key p.pred ≤ key
    pub wide : h ≤ v.top p.pred
    pub zero : (p.list.nodes p.pred).zero_level ≤ h
    pub pp_live : p.predpred < v.size
    pub pp_before : v.key p.predpred ≤ v.key p.pred
    pub pp_wide : h ≤ v.top p.predpred
    pub pp_zero : (p.list.nodes p.predpred).zero_level ≤ h

  -- After a round at `cur`: a linked view with the same contents, and `cur` has a greater key.
  pub record Rounded (v : View V) (key h cur : ℕ) (p : Position V) : Type ℓ where
    pub after : View V
    pub same : Same v after
    pub walking : Walking after key h p
    pub grows : v.key cur < v.key p.cur
    pub sinks : after.zero_level ≤ v.zero_level

  pub next_of :
      (v : View V) (s : FlexList V) (p h : ℕ)
      → IsLinked v
      → StandsFor v s
      → p < v.size
      → v.key p < v.key tail
      → v.zero_level ≤ h
      → h ≤ v.top p
      → (s.nodes p).zero_level ≤ h
      → (q : ℕ) × (read_next p h s ≡ done q) × Follows v h p q
  next_of v s p h linked st live lt low wide zp =
      let (q, e, f) = linked.links p h live lt low wide in (q, read_next-done v s p h q st zp e, f)

  links_to-next :
      (p h q : ℕ) (s : FlexList V) → links_to p h q s ≡ true → (s.nodes p).next h ≡ some q
  links_to-next p h q s = linked_at ((s.nodes p).next h)
    where
      linked_at : (o : Option ℕ) → elim o [ none ↦ false | some r ↦ r == q ] ≡ true → o ≡ some q
      linked_at none e = absurd cc
      linked_at (some r) e = ap (λ n. some n) (==→eq r q e)

  pub may_fall-top :
      (pred cur h : ℕ) (s : FlexList V) → may_fall pred cur h s ≡ true → (s.nodes cur).top_level ≡ h
  unfolding may_fall
  may_fall-top pred cur h s e = ground arith

  -- `cur` becomes both `predpred` and `pred`, or only `pred`.
  advanced :
      (v v' : View V) (key h pp cur : ℕ) (ok : Bool) (s' : FlexList V)
      → Same v v'
      → IsLinked v'
      → StandsFor v' s'
      → v'.zero_level ≤ h
      → v'.zero_level ≤ v.zero_level
      → h < v.highest
      → key < v.key tail
      → cur < v.size
      → v.key cur ≤ key
      → h ≤ v'.top cur
      → (s'.nodes cur).zero_level ≤ h
      → pp < v.size
      → v.key pp ≤ v.key cur
      → h ≤ v'.top pp
      → (s'.nodes pp).zero_level ≤ h
      → (q : ℕ) → Follows v' h cur q
      → Rounded v key h cur (record { ok = ok; predpred = pp; pred = cur; cur = q; list = s' })
  advanced v v' key h pp cur ok s' same linked st low sinks inner below live before wide zc pl pb pw
        pz q f =
      record {
        after = v';
        same = same;
        walking = record {
          linked = linked;
          stands = st;
          low = low;
          inner = omega (arith, same.highest, inner);
          below = omega (arith, same.key tail);
          follows = f;
          live = omega (arith, same.size);
          before = omega (arith, same.key cur);
          wide = wide;
          zero = zc;
          pp_live = omega (arith, same.size);
          pp_before = omega (arith, same.key pp, same.key cur);
          pp_wide = pw;
          pp_zero = pz;
        };
        grows = omega (arith, f.above, same.key cur, same.key q);
        sinks = sinks;
      }

  module _ (v : View V) (key h pp pred cur : ℕ) (ok : Bool) (s : FlexList V)
      (w : Walking v key h (record { ok = ok; predpred = pp; pred = pred; cur = cur; list = s }))
      (zc : (s.nodes cur).zero_level ≤ h) (le : v.key cur ≤ key) where
    go_up-Rounded : Follows v h pp cur → Ensures (Rounded v key h cur) (go_up h ok pp cur s)
    unfolding go_up
    go_up-Rounded f =
        Ensures-bind_Returns
          (rise_loop-Raised s.highest v pp cur (s.nodes cur).top_level h s w.linked w.stands
            w.pp_live f w.low (sym (top_shown v s cur w.stands)) w.pp_zero
            (omega (arith, w.inner, highest_shown v s w.stands))
            (omega (arith, highest_shown v s w.stands)))
          λ s' r.
            let wide : h ≤ r.after.top cur = omega (arith, r.higher, w.follows.reaches) in
            let z : (s'.nodes cur).zero_level ≤ h = omega (arith, r.zeros_kept cur) in
            let (q, e, fq) =
              next_of r.after s' cur h r.linked r.stands
                (omega (arith, r.same.size, w.follows.live))
                (omega (arith, r.same.key cur, r.same.key tail, w.below))
                (omega (arith, r.zero_kept, w.low)) wide z in
            rw e (
              ensures (
                advanced v r.after key h cur cur ok s' r.same r.linked r.stands
                  (omega (arith, r.zero_kept, w.low)) (omega (arith, r.zero_kept)) w.inner w.below
                  w.follows.live le wide z w.follows.live (omega arith) wide z q fq))

    go_on-Rounded : Ensures (Rounded v key h cur) (go_on h ok pp cur s)
    unfolding go_on
    go_on-Rounded =
        let wide = w.follows.reaches in
        let (q, e, fq) =
          next_of v s cur h w.linked w.stands w.follows.live (omega (arith, w.below)) w.low wide
            zc in
        rw e (
          ensures (
            advanced v v key h pp cur ok s (Same-refl v) w.linked w.stands w.low (omega arith)
              w.inner w.below w.follows.live le wide zc w.pp_live
              (omega (arith, w.pp_before, w.follows.above)) w.pp_wide w.pp_zero q fq))

    pub may_drop : v.top cur ≡ h → (z : ℕ) → z < h → MayFall (deepened v z) pred cur h
    may_drop t z room = record {
      live = w.live;
      wide = w.wide;
      follows = record {
        live = w.follows.live;
        above = w.follows.above;
        reaches = w.follows.reaches;
        least = w.follows.least;
      };
      height = t;
      room = room;
      limit = omega (arith, w.below);
      inner = w.inner;
    }

    -- The node behind `pred` after `cur` has left the level.
    after_drop :
        (s' : FlexList V) (d : Dropped v cur h s s') (q : ℕ)
        → Follows d.after h pred q
        → v.key cur < v.key q
    after_drop s' d q f =
        let other : q ≢ cur = λ e. absurd (omega (arith, f.reaches, d.dropped, ap d.after.top e)) in
        let live : q < v.size = omega (arith, f.live, d.same.size) in
        let le =
          w.follows.least q live (omega (arith, f.above, d.same.key pred, d.same.key q))
            (omega (arith, f.reaches, d.tops q other)) in
        elim (Bool-cases (v.key q == v.key cur)) [
          | inl e ↦
              absurd
                (other (w.linked.keys q cur live w.follows.live (==→eq (v.key q) (v.key cur) e)))
          | inr n ↦ omega (arith, ==→ne (v.key q) (v.key cur) n)
        ]

    go_down-Rounded :
        (s.nodes cur).top_level ≡ h → Ensures (Rounded v key h cur) (go_down h ok pp pred cur s)
    unfolding go_down
    go_down-Rounded t =
        Ensures-bind
          (fall-Dropped v pred cur h s w.linked w.stands w.low
            (may_drop (sym (top_shown v s cur w.stands) ∙ t)) w.zero zc)
          λ s' d.
            let a = d.after in
            let pred_other : pred ≢ cur =
              λ e. absurd (omega (arith, w.follows.above, ap v.key e)) in
            let pp_other : pp ≢ cur =
              λ e. absurd (omega (arith, w.pp_before, w.follows.above, ap v.key e)) in
            let wide : h ≤ a.top pred = omega (arith, d.tops pred pred_other, w.wide) in
            let live : pred < a.size = omega (arith, w.live, d.same.size) in
            let (q, e, fq) =
              next_of a s' pred h d.linked d.stands live
                (omega (arith, d.same.key pred, d.same.key tail, w.below, w.before))
                (omega (arith, d.low)) wide (d.zeros pred w.zero) in
            rw e (
              ensures (record {
                after = a;
                same = d.same;
                walking = record {
                  linked = d.linked;
                  stands = d.stands;
                  low = omega (arith, d.low);
                  inner = omega (arith, d.same.highest, w.inner);
                  below = omega (arith, d.same.key tail, w.below);
                  follows = fq;
                  live = live;
                  before = omega (arith, d.same.key pred, w.before);
                  wide = wide;
                  zero = d.zeros pred w.zero;
                  pp_live = omega (arith, w.pp_live, d.same.size);
                  pp_before = omega (arith, d.same.key pred, d.same.key pp, w.pp_before);
                  pp_wide = omega (arith, d.tops pp pp_other, w.pp_wide);
                  pp_zero = d.zeros pp w.pp_zero;
                };
                grows = after_drop s' d q fq;
                sinks = d.sinks;
              }))

    -- The node that `predpred` links to follows it.
    pub linked-Follows : links_to pp h cur s ≡ true → Follows v h pp cur
    linked-Follows e =
        let (q, eq, f) =
          w.linked.links pp h w.pp_live (omega (arith, w.below, w.before, w.pp_before)) w.low
            w.pp_wide in
        let at : max h (s.nodes pp).zero_level ≡ h = omega (arith, w.pp_zero) in
        let to_cur : v.link pp h ≡ some cur =
          sym (ap (λ (u : View V). u.link pp h) w.stands.shown)
          ∙ ap (s.nodes pp).next at
          ∙ links_to-next pp h cur s e in
        let same : q ≡ cur = cc in subst (Follows v h pp) same f

    -- The three branches of a round, for whatever the test on the next key says.
    pub branches-Rounded :
        (last : Bool)
        → Ensures (Rounded v key h cur) (
            if may_rise pp h s && links_to pp h cur s
            then go_up h ok pp cur s
            else if not last && may_fall pred cur h s
            then go_down h ok pp pred cur s
            else go_on h ok pp cur s)
    branches-Rounded last = elim (Bool-cases (may_rise pp h s && links_to pp h cur s)) [
      | inl e ↦ rw e (go_up-Rounded (linked-Follows (ground arith)))
      | inr e ↦ rw e (elim (Bool-cases (not last && may_fall pred cur h s)) [
        | inl d ↦ rw d (go_down-Rounded (may_fall-top pred cur h s (ground arith)))
        | inr n ↦ rw n go_on-Rounded
      ])
    ]
