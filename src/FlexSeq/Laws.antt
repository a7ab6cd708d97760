-- ===== src/FlexSeq/Laws.antt =====
-- What `find` promises of a list that stands for a linked view.
use splaylist.Base.{ℕ, ◌≤◌, ◌<◌, ◌≡◌, ◌≢◌, Bool, true, false, Option, some, arith}
use splaylist.Base.Run.{Returns, Returns-mono}
use splaylist.FlexSeq.State.{FlexList, head, tail}
use splaylist.FlexSeq.Find.{find}
use splaylist.FlexSeq.View.{View, StandsFor, IsLinked}
use splaylist.FlexSeq.View.Search.{Between, Found, find-Found}

module _ {ℓ} {V : Type ℓ} (v : View V) (linked : IsLinked v) (key : ℕ)
    (below : key ≤ v.key tail) where
  -- The answer `found` of a search, with the two nodes at which it ends.
  pub record Answer (found : Bool) (pred : ℕ) (succ : Option ℕ) (s : FlexList V) : Type ℓ where
    pub stands : StandsFor v s
    pub node : ℕ
    pub at : succ ≡ some node
    pub live : node < v.size
    pub present : found ≡ true → v.key node ≡ key
    pub absent : found ≡ false → (r : ℕ) → r < v.size → v.key r ≢ key
    pub bottom : found ≡ false → (s.nodes pred).zero_level ≤ v.zero_level
    pub gap : found ≡ false → Between v key v.zero_level pred node × (key < v.key node)

  abbrev pub Answered : Bool × ℕ × Option ℕ × FlexList V → Type ℓ
  Answered (found, pred, succ, s) = Answer found pred succ s

  Found-Answered : (r : Bool × ℕ × Option ℕ × FlexList V) → Found v linked key below r → Answered r
  Found-Answered (found, pred, succ, s) (st, (q, at, live, hit, miss)) = record {
    stands = st;
    node = q;
    at = at;
    live = live;
    present = hit;
    absent = λ n r lr same.
        let (b, lt, z) = miss n in
        absurd (omega (arith, b.follows.least r lr (omega (arith, b.before)) (linked.low r lr)));
    bottom = λ n. let (b, lt, z) = miss n in z;
    gap = λ n. let (b, lt, z) = miss n in (b, lt);
  }

  -- On a list that stands for a linked view, `find` of a key above that of `head` and at most that
  -- of `tail` returns, and what the list stands for is kept. It answers true only with the node that
  -- has the key as `succ`, and false only if no node has the key, with the two nodes around the key at
  -- the lowest level.
  pub find-Answered :
      (s : FlexList V) → StandsFor v s → v.key head < key → Returns Answered (find key s)
  find-Answered s st lt = Returns-mono (find-Found v linked key below s st lt) Found-Answered
