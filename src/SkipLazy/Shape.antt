-- ===== src/SkipLazy/Shape.antt =====
-- What the links of the list stand for.
pub mod Walk
pub mod Places
pub mod Inserted
pub mod Splice
use splaylist.Base.{
  ℕ, zero, suc, ◌+◌, ◌-◌, ◌≤◌, ◌<◌, ◌≡◌, ◌≢◌, ◌∙◌, refl, ap, sym, Bool, true, false, Option, none,
  some, arith, ◌==◌, ltb, leb, if◌then◌else◌, Bool-cases, Option-cases, inl, inr, ltb→lt, ltb→le,
  ==→eq, ==→ne, ◌&&◌, ◌||◌, ==_self, ne→==, not, trichotomy, ◌⊎◌,
}
use splaylist.Base.Run.{Run, done}
use splaylist.SkipLazy.State.{SkipList, max_level, head, tail, read_next}

-- The list without its values, locks and counters.
pub record Shape : Type 0 where
  pub size : ℕ
  pub key : ℕ → ℕ
  pub top : ℕ → ℕ
  pub link : ℕ → ℕ → Option ℕ
  pub linked : ℕ → Bool
  pub marked : ℕ → Bool

abbrev pub shape : SkipList → Shape
shape s = record {
  size = s.size;
  key = s.nodes.key;
  top = s.nodes.top_level;
  link = s.nodes.next;
  linked = s.nodes.fully_linked;
  marked = s.nodes.mark;
}

-- `q` is the node that follows `p` among the nodes that reach level `h`.
pub record Follows (w : Shape) (h p q : ℕ) : Type 0 where
  pub live : q < w.size
  pub above : w.key p < w.key q
  pub reaches : h ≤ w.top q
  pub least : (r : ℕ) → r < w.size → w.key p < w.key r → h ≤ w.top r → w.key q ≤ w.key r

-- The nodes have different keys between those of `head` and `tail`, and every node but `tail` is
-- linked, at each level that it reaches, to the node that follows it there.
pub record IsLinked (w : Shape) : Type 0 where
  pub sized : 1 < w.size
  pub head_top : w.top head ≡ max_level
  pub tail_top : w.top tail ≡ max_level
  pub keys : (p q : ℕ) → p < w.size → q < w.size → w.key p ≡ w.key q → p ≡ q
  pub above_head : (p : ℕ) → p < w.size → w.key head ≤ w.key p
  pub below_tail : (p : ℕ) → p < w.size → w.key p ≤ w.key tail
  pub unmarked : (p : ℕ) → p < w.size → w.marked p ≡ false
  pub is_linked :
      (p : ℕ) → p < w.size → w.key head < w.key p → w.key p < w.key tail → w.linked p ≡ true
  pub links :
      (p h : ℕ)
      → p < w.size
      → w.key p < w.key tail
      → h ≤ w.top p
      → (q : ℕ) × (w.link p h ≡ some q) × Follows w h p q

-- The key lies between `pred` and `succ`, or at `succ`, among the nodes that reach the level.
pub record Between (w : Shape) (key level pred succ : ℕ) : Type 0 where
  pub live : pred < w.size
  pub before : w.key pred < key
  pub wide : level ≤ w.top pred
  pub follows : Follows w level pred succ
  pub at_most : key ≤ w.key succ

-- No node has the key.
abbrev pub IsAbsent : Shape → ℕ → Type 0
IsAbsent w key = (r : ℕ) → r < w.size → w.key r ≢ key

-- Every node reaches level 0.
pub Between-IsAbsent :
    (w : Shape) (key pred succ : ℕ) → Between w key 0 pred succ → w.key succ ≢ key → IsAbsent w key
Between-IsAbsent w key pred succ b ne r live same =
    absurd
      (omega (arith, b.follows.least r live (omega (arith, b.before)) (omega arith), b.at_most, ne))

pub next_of :
    (s : SkipList) (p h : ℕ)
    → IsLinked (shape s)
    → p < s.size
    → s.nodes.key p < s.nodes.key tail
    → h ≤ s.nodes.top_level p
    → (q : ℕ) × (read_next p h s ≡ done q) × Follows (shape s) h p q
next_of s p h linked live lt wide =
    let (q, e, f) = linked.links p h live lt wide in (q, (rw (e, read_next) refl), f)
