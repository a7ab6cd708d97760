-- ===== src/FlexSeq/View.antt =====
-- What the links of the list stand for. A node has its links from its own zero level upwards; the
-- link at a level below is the one at the zero level.
pub mod Lowering
pub mod Search
pub mod Risen
pub mod Fallen
pub mod Moves
pub mod Steps
pub mod Rising
pub mod Falling
pub mod Level
pub mod Round
pub mod Updating
pub mod Inserted
pub mod Inserting
use Prim.Native.Nat.{max}
use mathlib.Core.Path.{fun_ext}
use splaylist.Base.{
  ℕ, suc, ◌+◌, ◌≤◌, ◌<◌, ◌≡◌, ◌≢◌, refl, ap, Option, none, some, arith, ◌==◌, if◌then◌else◌,
}
use splaylist.FlexSeq.State.{FlexList, Node, max_level, head, tail}

-- The list without its counters.
pub record View {ℓ} (V : Type ℓ) : Type ℓ where
  pub size : ℕ
  pub highest : ℕ
  pub zero_level : ℕ
  pub no_value : V
  pub key : ℕ → ℕ
  pub value : ℕ → V
  pub top : ℕ → ℕ
  pub link : ℕ → ℕ → Option ℕ

module _ {ℓ} {V : Type ℓ} where
  -- The link of `p` at level `h`, whether it is written out yet or not.
  abbrev pub link_of : FlexList V → ℕ → ℕ → Option ℕ
  link_of s p h = (s.nodes p).next (max h (s.nodes p).zero_level)

  abbrev pub view : FlexList V → View V
  view s = record {
    size = s.size;
    highest = s.highest;
    zero_level = s.zero_level;
    no_value = s.no_value;
    key = λ p. (s.nodes p).key;
    value = λ p. (s.nodes p).value;
    top = λ p. (s.nodes p).top_level;
    link = link_of s;
  }

  -- `q` is the node that follows `p` among the nodes that reach level `h`: the one with the least key
  -- above that of `p`.
  pub record Follows (v : View V) (h p q : ℕ) : Type 0 where
    pub live : q < v.size
    pub above : v.key p < v.key q
    pub reaches : h ≤ v.top q
    pub least : (r : ℕ) → r < v.size → v.key p < v.key r → h ≤ v.top r → v.key q ≤ v.key r

  -- The nodes have different keys between those of `head` and `tail`, and every node but `tail` is
  -- linked, at each level that it reaches, to the node that follows it there.
  pub record IsLinked (v : View V) : Type ℓ where
    pub sized : 1 < v.size
    pub shallow : v.zero_level < v.highest
    pub head_top : v.top head ≡ v.highest
    pub tail_top : v.top tail ≡ v.highest
    pub low : (p : ℕ) → p < v.size → v.zero_level ≤ v.top p
    pub keys : (p q : ℕ) → p < v.size → q < v.size → v.key p ≡ v.key q → p ≡ q
    pub above_head : (p : ℕ) → p < v.size → v.key head ≤ v.key p
    pub below_tail : (p : ℕ) → p < v.size → v.key p ≤ v.key tail
    pub links :
        (p h : ℕ)
        → p < v.size
        → v.key p < v.key tail
        → v.zero_level ≤ h
        → h ≤ v.top p
        → (q : ℕ) × (v.link p h ≡ some q) × Follows v h p q

  -- The levels of each node: its own lowest lies between that of the list and its highest.
  abbrev pub HasLevels : FlexList V → Type 0
  HasLevels s =
      (p : ℕ)
      → p < s.size
      → (s.zero_level ≤ (s.nodes p).zero_level)
        × ((s.nodes p).zero_level ≤ (s.nodes p).top_level)
        × ((s.nodes p).top_level ≤ s.highest)

  -- The list `s` stands for `v`.
  pub record StandsFor (v : View V) (s : FlexList V) : Type ℓ where
    pub shown : view s ≡ v
    pub levels : HasLevels s

  -- Two views are equal if they agree everywhere.
  pub View-ext :
      (v w : View V)
      → v.size ≡ w.size
      → v.highest ≡ w.highest
      → v.zero_level ≡ w.zero_level
      → v.no_value ≡ w.no_value
      → ((p : ℕ) → v.key p ≡ w.key p)
      → ((p : ℕ) → v.value p ≡ w.value p)
      → ((p : ℕ) → v.top p ≡ w.top p)
      → ((p h : ℕ) → v.link p h ≡ w.link p h)
      → v ≡ w
  View-ext v w a m b c k x t l = λ i. record {
    size = a i;
    highest = m i;
    zero_level = b i;
    no_value = c i;
    key = λ p. k p i;
    value = λ p. x p i;
    top = λ p. t p i;
    link = λ p h. l p h i;
  }
