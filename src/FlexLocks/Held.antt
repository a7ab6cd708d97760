-- ===== src/FlexLocks/Held.antt =====
-- Which locks the thread holds, before and after the small operations.
use splaylist.Base.{
  ℕ, ◌≤◌, ◌<◌, ◌≡◌, ◌∙◌, refl, sym, ap, Bool, true, false, arith, ◌==◌, ◌||◌, ◌≢◌, ltb, Bool-cases,
  inl, inr, ltb→le, ==→eq, ==→ne, ◌&&◌, ne→==, if◌then◌else◌,
}
use splaylist.Base.Memory.{upd-same, upd-other}
use splaylist.Base.Run.{Run, done, ◌>>=◌, Returns, returns, Ensures}
use splaylist.FlexSeq.State.{FlexList, upd}
use splaylist.FlexSeq.View.{View, StandsFor}
use splaylist.FlexSeq.View.Lowering.{Lowered, lower_to-Lowered}
use splaylist.FlexLocks.Update.{release_other}
use splaylist.FlexLocks.Shared.{LockList, acquire_lock, release_lock, lower_locked}

-- The locks that are held are those of the nodes where `f` is true.
abbrev pub Holds : (ℕ → Bool) → LockList → Type 0
Holds f s = (j : ℕ) → s.lock j ≡ f j

abbrev pub AreFree : LockList → Type 0
AreFree s = Holds (λ j. false) s

pub acquire_lock_free :
    (p : ℕ) (s : LockList)
    → s.lock p ≡ false
    → acquire_lock p s ≡ done (record s { lock = upd s.lock p true })
unfolding acquire_lock
acquire_lock_free p s free = rw free refl

pub or_same : (b : Bool) → (b || b) ≡ b
or_same true = refl
or_same false = refl

-- A lock that is taken and given back.
pub put_back : (f : ℕ → Bool) (p : ℕ) → f p ≡ false → (j : ℕ) → upd (upd f p true) p false j ≡ f j
put_back f p free j = elim (Bool-cases (j == p)) [
  | inl e ↦ let at = ==→eq j p e in upd-same (upd f p true) p false j at ∙ sym free ∙ sym (ap f at)
  | inr n ↦
      let off = ==→ne j p n in upd-other (upd f p true) p false j off ∙ upd-other f p true j off
]

-- A step on the list under the locks that are held, and what follows it.
module _ {ℓ κ μ} {B : Type ℓ} {P : FlexList ℕ → Type κ} {Q : B → Type μ} (s : LockList)
    (k : LockList → Run B) where
  pub Returns-run_list :
      {m : Run (FlexList ℕ)}
      → Returns P m
      → ((l : FlexList ℕ) → P l → Returns Q (k (record s { list = l })))
      → Returns Q ((m >>= λ l. done (record s { list = l })) >>= k)
  Returns-run_list (returns p) next = next _ p

  pub Ensures-run_list_Returns :
      {m : Run (FlexList ℕ)}
      → Returns P m
      → ((l : FlexList ℕ) → P l → Ensures Q (k (record s { list = l })))
      → Ensures Q ((m >>= λ l. done (record s { list = l })) >>= k)
  Ensures-run_list_Returns (returns p) next = next _ p

-- The node is lowered, and no lock is kept.
pub record LoweredHere (v : View ℕ) (s : LockList) (p h : ℕ) (s' : LockList) : Type 0 where
  pub lowered : Lowered v s.list p h s'.list
  pub locks : Holds s.lock s'

pub lower_locked-LoweredHere :
    (v : View ℕ) (p h : ℕ) (s : LockList)
    → StandsFor v s.list
    → v.zero_level ≤ h
    → p < v.size
    → s.lock p ≡ false
    → Returns (LoweredHere v s p h) (lower_locked p h s)
unfolding lower_locked release_lock
lower_locked-LoweredHere v p h s st low live free =
    elim (Bool-cases (ltb h (s.list.nodes p).zero_level)) [
      | inl above ↦
          rw (above, acquire_lock_free p s free)
            (Returns-run_list (record s { lock = upd s.lock p true })
              (λ s₂. done (release_lock p s₂)) (lower_to-Lowered v p h s.list st low live)
              λ l w. returns (record { lowered = w; locks = put_back s.lock p free }))
      | inr at ↦ rw at (
          returns (record {
            lowered = record {
              stands = st;
              reached = ltb→le h (s.list.nodes p).zero_level at;
              kept = λ q. omega arith;
            };
            locks = λ j. refl;
          }))
    ]

-- The lock of `q` is left when that of another node `p` is given back.
pub release_other_held :
    (p q : ℕ) (s : LockList)
    → Holds (λ j. (j == p) || (j == q)) s
    → Holds (λ j. j == q) (release_other p q s)
unfolding release_lock
release_other_held p q s held j = elim (Bool-cases (p == q)) [
  | inl e ↦
      let same : p ≡ q = ==→eq p q e in
      rw e (held j ∙ ap (λ r. (j == r) || (j == q)) same ∙ or_same (j == q))
  | inr n ↦ rw n (elim (Bool-cases (j == p)) [
    | inl e ↦ rw e (sym (ap (λ r. r == q) (==→eq j p e) ∙ n))
    | inr o ↦ rw o (held j ∙ rw o refl)
  ])
]

-- The last lock is given back.
pub release_last : (p : ℕ) (s : LockList) → Holds (λ j. j == p) s → AreFree (release_lock p s)
unfolding release_lock
release_last p s held j = elim (Bool-cases (j == p)) [
  | inl e ↦ rw e refl
  | inr n ↦ rw n (held j ∙ n)
]

pub or_false : (b : Bool) → (b || false) ≡ b
or_false true = refl
or_false false = refl

-- The locks once that of `cur` is taken too.
pub lock_taken :
    (f : ℕ → Bool) (pp cur : ℕ)
    → ((j : ℕ) → f j ≡ ((j == pp) || false))
    → (j : ℕ) → upd f cur true j ≡ ((j == pp) || (j == cur))
lock_taken f pp cur at j = elim (Bool-cases (j == cur)) [
  | inl e ↦ rw e (elim (Bool-cases (j == pp)) [ inl o ↦ rw o refl | inr o ↦ rw o refl ])
  | inr n ↦ rw n (at j)
]

-- The lock of `predpred` is given back, and only that of `cur` is left.
pub lock_moved :
    (f : ℕ → Bool) (pp cur : ℕ)
    → ((j : ℕ) → f j ≡ ((j == pp) || (j == cur)))
    → pp ≢ cur
    → (b : Bool) (j : ℕ) → upd f pp false j ≡ ((j == cur) || (b && (j == cur)))
lock_moved f pp cur at n b j = elim (Bool-cases (j == pp)) [
  | inl e ↦
      let off : (j == cur) ≡ false = ne→== j cur (λ same. n (sym (==→eq j pp e) ∙ same)) in
      rw (e, off) (ground arith)
  | inr o ↦
      rw (o, at j, o)
        (elim (Bool-cases (j == cur)) [ inl e ↦ rw e refl | inr e ↦ rw e (ground arith) ])
]

-- Two locks that are taken and given back.
pub put_back_two :
    (f : ℕ → Bool) (p q : ℕ)
    → f p ≡ false
    → f q ≡ false
    → (j : ℕ) → upd (upd (upd (upd f p true) q true) p false) q false j ≡ f j
put_back_two f p q fp fq j = elim (Bool-cases (j == q)) [
  | inl e ↦ rw e (sym (ap f (==→eq j q e) ∙ fq))
  | inr n ↦ rw n (elim (Bool-cases (j == p)) [
    | inl e ↦ rw e (sym (ap f (==→eq j p e) ∙ fp))
    | inr o ↦ rw o refl
  ])
]

-- The locks around `insert`: that of the new node `n` is taken and given back.
pub insert_locks_one :
    (f : ℕ → Bool) (pred n : ℕ)
    → ((j : ℕ) → f j ≡ (j == pred))
    → n ≢ pred
    → (j : ℕ) → upd (upd (upd f n false) n true) n false j ≡ (j == pred)
insert_locks_one f pred n held other j = elim (Bool-cases (j == n)) [
  | inl e ↦ rw e (sym (ne→== j pred (λ same. other (sym (==→eq j n e) ∙ same))))
  | inr off ↦ rw off (held j)
]

-- The locks of `predpred` and of the new node `n` are given back.
pub insert_locks :
    (f : ℕ → Bool) (pp pred n : ℕ)
    → ((j : ℕ) → f j ≡ ((j == pp) || (j == pred)))
    → n ≢ pred
    → (j : ℕ)
    → upd
        (if pp == pred
          then upd (upd f n false) n true
          else upd (upd (upd f n false) n true) pp false)
        n
        false
        j
      ≡ (j == pred)
insert_locks f pp pred n held other j = elim (Bool-cases (j == n)) [
  | inl e ↦ rw e (sym (ne→== j pred (λ same. other (sym (==→eq j n e) ∙ same))))
  | inr off ↦ elim (Bool-cases (pp == pred)) [
    | inl same ↦
        let at : (j == pp) ≡ (j == pred) = ap (λ r. j == r) (==→eq pp pred same) in
        rw (off, same, off)
          (held j
            ∙ elim (Bool-cases (j == pred)) [ inl e ↦ rw (at, e) refl | inr o ↦ rw (at, o) refl ])
    | inr two ↦ elim (Bool-cases (j == pp)) [
      | inl e ↦ rw (off, two, e) (sym (ap (λ r. r == pred) (==→eq j pp e) ∙ two))
      | inr o ↦ rw (off, two, o, off) (held j ∙ rw o refl)
    ]
  ]
]
