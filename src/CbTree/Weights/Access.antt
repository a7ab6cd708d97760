-- ===== src/CbTree/Weights/Access.antt =====
-- A search adds one access to the node that it ends at, and one to every weight above.
use splaylist.Base.{
  ap, ◌∙◌, ℕ, ◌+◌, ◌^◌, ◌<◌, ◌≡◌, refl, Bool, true, false, Option, none, some, List, [], ◌∷◌, ◌++◌,
  arith,
}
use splaylist.Base.Int.{ℤ, pos, pos_part, neg_part, ◌+ℤ◌, ◌-ℤ◌, int_laws, eq_of_parts}
use splaylist.CbTree.Tree.{Tree, leaf, node, weight, own_count, bump, set_child, subtree_at}
use splaylist.CbTree.Search.{put_back}
use splaylist.CbTree.Walk.{child, Towards, Ends}
use splaylist.CbTree.Walk.Induction.{IsKept}
use splaylist.CbTree.Weights.{IsWeighted, weight_nonneg, counts}
use splaylist.CbTree.Weights.Rotation.{
  SameCounts, rotate-SameCounts, rotate_double-SameCounts, IsWeighted-child,
}

-- The second list is the first with one more access at one entry with key `q`.
pub data OneMore (q : ℕ) : List (ℕ × ℤ) → List (ℕ × ℤ) → Type 0 where
  here : {c : ℤ} {xs : List (ℕ × ℤ)} → OneMore q ((q, c) ∷ xs) ((q, c +ℤ pos 1) ∷ xs)
  there : {x : ℕ × ℤ} {xs ys : List (ℕ × ℤ)} → OneMore q xs ys → OneMore q (x ∷ xs) (x ∷ ys)

OneMore-after :
    (q : ℕ) (zs xs ys : List (ℕ × ℤ)) → OneMore q xs ys → OneMore q (zs ++ xs) (zs ++ ys)
OneMore-after q [] xs ys h = h
OneMore-after q (z ∷ zs) xs ys h = there (OneMore-after q zs xs ys h)

OneMore-before :
    {q : ℕ} {xs ys : List (ℕ × ℤ)} (zs : List (ℕ × ℤ))
    → OneMore q xs ys
    → OneMore q (xs ++ zs) (ys ++ zs)
OneMore-before zs here = here
OneMore-before zs (there h) = there (OneMore-before zs h)

own_same_left : (w l l' r : ℤ) → l' ≡ l +ℤ pos 1 → w +ℤ pos 1 -ℤ l' -ℤ r ≡ w -ℤ l -ℤ r
own_same_left w l l' r h = eq_of_parts _ _ (omega (int_laws, ap pos_part h, ap neg_part h))

own_same_right : (w l r r' : ℤ) → r' ≡ r +ℤ pos 1 → w +ℤ pos 1 -ℤ l -ℤ r' ≡ w -ℤ l -ℤ r
own_same_right w l r r' h = eq_of_parts _ _ (omega (int_laws, ap pos_part h, ap neg_part h))

own_more : (w l r : ℤ) → w +ℤ pos 1 -ℤ l -ℤ r ≡ w -ℤ l -ℤ r +ℤ pos 1
own_more w l r = eq_of_parts _ _ (omega int_laws)

pub succ_nonneg : (l : ℤ) → l ≡ pos (pos_part l) → l +ℤ pos 1 ≡ pos (pos_part l + 1)
unfolding ◌+ℤ◌
succ_nonneg (pos n) h = ground arith
succ_nonneg (ℤ.negsuc n) h = absurd (omega (arith, ap neg_part h))

plus_one : (w : ℤ) (a c b : ℕ) → w ≡ pos (a + c + b) → w +ℤ pos 1 ≡ pos (a + (c + 1) + b)
plus_one w a c b h = eq_of_parts _ _ (omega (int_laws, ap pos_part h, ap neg_part h))

pub sum_left :
    (w l l' : ℤ) (c b : ℕ)
    → l ≡ pos (pos_part l)
    → l' ≡ l +ℤ pos 1
    → w ≡ pos (pos_part l + c + b)
    → w +ℤ pos 1 ≡ pos (pos_part l' + c + b)
sum_left w l l' c b n e h = eq_of_parts _ _ (
    omega (
      int_laws,
      ap pos_part h,
      ap neg_part h,
      ap pos_part (e ∙ succ_nonneg l n),
      ap neg_part (e ∙ succ_nonneg l n),
      ap neg_part n,
    ))

pub sum_right :
    (w r r' : ℤ) (a c : ℕ)
    → r ≡ pos (pos_part r)
    → r' ≡ r +ℤ pos 1
    → w ≡ pos (a + c + pos_part r)
    → w +ℤ pos 1 ≡ pos (a + c + pos_part r')
sum_right w r r' a c n e h = eq_of_parts _ _ (
    omega (
      int_laws,
      ap pos_part h,
      ap neg_part h,
      ap pos_part (e ∙ succ_nonneg r n),
      ap neg_part (e ∙ succ_nonneg r n),
      ap neg_part n,
    ))

module _ {ℓ} {V : Type ℓ} where
  abbrev pub key_of : Tree V → Option ℕ
  key_of leaf = none
  key_of (node l k v w r) = some k

  -- One access has been counted, at the node that `p` leads to.
  pub record Accessed (z : Tree V) (p : List Bool) (t : Tree V) : Type 0 where
    pub consistent : IsWeighted t
    pub total : weight t ≡ weight z +ℤ pos 1
    pub key : ℕ
    pub place : key_of (subtree_at p t) ≡ some key
    pub one_more : OneMore key (counts z) (counts t)

  pub bump-Accessed :
      (d : Bool) (key : ℕ) (z : Tree V) → Ends key z → IsWeighted z → Accessed z [] (bump z)
  unfolding bump own_count
  bump-Accessed d key leaf h s = elim h [ ]
  bump-Accessed d key (node l k v w r) h ((c, e), hl, hr) = record {
    consistent = ((c + 1, plus_one w _ c _ e), hl, hr);
    total = refl;
    key = k;
    place = refl;
    one_more = rw own_more (OneMore-after k (counts l) _ _ here);
  }

  pub set_child-Accessed :
      (d : Bool) (key : ℕ) (z c : Tree V) (p : List Bool)
      → Towards key d z
      → IsWeighted z
      → Accessed (child d z) p c
      → Accessed z (d ∷ p) (set_child d (bump z) c)
  unfolding bump own_count
  set_child-Accessed d key leaf c p h s a = elim h [ ]
  set_child-Accessed true key (node l k v w r) c p h ((n, e), hl, hr) a = record {
    consistent = (
      (n, sum_left w (weight l) (weight c) n _ (weight_nonneg l hl) a.total e),
      a.consistent,
      hr,
    );
    total = refl;
    key = a.key;
    place = a.place;
    one_more =
        rw (own_same_left w (weight l) (weight c) (weight r) a.total) (OneMore-before _ a.one_more);
  }
  set_child-Accessed false key (node l k v w r) c p h ((n, e), hl, hr) a = record {
    consistent = (
      (n, sum_right w (weight r) (weight c) _ n (weight_nonneg r hr) a.total e),
      hl,
      a.consistent,
    );
    total = refl;
    key = a.key;
    place = a.place;
    one_more =
        rw (own_same_right w (weight l) (weight r) (weight c) a.total)
          (OneMore-after a.key (counts l) _ _ (there a.one_more));
  }

  Accessed-SameCounts :
      (z z' t : Tree V) (p : List Bool) → SameCounts z z' → Accessed z' p t → Accessed z p t
  Accessed-SameCounts z z' t p (h, e, w) a = record {
    consistent = a.consistent;
    total = rw (← w) a.total;
    key = a.key;
    place = a.place;
    one_more = rw (← e) a.one_more;
  }

  pub Accessed-IsKept :
      (key : ℕ)
      → IsKept key (λ z r. IsWeighted z → pos_part (weight z) < 2 ^ 31 → Accessed z r.place r.tree)
  unfolding put_back
  Accessed-IsKept key = record {
    root_end = λ z h s b. bump-Accessed true key z h s;
    child_end = λ d z h k s b.
        set_child-Accessed d key z _ [] h s
          (bump-Accessed d key (child d z) k (IsWeighted-child d z s).0);
    rotated = λ d z r h k p s b.
        let same = rotate-SameCounts d z s b in
        Accessed-SameCounts z _ _ _ same (p same.0 (rw same.2 b));
    rotated_double = λ d z r h k n p s b.
        let same = rotate_double-SameCounts d z s b in
        Accessed-SameCounts z _ _ _ same (p same.0 (rw same.2 b));
    below = λ d₁ d₂ z r h k p s b.
        let (s₁, le₁) = IsWeighted-child d₁ z s in
        let (s₂, le₂) = IsWeighted-child d₂ (child d₁ z) s₁ in
        set_child-Accessed d₁ key z _ _ h s
          (set_child-Accessed d₂ key (child d₁ z) r.tree r.place k s₁ (p s₂ (omega arith)));
  }
