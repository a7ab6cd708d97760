-- ===== src/CbShared/Linear.antt =====
-- The calls that are settled so far, as calls on a map one after the other.
use mathlib.Core.Path.{subst}
use splaylist.Base.{
  ℕ, ◌≡◌, ◌≢◌, ◌∙◌, refl, ap, sym, Bool, Option, none, some, List, [], ◌∷◌, ◌++◌, ◌==◌, inl, inr,
  ==→ne, Bool-cases,
}
use splaylist.Base.Entries.{lookup}
use splaylist.CbTree.Tree.{Tree}
use splaylist.CbTree.Entries.{entries}
use splaylist.CbTree.Ops.{CbTree, find, search_no_restructure, insert_if_absent}
use splaylist.CbTree.Laws.{IsValid, find-lookup, insert_if_absent-lookup}
use splaylist.CbTree.NoRestructure.{search_no_restructure-lookup}
use splaylist.CbTree.Client.{Call, find_key, insert_key, or_else, with_entry}
use splaylist.CbShared.RwLock.{RwLock}
use splaylist.CbShared.State.{
  Shared, seen_by, seen_at, snapshot, put, put_length, set_cops, Goal, reads, inserts, Pc, Event,
  settled,
}
use splaylist.CbShared.Steps.{
  Move, call_find, call_insert, call_set_cops, go_exclusive, go_shared, lock_exclusive,
  begin_restructure, begin_read, begin_insert, restructure, unlock_exclusive, reset, lock_shared,
  read, unlock_shared, return_found, return_present, go_insert, lock_insert, insert, unlock_insert,
}

abbrev pub effect : Call ℕ → List (ℕ × ℕ) → List (ℕ × ℕ)
effect (find_key k) xs = xs
effect (insert_key k x) xs = with_entry k x xs

abbrev pub answer : ℕ → Call ℕ → List (ℕ × ℕ) → ℕ
answer d (find_key k) xs = or_else d (lookup k xs)
answer d (insert_key k x) xs = or_else d (lookup k xs)

-- The entries after the settled calls, the last of which comes first.
abbrev pub entries_after : List (ℕ × ℕ) → List Event → List (ℕ × ℕ)
entries_after xs [] = xs
entries_after xs (e ∷ h) = effect e.call (entries_after xs h)

-- Every reply is that of the map with the entries before the call.
abbrev pub IsLegal : ℕ → List (ℕ × ℕ) → List Event → Type 0
IsLegal d xs [] = Unit
IsLegal d xs (e ∷ h) = (e.reply ≡ answer d e.call (entries_after xs h)) × IsLegal d xs h

-- A search tree that holds what the settled calls leave in a map.
pub record IsSound (d : ℕ) (xs : List (ℕ × ℕ)) (s : Shared) (h : List Event) : Type 0 where
  pub valid : IsValid (seen_by 0 s)
  pub now : entries s.root ≡ entries_after xs h
  pub legal : IsLegal d xs h
  pub default : s.no_value ≡ d

-- The counters are no part of it.
IsValid-seen_by : (s : Shared) (i j : ℕ) → IsValid (seen_by i s) → IsValid (seen_by j s)
IsValid-seen_by s i j v = record { rooted = v.rooted; sorted = v.sorted }

IsValid-put : (s : Shared) (i j : ℕ) (t : CbTree ℕ) → IsValid t → IsValid (seen_by j (put i t s))
IsValid-put s i j t v = record { rooted = v.rooted; sorted = v.sorted }

some-or_else : (d v : ℕ) (o : Option ℕ) → v ≡ or_else d o → v ≢ d → o ≡ some v
some-or_else d v none e n = absurd (n e)
some-or_else d v (some x) e n = ap (λ y. some y) (sym e)

with_entry-present :
    (key x v : ℕ) (ys : List (ℕ × ℕ)) → lookup key ys ≡ some v → with_entry key x ys ≡ ys
with_entry-present key x v ys e = rw (e, with_entry) refl

some-pair :
    {A B : Type 0} (a a' : A) (b b' : B)
    → ◌≡◌ {A = Option (A × B)} (some (a, b)) (some (a', b'))
    → (a ≡ a') × (b ≡ b')
some-pair a a' b b' e = (cc, cc)

or_else-elim : (d : ℕ) (o : Option ℕ) → (elim o [ none ↦ d | some v ↦ v ]) ≡ or_else d o
or_else-elim d none = refl
or_else-elim d (some v) = refl

module _ (d : ℕ) (xs : List (ℕ × ℕ)) (i : ℕ) (s : Shared) (h : List Event)
    (sound : IsSound d xs s h) where
  -- A search leaves the entries, and what it found settles the call.
  settled-IsSound :
      (g : Goal) (key v : ℕ) (t : CbTree ℕ)
      → IsValid t
      → entries t.root ≡ entries s.root
      → v ≡ or_else s.no_value (lookup key (entries s.root))
      → IsSound d xs (put i t s) (settled s.no_value g key v ++ h)
  settled-IsSound reads key v t valid same e = record {
    valid = IsValid-put s i 0 t valid;
    now = same ∙ sound.now;
    legal = (
      e
          ∙ ap (λ n. or_else n (lookup key (entries s.root))) sound.default
          ∙ ap (λ z. or_else d (lookup key z)) sound.now,
      sound.legal,
    );
    default = sound.default;
  }
  settled-IsSound (inserts x) key v t valid same e = elim (Bool-cases (v == s.no_value)) [
    | inl absent ↦ rw absent (record {
      valid = IsValid-put s i 0 t valid;
      now = same ∙ sound.now;
      legal = sound.legal;
      default = sound.default;
    })
    | inr present ↦
        let there : lookup key (entries_after xs h) ≡ some v =
          ap (lookup key) (sym sound.now)
          ∙ some-or_else s.no_value v _ e (==→ne v s.no_value present) in
        rw present (record {
          valid = IsValid-put s i 0 t valid;
          now = same ∙ sound.now ∙ sym (with_entry-present key x v (entries_after xs h) there);
          legal = (ap (or_else d) (sym there), sound.legal);
          default = sound.default;
        })
  ]

  restructure-IsSound :
      (eps : ℕ) (g : Goal) (key v : ℕ) (t : CbTree ℕ)
      → find eps (seen_by i s) key ≡ some (t, v)
      → IsSound d xs (put i t s) (settled s.no_value g key v ++ h)
  restructure-IsSound eps g key v t run =
      let (t', e, same, valid, nv, len) =
        find-lookup eps (seen_by i s) key (IsValid-seen_by s 0 i sound.valid) in
      let (et, ev) = some-pair t t' v _ (sym run ∙ e) in
      settled-IsSound g key v t (subst IsValid (sym et) valid) (ap (λ u. entries u.root) et ∙ same)
        (ev ∙ or_else-elim s.no_value (lookup key (entries s.root)))

  read-IsSound :
      (g : Goal) (key : ℕ) (o : Option ℕ) (t : CbTree ℕ)
      → search_no_restructure (seen_by i s) key ≡ some (t, o)
      → IsSound d xs (put_length i t s) (settled s.no_value g key (or_else s.no_value o) ++ h)
  read-IsSound g key o t run =
      let valid = IsValid-seen_by s 0 i sound.valid in
      let (n, e, le) = search_no_restructure-lookup (seen_by i s) key valid in
      let (et, eo) = some-pair t _ o _ (sym run ∙ e) in
      let v =
        settled-IsSound g key (or_else s.no_value o) (seen_by i s) valid refl
          (ap (or_else s.no_value) eo) in
      record {
        valid = record { rooted = v.valid.rooted; sorted = v.valid.sorted };
        now = v.now;
        legal = v.legal;
        default = v.default;
      }

  insert-IsSound :
      (eps key x v : ℕ) (t : CbTree ℕ)
      → insert_if_absent eps (seen_by i s) key x ≡ some (t, v)
      → IsSound d xs (put i t s) (record { call = insert_key key x; reply = v } ∷ h)
  insert-IsSound eps key x v t run =
      let ((t', v'), e, (reply, ent, valid, nv)) =
        insert_if_absent-lookup eps (seen_by i s) key x (IsValid-seen_by s 0 i sound.valid) in
      let (et, ev) = some-pair t t' v v' (sym run ∙ e) in
      record {
        valid = IsValid-put s i 0 t (subst IsValid (sym et) valid);
        now = ap (λ u. entries u.root) et ∙ ent ∙ ap (with_entry key x) sound.now;
        legal = (
          ev
              ∙ reply
              ∙ or_else-elim s.no_value (lookup key (entries s.root))
              ∙ ap (λ n. or_else n (lookup key (entries s.root))) sound.default
              ∙ ap (λ z. or_else d (lookup key z)) sound.now,
          sound.legal,
        );
        default = sound.default;
      }

  -- Steps that leave the tree.
  aside : (t : Shared) → t.root ≡ s.root → t.no_value ≡ s.no_value → IsSound d xs t h
  aside t root nv = record {
    valid = record { rooted = rw root sound.valid.rooted; sorted = rw root sound.valid.sorted };
    now = ap entries root ∙ sound.now;
    legal = sound.legal;
    default = nv ∙ sound.default;
  }

-- Every step keeps it.
pub Move-IsSound :
    (k : RwLock) (eps : ℕ) (test : ℕ → Shared → Bool) (d : ℕ) (xs : List (ℕ × ℕ)) {i : ℕ}
    {s t : Shared} {l l' : k.State} {p q : Pc} {es : List Event} (h : List Event)
    → IsSound d xs s h
    → ((u : Tree ℕ) → snapshot p ≡ some u → u ≡ s.root)
    → Move k eps test i s l p t l' q es
    → IsSound d xs t (es ++ h)
Move-IsSound k eps test d xs {i} {s} h sound fresh (restructure {g} {key} {v} {u} {t} e) =
    restructure-IsSound d xs i s h sound eps g key v t
      (subst (λ r. find eps (seen_at i r s) key ≡ some (t, v)) (fresh u refl) e)
Move-IsSound k eps test d xs {i} {s} h sound fresh (read {g} {key} {u} {o} {t} e) =
    read-IsSound d xs i s h sound g key o t
      (subst (λ r. search_no_restructure (seen_at i r s) key ≡ some (t, o)) (fresh u refl) e)
Move-IsSound k eps test d xs {i} {s} h sound fresh (insert {key} {x} {v} {u} {t} e) =
    insert-IsSound d xs i s h sound eps key x v t
      (subst (λ r. insert_if_absent eps (seen_at i r s) key x ≡ some (t, v)) (fresh u refl) e)
Move-IsSound k eps test d xs h sound fresh begin_restructure = sound
Move-IsSound k eps test d xs h sound fresh begin_read = sound
Move-IsSound k eps test d xs h sound fresh begin_insert = sound
Move-IsSound k eps test d xs {i} {s} {t} h sound fresh (call_find key) =
    aside d xs i s h sound t refl refl
Move-IsSound k eps test d xs {i} {s} {t} h sound fresh (call_insert key x) =
    aside d xs i s h sound t refl refl
Move-IsSound k eps test d xs {i} {s} {t} h sound fresh (call_set_cops n) =
    aside d xs i s h sound t (unfold set_cops in refl) (unfold set_cops in refl)
Move-IsSound k eps test d xs h sound fresh (go_exclusive e) = sound
Move-IsSound k eps test d xs h sound fresh (go_shared e) = sound
Move-IsSound k eps test d xs h sound fresh (lock_exclusive e) = sound
Move-IsSound k eps test d xs h sound fresh (unlock_exclusive e) = sound
Move-IsSound k eps test d xs {i} {s} {t} h sound fresh reset = aside d xs i s h sound t refl refl
Move-IsSound k eps test d xs h sound fresh (lock_shared e) = sound
Move-IsSound k eps test d xs h sound fresh (unlock_shared e) = sound
Move-IsSound k eps test d xs h sound fresh return_found = sound
Move-IsSound k eps test d xs h sound fresh (return_present e) = sound
Move-IsSound k eps test d xs h sound fresh (go_insert e) = sound
Move-IsSound k eps test d xs h sound fresh (lock_insert e) = sound
Move-IsSound k eps test d xs h sound fresh (unlock_insert e) = sound
