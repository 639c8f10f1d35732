-- ===== src/Prelude/Sort.antt =====
-- sort.Slice and sort.Strings, as an insertion sort by the source's `less`. Go's sort may reorder
-- equal items; the program sorts by keys that are unique, or whose ties it breaks by an id.
use Prim.Native.Nat.{suc}
use mathlib.Core.Path.{◌≡◌, refl, ap, ◌∙◌}
use mathlib.Core.Bool.{Bool}
use mathlib.Core.List.{List, [], ◌∷◌, Perm}
use mathlib.Core.List.Perm
use mathlib.Core.Logic.{◌⊎◌, inl, inr}
use native.Mathlib.Omega.{arith}
use griefer_security_platfor.Prelude.Tests.{if◌then◌else◌, Bool-cases}
use griefer_security_platfor.Prelude.Lists.{length, All, Any}

module _ {ℓ} {A : Type ℓ} (less : A → A → Bool) where
  unfoldable pub insert_by : A → List A → List A
  insert_by a [] = a ∷ []
  insert_by a (x ∷ xs) = if less x a then x ∷ insert_by a xs else a ∷ x ∷ xs

  unfoldable pub sort_by : List A → List A
  unfolding insert_by
  sort_by [] = []
  sort_by (x ∷ xs) = insert_by x (sort_by xs)

  insert_by-perm : (a : A) (xs : List A) → Perm (insert_by a xs) (a ∷ xs)
  unfolding insert_by
  insert_by-perm a [] = Perm.refl (a ∷ [])
  insert_by-perm a (x ∷ xs) = elim (Bool-cases (less x a)) [
    | inl h ↦ rw h (Perm.trans (Perm.cons x (insert_by-perm a xs)) (Perm.swap a x xs))
    | inr h ↦ rw h (Perm.refl (a ∷ x ∷ xs))
  ]

  pub sort_by-perm : (xs : List A) → Perm (sort_by xs) xs
  unfolding sort_by
  sort_by-perm [] = Perm.refl []
  sort_by-perm (x ∷ xs) = Perm.trans (insert_by-perm x (sort_by xs)) (Perm.cons x (sort_by-perm xs))

  length-insert_by : (a : A) (xs : List A) → length (insert_by a xs) ≡ suc (length xs)
  unfolding insert_by
  length-insert_by a [] = refl
  length-insert_by a (x ∷ xs) = ground (arith, length-insert_by a xs)

  pub length-sort_by : (xs : List A) → length (sort_by xs) ≡ length xs
  unfolding sort_by
  length-sort_by [] = refl
  length-sort_by (x ∷ xs) = length-insert_by x (sort_by xs) ∙ ap suc (length-sort_by xs)

module _ {ℓ κ} {A : Type ℓ} (less : A → A → Bool) (P : A → Type κ) where
  pub insert_by-All : (a : A) (xs : List A) → P a → All P xs → All P (insert_by less a xs)
  unfolding insert_by
  insert_by-All a [] pa h = (pa, tt)
  insert_by-All a (x ∷ xs) pa h = elim (Bool-cases (less x a)) [
    | inl e ↦ rw e (h.0, insert_by-All a xs pa h.1)
    | inr e ↦ rw e (pa, h)
  ]

  pub sort_by-All : (xs : List A) → All P xs → All P (sort_by less xs)
  unfolding sort_by
  sort_by-All [] h = tt
  sort_by-All (x ∷ xs) h = insert_by-All x (sort_by less xs) h.0 (sort_by-All xs h.1)

module _ {ℓ} {A : Type ℓ} (less : A → A → Bool) (P : A → Type 0) where
  insert_by-Any : (a : A) (xs : List A) → P a ⊎ Any P xs → Any P (insert_by less a xs)
  unfolding insert_by
  insert_by-Any a [] h = h
  insert_by-Any a (x ∷ xs) h = elim (Bool-cases (less x a)) [
    | inl e ↦ rw e (elim h [
      | inl p ↦ inr (insert_by-Any a xs (inl p))
      | inr (inl p) ↦ inl p
      | inr (inr q) ↦ inr (insert_by-Any a xs (inr q))
    ])
    | inr e ↦ rw e h
  ]

  pub sort_by-Any : (qs : List A) → Any P qs → Any P (sort_by less qs)
  unfolding sort_by
  sort_by-Any [] h = h
  sort_by-Any (q ∷ qs) (inl p) = insert_by-Any q (sort_by less qs) (inl p)
  sort_by-Any (q ∷ qs) (inr h) = insert_by-Any q (sort_by less qs) (inr (sort_by-Any qs h))
