-- ===== src/Prelude/Lists.antt =====
-- Lists measured by native numbers, under the library's names, and predicates by recursion.
use Prim.Native.Nat.{ℕ, zero, suc, ◌+◌, ◌-◌, min}
use mathlib.Core.Path.{◌≡◌, refl}
use mathlib.Core.Logic.{◌⊎◌, inl, inr}
use mathlib.Core.List.{List, [], ◌∷◌, ◌++◌, map}
use native.Mathlib.Omega.{arith}

module _ {ℓ} {A : Type ℓ} where
  abbrev pub length : List A → ℕ
  length [] = 0
  length (x ∷ xs) = suc (length xs)

  abbrev pub take : ℕ → List A → List A
  take zero xs = []
  take (suc n) [] = []
  take (suc n) (x ∷ xs) = x ∷ take n xs

  abbrev pub drop : ℕ → List A → List A
  drop zero xs = xs
  drop (suc n) [] = []
  drop (suc n) (x ∷ xs) = drop n xs

  pub length-append : (xs ys : List A) → length (xs ++ ys) ≡ length xs + length ys
  length-append [] ys = omega arith
  length-append (x ∷ xs) ys = omega (arith, length-append xs ys)

  pub length-take : (n : ℕ) (xs : List A) → length (take n xs) ≡ min n (length xs)
  length-take zero xs = omega arith
  length-take (suc n) [] = omega arith
  length-take (suc n) (x ∷ xs) = omega (arith, length-take n xs)

  pub length-drop : (n : ℕ) (xs : List A) → length (drop n xs) ≡ length xs - n
  length-drop zero xs = omega arith
  length-drop (suc n) [] = omega arith
  length-drop (suc n) (x ∷ xs) = omega (arith, length-drop n xs)

  pub take-append-drop : (n : ℕ) (xs : List A) → take n xs ++ drop n xs ≡ xs
  take-append-drop zero xs = refl
  take-append-drop (suc n) [] = refl
  take-append-drop (suc n) (x ∷ xs) = rw (take-append-drop n xs)

  -- Every item of the list satisfies `P`.
  abbrev pub All {κ} : (A → Type κ) → List A → Type κ
  All P [] = Unit
  All P (x ∷ xs) = P x × All P xs

  -- Some item of the list satisfies `P`; the proof says which.
  abbrev pub Any : (A → Type 0) → List A → Type 0
  Any P [] = ⊥
  Any P (x ∷ xs) = P x ⊎ Any P xs

pub All-append {ℓ κ} :
    {A : Type ℓ} (P : A → Type κ) (xs ys : List A) → All P xs → All P ys → All P (xs ++ ys)
All-append P [] ys h k = k
All-append P (x ∷ xs) ys h k = (h.0, All-append P xs ys h.1 k)

pub All-snoc {ℓ κ} :
    {A : Type ℓ} (P : A → Type κ) (xs : List A) (y : A) → All P xs → P y → All P (xs ++ y ∷ [])
All-snoc P xs y h q = All-append P xs (y ∷ []) h (q, tt)

pub Any-map {ℓ} :
    {A : Type ℓ} {P Q : A → Type 0} → ((x : A) → P x → Q x) → (xs : List A) → Any P xs → Any Q xs
Any-map f [] h = h
Any-map f (x ∷ xs) (inl p) = inl (f x p)
Any-map f (x ∷ xs) (inr h) = inr (Any-map f xs h)

pub All-map {ℓ} :
    {A : Type ℓ} {P Q : A → Type 0} → ((x : A) → P x → Q x) → (xs : List A) → All P xs → All Q xs
All-map f [] p = tt
All-map f (x ∷ xs) p = (f x p.0, All-map f xs p.1)

pub All-map2 {ℓ} :
    {A : Type ℓ} {P Q R : A → Type 0}
    → ((x : A) → P x → Q x → R x)
    → (xs : List A) → All P xs
    → All Q xs
    → All R xs
All-map2 f [] p q = tt
All-map2 f (x ∷ xs) p q = (f x p.0 q.0, All-map2 f xs p.1 q.1)

pub All-map_list {ℓ κ} :
    {A : Type ℓ} {B : Type κ} (P : B → Type 0) (f : A → B) (xs : List A)
    → All (λ x. P (f x)) xs
    → All P (map f xs)
All-map_list P f [] h = tt
All-map_list P f (x ∷ xs) h = (h.0, All-map_list P f xs h.1)

module _ {ℓ} {A : Type ℓ} (P : A → Type 0) where
  pub Any-left : (xs ys : List A) → Any P xs → Any P (xs ++ ys)
  Any-left [] ys h = absurd h
  Any-left (x ∷ xs) ys (inl p) = inl p
  Any-left (x ∷ xs) ys (inr h) = inr (Any-left xs ys h)

  pub Any-right : (xs ys : List A) → Any P ys → Any P (xs ++ ys)
  Any-right [] ys h = h
  Any-right (x ∷ xs) ys h = inr (Any-right xs ys h)

  -- An item that does not satisfy `P` can go.
  pub Any-drop :
      (xs : List A) (x : A) (ys : List A) → (P x → ⊥) → Any P (xs ++ x ∷ ys) → Any P (xs ++ ys)
  Any-drop [] x ys refuted (inl p) = absurd (refuted p)
  Any-drop [] x ys refuted (inr h) = h
  Any-drop (z ∷ xs) x ys refuted (inl p) = inl p
  Any-drop (z ∷ xs) x ys refuted (inr h) = inr (Any-drop xs x ys refuted h)

  pub All-drop : (xs : List A) (x : A) (ys : List A) → All P (xs ++ x ∷ ys) → All P (xs ++ ys)
  All-drop [] x ys h = h.1
  All-drop (z ∷ xs) x ys h = (h.0, All-drop xs x ys h.1)

  pub Any-with_All : (Q : A → Type 0) (xs : List A) → All Q xs → Any P xs → Any (λ x. P x × Q x) xs
  Any-with_All Q [] q h = absurd h
  Any-with_All Q (x ∷ xs) q (inl p) = inl (p, q.0)
  Any-with_All Q (x ∷ xs) q (inr h) = inr (Any-with_All Q xs q.1 h)

  pub All-at : (xs : List A) (x : A) (ys : List A) → All P (xs ++ x ∷ ys) → P x
  All-at [] x ys h = h.0
  All-at (z ∷ xs) x ys h = All-at xs x ys h.1

  -- What some item is, and every item implies, holds.
  pub Any-All : (R : Type 0) (xs : List A) → All (λ x. P x → R) xs → Any P xs → R
  Any-All R [] k h = absurd h
  Any-All R (x ∷ xs) k (inl p) = k.0 p
  Any-All R (x ∷ xs) k (inr h) = Any-All R xs k.1 h

pub Any-map_list {ℓ κ} :
    {A : Type ℓ} {B : Type κ} (P : B → Type 0) (f : A → B) (xs : List A)
    → Any (λ x. P (f x)) xs
    → Any P (map f xs)
Any-map_list P f [] h = h
Any-map_list P f (x ∷ xs) (inl p) = inl p
Any-map_list P f (x ∷ xs) (inr h) = inr (Any-map_list P f xs h)

pub Any-list_map {ℓ κ} :
    {A : Type ℓ} {B : Type κ} (P : B → Type 0) (f : A → B) (xs : List A)
    → Any P (map f xs)
    → Any (λ x. P (f x)) xs
Any-list_map P f [] h = h
Any-list_map P f (x ∷ xs) (inl p) = inl p
Any-list_map P f (x ∷ xs) (inr h) = inr (Any-list_map P f xs h)

pub All-list_map {ℓ κ} :
    {A : Type ℓ} {B : Type κ} (P : B → Type 0) (f : A → B) (xs : List A)
    → All P (map f xs)
    → All (λ x. P (f x)) xs
All-list_map P f [] h = tt
All-list_map P f (x ∷ xs) h = (h.0, All-list_map P f xs h.1)

pub Any-elim {ℓ} :
    {A : Type ℓ} {P : A → Type 0} (R : Type 0) → ((x : A) → P x → R) → (xs : List A) → Any P xs → R
Any-elim R f [] h = absurd h
Any-elim R f (x ∷ xs) (inl p) = f x p
Any-elim R f (x ∷ xs) (inr h) = Any-elim R f xs h
