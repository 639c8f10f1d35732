-- ===== src/Prelude/Dict.antt =====
-- Go's `map[string]V` as an association list. The order of the entries stands for one of the orders in
-- which Go may iterate over the map.
use Prim.Native.Nat.{suc, ◌+◌, ◌≤◌}
use Prim.Native.String.{String}
use mathlib.Core.Path.{◌≡◌, refl, sym, subst}
use mathlib.Core.Logic.{inl, inr}
use mathlib.Core.Bool.{Bool, true, false, ◌||◌}
use mathlib.Core.Option.{Option, none, some}
use mathlib.Core.List.{
  List, [], ◌∷◌, map, Mem, mem-cons, mem-cons_self, mem-cons_of_mem, not-mem-nil,
}
use mathlib.Core.Logic.Or
use native.Mathlib.Omega.{arith}
use text.Mathlib.Text.{◌==◌}
use text.Mathlib.TextEquality.{eq_iff}
use griefer_security_platfor.Prelude.Tests.{if◌then◌else◌, Bool-cases}
use griefer_security_platfor.Prelude.Lists.{length, All}

-- containsStr, containsString
unfoldable pub contains : List String → String → Bool
contains [] a = false
contains (x ∷ xs) a = if x == a then true else contains xs a

-- What holds of every listed text holds of a text that the list contains.
pub contains-All {ℓ} :
    (P : String → Type ℓ) (xs : List String) (a : String) → All P xs → contains xs a ≡ true → P a
unfolding contains
contains-All P [] a h m = cc
contains-All P (x ∷ xs) a h m = elim (Bool-cases (x == a)) [
  | inl e ↦ subst P ((eq_iff x a).0 e) h.0
  | inr e ↦ contains-All P xs a h.1 (rw e at m)
]

-- `contains` decides the library's membership.
pub contains-Mem : (xs : List String) (a : String) → contains xs a ≡ true → Mem a xs
unfolding contains
contains-Mem [] a h = cc
contains-Mem (x ∷ xs) a h = elim (Bool-cases (x == a)) [
  | inl e ↦ rw ((eq_iff x a).0 e) mem-cons_self
  | inr e ↦ mem-cons_of_mem x (contains-Mem xs a (rw e at h))
]

Bool_true-prop : (b : Bool) → IsProp (b ≡ true)
Bool_true-prop b = hlevel

pub Mem-contains : (xs : List String) (a : String) → Mem a xs → contains xs a ≡ true
unfolding contains
Mem-contains [] a m = absurd (not-mem-nil m)
Mem-contains (x ∷ xs) a m =
    Or.elim (Bool_true-prop (contains (x ∷ xs) a)) (mem-cons.0 m)
      (λ e. rw ((eq_iff x a).1 (sym e)) refl) (λ h. ground (arith, Mem-contains xs a h))

module _ {ℓ} {V : Type ℓ} where
  unfoldable pub lookup : String → List (String × V) → Option V
  lookup k [] = none
  lookup k ((j, v) ∷ m) = if j == k then some v else lookup k m

  unfoldable pub insert : String → V → List (String × V) → List (String × V)
  insert k v [] = (k, v) ∷ []
  insert k v ((j, w) ∷ m) = if j == k then (k, v) ∷ m else (j, w) ∷ insert k v m

  unfoldable pub remove : String → List (String × V) → List (String × V)
  remove k [] = []
  remove k ((j, w) ∷ m) = let rest = remove k m in if j == k then rest else (j, w) ∷ rest

  abbrev pub keys : List (String × V) → List String
  keys m = map (λ e. e.0) m

  -- Writing a key changes what is read at that key, and nothing else.
  pub lookup-insert :
      (key asked : String) (value : V) (entries : List (String × V))
      → lookup asked (insert key value entries)
        ≡ (if key == asked then some value else lookup asked entries)
  unfolding lookup insert
  lookup-insert key asked value [] = refl
  lookup-insert key asked value ((first, w) ∷ rest) =
      let ih = lookup-insert key asked value rest in
      ground (arith, ih, eq_iff first key, eq_iff first asked, eq_iff key asked)

  pub lookup-remove :
      (k j : String) (m : List (String × V))
      → lookup j (remove k m) ≡ (if k == j then none else lookup j m)
  unfolding lookup remove
  lookup-remove k j [] = ground arith
  lookup-remove k j ((i, w) ∷ m) =
      ground (arith, eq_iff k j, eq_iff i k, eq_iff i j, lookup-remove k j m)

  pub length-insert-le :
      (k : String) (v : V) (m : List (String × V)) → length (insert k v m) ≤ length m + 1
  unfolding insert
  length-insert-le k v [] = omega arith
  length-insert-le k v ((j, w) ∷ m) = ground (arith, length-insert-le k v m)

  pub contains-keys-insert :
      (k : String) (v : V) (m : List (String × V)) (c : String)
      → contains (keys (insert k v m)) c ≡ (contains (keys m) c || k == c)
  unfolding insert contains
  contains-keys-insert k v [] c = ground arith
  contains-keys-insert k v ((j, w) ∷ m) c =
      ground (arith, contains-keys-insert k v m c, eq_iff j k, eq_iff j c, eq_iff k c)

  pub length-insert :
      (k : String) (v : V) (m : List (String × V))
      → length (insert k v m) ≡ (if contains (keys m) k then length m else suc (length m))
  unfolding insert contains
  length-insert k v [] = refl
  length-insert k v ((j, w) ∷ m) = ground (arith, length-insert k v m)

  -- A key that a look-up does not find is none of the keys.
  pub contains-keys-lookup :
      (k : String) (m : List (String × V)) → lookup k m ≡ none → contains (keys m) k ≡ false
  unfolding lookup contains
  contains-keys-lookup k [] h = refl
  contains-keys-lookup k ((j, w) ∷ m) h = elim (Bool-cases (j == k)) [
    | inl e ↦ cc (rw e at h)
    | inr e ↦ rw e (contains-keys-lookup k m (rw e at h))
  ]

  -- What holds of every entry holds of the entry that a look-up returns.
  pub lookup-All {κ} :
      (P : String → V → Type κ) (k : String) (m : List (String × V))
      → All (λ e. P e.0 e.1) m
      → (v : V) → lookup k m ≡ some v
      → P k v
  unfolding lookup
  lookup-All P k [] h v e = cc
  lookup-All P k ((j, w) ∷ m) h v e = elim (Bool-cases (j == k)) [
    | inl same ↦
        let found : some w ≡ some v = rw same at e in
        let q : w ≡ v = cc in subst (λ n. P n v) ((eq_iff j k).0 same) (subst (P j) q h.0)
    | inr other ↦ lookup-All P k m h.1 v (rw other at e)
  ]
