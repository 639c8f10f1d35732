-- ===== src/Prelude/Texts.antt =====
-- Sets of texts as lists: removal, and lists in which nothing stands twice.
use griefer_security_platfor.Prelude.Dict.{contains, Mem-contains}
use Prim.Native.String.{String}
use mathlib.Core.Path.{◌≡◌, refl}
use mathlib.Core.Bool.{false, not, ◌&&◌, ◌||◌}
use mathlib.Core.List.{List, [], ◌∷◌, ◌++◌, Nodup, Nodup-cons, perm_middle, append-nil}
use mathlib.Core.List.Perm
use native.Mathlib.Omega.{arith}
use text.Mathlib.Text.{◌==◌}
use text.Mathlib.TextEquality.{eq_iff}
use griefer_security_platfor.Prelude.Tests.{if◌then◌else◌}

-- delete(set, a)
unfoldable pub discard : String → List String → List String
discard a [] = []
discard a (x ∷ xs) = let rest = discard a xs in if x == a then rest else x ∷ rest

-- for _, a := range as { delete(set, a) }
unfoldable pub discard_all : List String → List String → List String
unfolding discard
discard_all [] xs = xs
discard_all (a ∷ rest) xs = discard_all rest (discard a xs)

-- No text stands twice.
abbrev pub IsDistinct : List String → Type 0
IsDistinct [] = Unit
IsDistinct (x ∷ xs) = (contains xs x ≡ false) × IsDistinct xs

pub contains-append :
    (xs ys : List String) (a : String) → contains (xs ++ ys) a ≡ (contains xs a || contains ys a)
unfolding contains
contains-append [] ys a = refl
contains-append (x ∷ xs) ys a = ground (arith, contains-append xs ys a)

pub contains-discard :
    (a : String) (xs : List String) (b : String)
    → contains (discard a xs) b ≡ (contains xs b && not (a == b))
unfolding contains discard
contains-discard a [] b = refl
contains-discard a (x ∷ xs) b =
    ground (arith, contains-discard a xs b, eq_iff x a, eq_iff x b, eq_iff a b)

pub contains-discard_all :
    (as_gone xs : List String) (b : String)
    → contains (discard_all as_gone xs) b ≡ (contains xs b && not (contains as_gone b))
unfolding contains discard_all
contains-discard_all [] xs b = ground arith
contains-discard_all (a ∷ rest) xs b =
    ground (arith, contains-discard_all rest (discard a xs) b, contains-discard a xs b)

-- In a list without repetitions, what is left of it is what is not in the part that was taken off.
pub contains-rest_of_IsDistinct :
    (gone rest : List String) (b : String)
    → IsDistinct (gone ++ rest)
    → (contains (gone ++ rest) b && not (contains gone b)) ≡ contains rest b
unfolding contains
contains-rest_of_IsDistinct [] rest b h = ground arith
contains-rest_of_IsDistinct (a ∷ gone) rest b h = ground (
  arith,
  contains-rest_of_IsDistinct gone rest b h.1,
  contains-append gone rest b,
  h.0,
  eq_iff a b,
)

pub IsDistinct-rest : (gone rest : List String) → IsDistinct (gone ++ rest) → IsDistinct rest
IsDistinct-rest [] rest h = h
IsDistinct-rest (a ∷ gone) rest h = IsDistinct-rest gone rest h.1

pub IsDistinct-snoc :
    (xs : List String) (a : String)
    → IsDistinct xs
    → contains xs a ≡ false
    → IsDistinct (xs ++ a ∷ [])
unfolding contains
IsDistinct-snoc [] a h n = (refl, tt)
IsDistinct-snoc (x ∷ xs) a h n = (
  ground (arith, contains-append xs (a ∷ []) x, h.0, eq_iff x a, eq_iff a x),
  IsDistinct-snoc xs a h.1 (ground (arith, eq_iff x a)),
)

-- The same for the library's predicate.
pub Nodup-snoc :
    (xs : List String) (a : String) → Nodup xs → contains xs a ≡ false → Nodup (xs ++ a ∷ [])
Nodup-snoc xs a h new =
    Perm.nodup (Perm.symm (perm_middle xs []))
      (rw append-nil (Nodup-cons.1 (λ m. cc (new, Mem-contains xs a m), h)))
