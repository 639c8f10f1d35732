-- ===== src/Prelude/Occurrences.antt =====
-- How often a text stands in a list, and that sorting keeps it.
use griefer_security_platfor.Prelude.{
  ℕ, ◌+◌, ◌==◌, String, ◌≡◌, refl, ◌∙◌, ap, Bool, List, [], ◌∷◌, arith, if◌then◌else◌,
}
use griefer_security_platfor.Prelude.Sort.{insert_by, sort_by}

unfoldable pub occurrences : String → List String → ℕ
occurrences k [] = 0
occurrences k (x ∷ xs) = (if x == k then 1 else 0) + occurrences k xs

module _ (less : String → String → Bool) (k : String) where
  occurrences-insert_by :
      (a : String) (xs : List String) → occurrences k (insert_by less a xs) ≡ occurrences k (a ∷ xs)
  unfolding occurrences insert_by
  occurrences-insert_by a [] = refl
  occurrences-insert_by a (x ∷ xs) = ground (arith, occurrences-insert_by a xs)

  pub occurrences-sort_by : (xs : List String) → occurrences k (sort_by less xs) ≡ occurrences k xs
  unfolding sort_by occurrences
  occurrences-sort_by [] = refl
  occurrences-sort_by (x ∷ xs) =
      occurrences-insert_by x (sort_by less xs)
      ∙ ap (λ n. (if x == k then 1 else 0) + n) (occurrences-sort_by xs)
