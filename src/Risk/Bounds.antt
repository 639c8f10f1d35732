-- ===== src/Risk/Bounds.antt =====
-- What Assess reports lies on its scales, and it counts the categories that the policy counts.
use griefer_security_platfor.Prelude.{
  ℕ, ◌≤◌, String, ◌≡◌, refl, sym, ◌∙◌, inl, inr, Bool, true, false, List, [], ◌∷◌, arith, eq_iff,
  ltb, leb, if◌then◌else◌, Bool-cases, length,
}
use griefer_security_platfor.Prelude.Int.{ℤ, pos, negsuc}
use griefer_security_platfor.Prelude.Dict.{
  lookup, insert, contains, keys, contains-keys-insert, length-insert,
}
use griefer_security_platfor.Prelude.Float.{FloatOps}
use griefer_security_platfor.Events.{valid_severity}
use griefer_security_platfor.Incidents.{Finding}
use griefer_security_platfor.Incidents.Categories.{
  evidence_categories, seen_categories, length-evidence_categories,
}
use griefer_security_platfor.Risk.{
  Assessment, Input, CategoryEvidence, clamp_int, severity_for_score, by_category, note_finding,
  aggregate_or_new, assess, assess_findings, assess_categories,
}

pub clamp_int-le_100 : (v : ℤ) → clamp_int v 0 100 ≤ 100
unfolding clamp_int
clamp_int-le_100 (negsuc _) = omega arith
clamp_int-le_100 (pos v) = ground arith

if-intro {ℓ κ} :
    {A : Type ℓ} (P : A → Type κ) (b : Bool) {x y : A} → P x → P y → P (if b then x else y)
if-intro P true px py = px
if-intro P false px py = py

abbrev IsKnown : String → Type 0
IsKnown s = valid_severity s ≡ true

severity_for_score-valid : (score : ℕ) → valid_severity (severity_for_score score) ≡ true
unfolding severity_for_score valid_severity lookup
severity_for_score-valid score = if-intro IsKnown (leb 70 score) refl (
    if-intro IsKnown (leb 45 score) refl
      (if-intro IsKnown (leb 20 score) refl (if-intro IsKnown (ltb 0 score) refl refl)))

-- One finding more, for the map of Assess and for the set that the policy counts.
module _ {ℓ} {V : Type ℓ} (m : List (String × V)) (seen : List String) where
  abbrev HasSameKeys : Type 0
  HasSameKeys = (length m ≡ length seen) × ((c : String) → contains (keys m) c ≡ contains seen c)

  length-insert_seen :
      (k : String) (v : V)
      → HasSameKeys
      → length (insert k v m) ≡ length (if contains seen k then seen else k ∷ seen)
  length-insert_seen k v h = ground (arith, length-insert k v m, h.0, h.1 k)

  contains-insert_seen :
      (k : String) (v : V)
      → HasSameKeys
      → (c : String)
      → contains (keys (insert k v m)) c ≡ contains (if contains seen k then seen else k ∷ seen) c
  contains-insert_seen k v h c = elim (Bool-cases (contains seen k)) [
    | inl e ↦ rw e (ground (arith, contains-keys-insert k v m c, eq_iff k c, h.1 c))
    | inr e ↦ rw e (unfold contains in ground (arith, contains-keys-insert k v m c, h.1 c))
  ]

-- The map of Assess has one entry for each category that the policy counts.
length-by_category :
    (fl : FloatOps) (m : List (String × CategoryEvidence)) (seen : List String) (fs : List Finding)
    → HasSameKeys m seen
    → length (by_category fl m fs) ≡ length (seen_categories seen fs)
unfolding by_category seen_categories
length-by_category fl m seen [] h = h.0
length-by_category fl m seen (f ∷ fs) h =
    let v = note_finding fl f (aggregate_or_new fl (lookup f.category m)) in
    length-by_category fl (insert f.category v m)
      (if contains seen f.category then seen else f.category ∷ seen) fs
      (length-insert_seen m seen f.category v h, contains-insert_seen m seen f.category v h)

-- An assessment is on the scales, and counts `n` categories.
abbrev pub IsOnScale : Assessment → ℕ → Type 0
IsOnScale a n =
    (a.score ≤ 100)
    × (a.severity ≡ severity_for_score a.score)
    × (valid_severity a.severity ≡ true)
    × (a.evidence_categories ≡ n)

assess_findings-IsOnScale :
    (fl : FloatOps) (input : Input) (fs : List Finding)
    → IsOnScale (assess_findings fl input fs) (length (evidence_categories fs))
unfolding assess_findings severity_for_score valid_severity lookup
assess_findings-IsOnScale fl input [] =
    (omega arith, refl, refl, unfold evidence_categories in refl)
assess_findings-IsOnScale fl input (f ∷ fs) =
    unfold assess_categories in
    (
      search clamp_int-le_100,
      refl,
      severity_for_score-valid (assess_findings fl input (f ∷ fs)).score,
      length-by_category fl [] [] (f ∷ fs) (refl, λ c. refl)
          ∙ sym (length-evidence_categories (f ∷ fs)),
    )

-- The score of an assessment is at most 100, its severity is the known one that belongs to the
-- score, and the number of its categories is the number that the policy counts for the same
-- findings, whatever the floating-point arithmetic does.
pub assess-IsOnScale :
    (fl : FloatOps) (input : Input)
    → IsOnScale (assess fl input) (length (evidence_categories input.findings))
unfolding assess
assess-IsOnScale fl input = assess_findings-IsOnScale fl input input.findings
