-- ===== src/Risk.antt =====
-- internal/risk/score.go: the score, severity and confidence of an incident's evidence. The order in
-- which Go iterates over the categories is the order in which they first appear.
pub mod Bounds
mod Tests
use griefer_security_platfor.Prelude.{
  ℕ, zero, suc, ◌+◌, ◌-◌, ◌≤◌, ◌<◌, String, ◌≡◌, refl, sym, ap, ◌∙◌, ◌≢◌, ◌↔◌, ◌⊎◌, inl, inr, Bool,
  true, false, not, ◌&&◌, ◌||◌, Option, none, some, List, [], ◌∷◌, ◌++◌, map, arith, ◌==◌, eq_iff,
  eq_refl, ltb, leb, if◌then◌else◌, text_lt, Bool-cases, Option-cases, length, take, drop,
  length-append, length-take, length-drop, take-append-drop, leb→le, ltb→lt, All, Any,
  text_eq-false_of_ne, ne_of_text_eq-false,
}
use griefer_security_platfor.Prelude.Int.{ℤ, pos, negsuc}
use griefer_security_platfor.Prelude.Dict.{lookup, insert}
use griefer_security_platfor.Prelude.Float.{Float64, FloatOps}
use griefer_security_platfor.Events.{
  severity_informational, severity_low, severity_medium, severity_high, severity_critical,
}
use griefer_security_platfor.Incidents.{Finding}

-- severityWeight
abbrev severity_weight : List (String × ℕ)
severity_weight =
    (severity_informational, 1)
    ∷ (severity_low, 3)
    ∷ (severity_medium, 7)
    ∷ (severity_high, 13)
    ∷ (severity_critical, 20)
    ∷ []

pub record Assessment : Type 0 where
  pub score : ℕ
  pub severity : String
  pub confidence : Float64
  pub evidence_categories : ℕ

pub record Input : Type 0 where
  pub findings : List Finding
  pub blast_score : ℤ
  pub touches_critical : Bool

-- What Assess gathers of one category.
pub record CategoryEvidence : Type 0 where
  pub best_weighted : Float64
  pub best_confidence : Float64
  pub count : ℕ

-- clampInt, with bounds that are not negative
unfoldable pub clamp_int : ℤ → ℕ → ℕ → ℕ
clamp_int (negsuc _) lo hi = lo
clamp_int (pos v) lo hi = if ltb v lo then lo else if ltb hi v then hi else v

-- SeverityForScore
unfoldable pub severity_for_score : ℕ → String
severity_for_score score =
    if leb 70 score
    then severity_critical
    else if leb 45 score
    then severity_high
    else if leb 20 score
    then severity_medium
    else if ltb 0 score
    then severity_low
    else severity_informational

module _ (fl : FloatOps) where
  -- clamp01
  unfoldable pub clamp01 : Float64 → Float64
  clamp01 v =
      if fl.is_nan v || fl.less v (fl.of_int 0)
      then fl.of_int 0
      else if fl.less (fl.of_int 1) v
      then fl.of_int 1
      else v

  -- repetitionFactor
  unfoldable pub repetition_factor : ℕ → Float64
  repetition_factor count =
      if leb count 1
      then fl.of_int 1
      else fl.add (fl.of_int 1) (
          fl.mul (fl.hundredths 50)
            (fl.sub (fl.of_int 1) (fl.exp (fl.div (fl.neg (fl.of_int (count - 1))) (fl.of_int 3)))))

  weight_or_low : Option ℕ → Float64
  weight_or_low none = fl.of_int 3
  weight_or_low (some w) = fl.of_int w

  aggregate_or_new : Option CategoryEvidence → CategoryEvidence
  aggregate_or_new none = record {
    best_weighted = fl.of_int 0;
    best_confidence = fl.of_int 0;
    count = 0;
  }
  aggregate_or_new (some agg) = agg

  -- The body of Assess's loop over the findings, for the finding's category.
  unfoldable pub note_finding : Finding → CategoryEvidence → CategoryEvidence
  unfolding clamp01 weight_or_low lookup
  note_finding f agg =
      let conf = clamp01 f.confidence in
      let weighted = fl.mul (weight_or_low (lookup f.severity severity_weight)) conf in
      record {
        best_weighted = if fl.less agg.best_weighted weighted then weighted else agg.best_weighted;
        best_confidence = if fl.less agg.best_confidence conf then conf else agg.best_confidence;
        count = suc agg.count;
      }

  -- The map `byCategory` after the loop.
  unfoldable pub by_category :
      List (String × CategoryEvidence) → List Finding → List (String × CategoryEvidence)
  unfolding insert lookup note_finding aggregate_or_new
  by_category m [] = m
  by_category m (f ∷ fs) =
      by_category (insert f.category (note_finding f (aggregate_or_new (lookup f.category m))) m) fs

  -- The sum over the categories that starts at `evidence`.
  unfoldable pub sum_evidence : Float64 → List (String × CategoryEvidence) → Float64
  unfolding repetition_factor
  sum_evidence evidence [] = evidence
  sum_evidence evidence ((c, agg) ∷ m) =
      sum_evidence (fl.add evidence (fl.mul agg.best_weighted (repetition_factor agg.count))) m

  remaining_doubt : Float64 → List (String × CategoryEvidence) → Float64
  unfolding clamp01
  remaining_doubt remaining [] = remaining
  remaining_doubt remaining ((c, agg) ∷ m) =
      remaining_doubt (fl.mul remaining (fl.sub (fl.of_int 1) (clamp01 agg.best_confidence))) m

  -- `if confidence > maxConfidence { confidence = maxConfidence }`
  capped : Float64 → Float64
  capped confidence = if fl.less (fl.hundredths 95) confidence then fl.hundredths 95 else confidence

  -- aggregateConfidence
  unfoldable pub aggregate_confidence : List (String × CategoryEvidence) → Float64
  unfolding remaining_doubt capped
  aggregate_confidence [] = fl.of_int 0
  aggregate_confidence (c ∷ m) =
      fl.div
        (fl.round (
          fl.mul (capped (fl.sub (fl.of_int 1) (remaining_doubt (fl.of_int 1) (c ∷ m))))
            (fl.of_int 1000)))
        (fl.of_int 1000)

  boosted : Bool → ℕ → Float64
  boosted touches_critical categories =
      let factor = fl.add (fl.of_int 1) (fl.mul (fl.hundredths 18) (fl.of_int (categories - 1))) in
      if touches_critical then fl.add factor (fl.hundredths 15) else factor

  -- `100 * (1 - math.Exp(-raw/scale))`, rounded to an int
  unfoldable pub saturate : Float64 → ℕ → ℤ
  saturate raw scale = fl.to_int (
      fl.round (
        fl.mul (fl.of_int 100)
          (fl.sub (fl.of_int 1) (fl.exp (fl.div (fl.neg raw) (fl.of_int scale))))))

  -- Assess's end, from the map of the categories.
  unfoldable pub assess_categories : Input → List (String × CategoryEvidence) → Assessment
  unfolding sum_evidence boosted saturate clamp_int severity_for_score aggregate_confidence
  assess_categories input m =
      let categories = length m in
      let raw =
        fl.add (fl.mul (sum_evidence (fl.of_int 0) m) (boosted input.touches_critical categories))
          (fl.mul (fl.hundredths 12) (fl.of_int (clamp_int input.blast_score 0 100))) in
      let score = clamp_int (saturate raw 55) 0 100 in
      record {
        score = score;
        severity = severity_for_score score;
        confidence = aggregate_confidence m;
        evidence_categories = categories;
      }

  assess_findings : Input → List Finding → Assessment
  unfolding assess_categories by_category
  assess_findings input [] = record {
    score = 0;
    severity = severity_informational;
    confidence = fl.of_int 0;
    evidence_categories = 0;
  }
  assess_findings input (f ∷ fs) = assess_categories input (by_category [] (f ∷ fs))

  -- Assess
  unfoldable pub assess : Input → Assessment
  unfolding assess_findings
  assess input = assess_findings input input.findings
