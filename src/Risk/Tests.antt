-- ===== src/Risk/Tests.antt =====
-- Tests of the scoring, over whole numbers in place of float64.
use griefer_security_platfor.Prelude.{◌≡◌, refl, true, length}
use griefer_security_platfor.Prelude.Int.{pos, negsuc}
use griefer_security_platfor.Incidents.Categories.{evidence_categories}
use griefer_security_platfor.Risk.{Input, assess, severity_for_score, clamp_int}
use griefer_security_platfor.Risk.Bounds.{IsOnScale, assess-IsOnScale}
use griefer_security_platfor.Samples.{sample_findings, whole_numbers}

abbrev sample_input : Input
sample_input = record {
  findings = sample_findings;
  blast_score = negsuc 4;
  touches_critical = true;
}

two_categories : (assess whole_numbers sample_input).evidence_categories ≡ 2
unfolding assess
two_categories = refl

clamps : clamp_int (pos 140) 0 100 ≡ 100
unfolding clamp_int
clamps = refl

middle_is_high : severity_for_score 45 ≡ "high"
unfolding severity_for_score
middle_is_high = refl

assess-IsOnScale_example :
    IsOnScale (assess whole_numbers sample_input) (length (evidence_categories sample_findings))
assess-IsOnScale_example = assess-IsOnScale whole_numbers sample_input
