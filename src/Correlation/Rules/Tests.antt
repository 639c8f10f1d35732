-- ===== src/Correlation/Rules/Tests.antt =====
-- Tests of the rules.
use griefer_security_platfor.Prelude.{
  String, ◌≡◌, refl, Bool, true, false, some, List, [], ◌∷◌, ◌==◌,
}
use griefer_security_platfor.Prelude.Result.{Result, ok, err}
use griefer_security_platfor.Correlation.Rules.{
  Rule, matches, valid_field, resolve_field, allowed_fields,
}
use griefer_security_platfor.Correlation.Rules.Validate.{validate, invalid_confidence}
use griefer_security_platfor.Correlation.Rules.Load.{DirEntry, duplicate_id, load_rules}
use griefer_security_platfor.Correlation.Rules.Load.Sound.{IsRulePack, load_rules-IsRulePack}
use griefer_security_platfor.Samples.{sample_event, denied_login, second_rule, whole_numbers}

abbrev exact : String → String → Bool
exact s t = s == t

matches_login : matches exact denied_login sample_event ≡ true
unfolding matches allowed_fields
matches_login = refl

reads_label : resolve_field sample_event "labels.outcome" ≡ some "denied"
unfolding resolve_field
reads_label = refl

refuses_other_fields : valid_field "raw_reference.uri" ≡ false
unfolding valid_field
refuses_other_fields = refl

refuses_certainty_above_one :
    validate whole_numbers (record denied_login { confidence = 2 }) ≡ some invalid_confidence
unfolding validate
refuses_certainty_above_one = refl

abbrev listing : Result String (List DirEntry)
listing = ok (
    record { name = "identity.yaml"; is_dir = false }
    ∷ record { name = "README.md"; is_dir = false }
    ∷ [])

abbrev read : String → Result String String
read path = ok path

abbrev decode_two : String → Result String (List Rule)
decode_two raw = ok (second_rule ∷ denied_login ∷ [])

loads_in_order :
    load_rules whole_numbers read decode_two "rules" listing ≡ ok (denied_login ∷ second_rule ∷ [])
unfolding load_rules
loads_in_order = refl

refuses_duplicates :
    load_rules whole_numbers read (λ raw. ok (denied_login ∷ denied_login ∷ [])) "rules" listing
    ≡ err (duplicate_id "auth.denied" "rules/identity.yaml" "rules/identity.yaml")
unfolding load_rules
refuses_duplicates = refl

load_rules-IsRulePack_example : IsRulePack (denied_login ∷ second_rule ∷ [])
load_rules-IsRulePack_example =
    load_rules-IsRulePack whole_numbers read decode_two "rules" listing
      (denied_login ∷ second_rule ∷ []) loads_in_order
