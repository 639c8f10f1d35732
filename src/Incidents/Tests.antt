-- ===== src/Incidents/Tests.antt =====
-- Tests of the catalog and the categories.
use griefer_security_platfor.Prelude.{◌≡◌, refl, true, false, [], ◌∷◌}
use griefer_security_platfor.Prelude.Result.{ok}
use griefer_security_platfor.Incidents.Catalog.{
  ActionSpec, IsSound, lookup_action, lookup_action-IsSound,
}
use griefer_security_platfor.Incidents.Categories.{evidence_categories}
use griefer_security_platfor.Samples.{sample_findings}

abbrev mfa_spec : ActionSpec
mfa_spec = record {
  type_name = "require_mfa";
  title = "Require step-up MFA";
  description = "Force a step-up authentication challenge on the identity's next sign-in.";
  destructive = false;
  reversible = true;
  rollback_action = "remove_mfa_requirement";
  isolation = false;
  simulation_template =
      "Would require step-up authentication for %d identity-linked entities on next sign-in.";
}

finds_mfa : lookup_action "require_mfa" ≡ ok mfa_spec
unfolding lookup_action
finds_mfa = refl

lookup_action-IsSound_example : IsSound "require_mfa" mfa_spec
lookup_action-IsSound_example = lookup_action-IsSound "require_mfa" mfa_spec finds_mfa

counts_twice_once : evidence_categories sample_findings ≡ "authentication" ∷ "session_anomaly" ∷ []
unfolding evidence_categories
counts_twice_once = refl
