-- ===== src/Api/Tests.antt =====
-- Tests of the service: a step-up challenge that an analyst asks for, under the repository's policy.
use griefer_security_platfor.Prelude.{
  ◌≡◌, refl, ◌∙◌, inl, inr, true, false, none, some, ne_of_text_eq-false,
}
use griefer_security_platfor.Prelude.Int.{pos}
use griefer_security_platfor.Prelude.Result.{Result, ok}
use griefer_security_platfor.Graph.Store.{new_graph}
use griefer_security_platfor.Incidents.{
  Incident, ResponseAction, PolicyDecision, SimulatedEffect, simulated, denied, mode_simulate,
  valid_mode,
}
use griefer_security_platfor.Incidents.Catalog.{ActionSpec, lookup_action}
use griefer_security_platfor.Policy.{Kernel, engine_failed, effect_allow}
use griefer_security_platfor.Policy.Embedded
use griefer_security_platfor.Policy.Embedded.{document, failed}
use griefer_security_platfor.Policy.Agreement.{embedded-effect}
use griefer_security_platfor.Policy.Rego.{decision, effect, deny_reasons, approval_reasons}
use griefer_security_platfor.Storage.{MemoryStore, StoreError, new_memory_store, save_incident}
use griefer_security_platfor.Api.Target.{resolve_action_target, resolve_action_target_critical}
use griefer_security_platfor.Api.Evaluate.{
  Run, EvaluateRequest, judge, judged_action, policy_input, apply_decision, evaluate_action,
  conclude,
}
use griefer_security_platfor.Api.Evaluate.Safety.{evaluate_contained, evaluate_fails_closed}
use griefer_security_platfor.Api.Evaluate.Recorded.{Recorded, evaluate_action-Recorded}
use griefer_security_platfor.Graph.{rank}
use griefer_security_platfor.Incidents.Categories.{evidence_categories}
use griefer_security_platfor.Samples.{sample_incident, critical_incident}

abbrev policy_kernel : Kernel
policy_kernel = Embedded.kernel (λ i. document (decision (λ j r. "because") i)) (λ e. "") 7

-- The engine does not answer in time.
abbrev broken_kernel : Kernel
broken_kernel = Embedded.kernel (λ i. failed true "deadline") (λ e. "") 7

abbrev by_hand : Run
by_hand = record {
  format = record { quote = λ s. s; sprintf_count = λ s n. s };
  principal = record { subject = "console:analyst"; role = "analyst" };
  request_id = "req-1";
  action_id = "act-1";
  now = 5;
  audit_ids = λ n. "aud-1";
  audit_now = 6;
  policy_revision = "sha256:0";
}

abbrev ask_mfa : EvaluateRequest
ask_mfa = record {
  incident_id = "inc-1";
  action_type = "require_mfa";
  mode = "";
  requested_by = "somebody else";
  automated = false;
}

abbrev mfa_spec : ActionSpec
mfa_spec = record {
  type_name = "require_mfa";
  title = "Require step-up MFA";
  description = "Force a step-up authentication challenge on the identity's next sign-in.";
  destructive = false;
  reversible = true;
  rollback_action = "remove_mfa_requirement";
  isolation = false;
  simulation_template =
      "Would require step-up authentication for %d identity-linked entities on next sign-in.";
}

finds_mfa : lookup_action "require_mfa" ≡ ok mfa_spec
unfolding lookup_action
finds_mfa = refl

abbrev verdict_of_policy : PolicyDecision
verdict_of_policy =
    (policy_kernel.evaluate (policy_input new_graph by_hand ask_mfa mfa_spec sample_incident)).0

abbrev simulated_mfa : ResponseAction
simulated_mfa =
    apply_decision by_hand.format
      (judged_action new_graph by_hand ask_mfa mfa_spec sample_incident verdict_of_policy) mfa_spec
      sample_incident verdict_of_policy

comes_out :
    (judge policy_kernel new_graph by_hand ask_mfa (ok sample_incident)).action ≡ some simulated_mfa
unfolding judge lookup_action valid_mode conclude
comes_out = refl

is_permitted :
    effect (policy_input new_graph by_hand ask_mfa mfa_spec sample_incident) ≡ effect_allow
unfolding effect deny_reasons approval_reasons policy_input resolve_action_target rank
    evidence_categories valid_mode
is_permitted = refl

is_allowed : verdict_of_policy.effect ≡ effect_allow
is_allowed =
    (embedded-effect (λ j r. "because") (λ e. "") 7 (λ j. document (decision (λ k r. "because") j))
      (policy_input new_graph by_hand ask_mfa mfa_spec sample_incident) refl).0
    ∙ is_permitted

evaluate_contained_example :
    (simulated_mfa.status ≡ simulated
      → (simulated_mfa.mode ≡ mode_simulate)
        × ((d : PolicyDecision) × (simulated_mfa.policy_decision ≡ some d)
            × (d.effect ≡ effect_allow)
            × (d.allow ≡ true)))
    × ((x : SimulatedEffect)
        → simulated_mfa.simulated_effect ≡ some x
        → simulated_mfa.status ≡ simulated)
    × (simulated_mfa.executed_at ≡ none)
evaluate_contained_example =
    evaluate_contained policy_kernel new_graph by_hand ask_mfa (ok sample_incident) simulated_mfa
      comes_out

abbrev loaded : Result StoreError Incident
loaded = ok sample_incident

mode_is_valid : valid_mode "simulate" ≡ true
unfolding valid_mode
mode_is_valid = refl

broken :
    (broken_kernel.evaluate (policy_input new_graph by_hand ask_mfa mfa_spec sample_incident)).1
    ≡ some (engine_failed true "deadline")
unfolding Embedded.evaluate
broken = refl

evaluate_fails_closed_example :
    (a : ResponseAction) × ((judge broken_kernel new_graph by_hand ask_mfa
        (ok sample_incident)).action
      ≡ some a)
    × (a.status ≡ denied)
    × (a.simulated_effect ≡ none)
evaluate_fails_closed_example =
    evaluate_fails_closed broken_kernel new_graph by_hand ask_mfa mfa_spec sample_incident
      (engine_failed true "deadline") finds_mfa mode_is_valid broken

abbrev one_incident : MemoryStore
one_incident = (save_incident (some sample_incident) (new_memory_store (pos 10))).0

evaluate_action-Recorded_example :
    Recorded by_hand
      (evaluate_action policy_kernel new_graph by_hand ask_mfa one_incident).0
      one_incident
      (evaluate_action policy_kernel new_graph by_hand ask_mfa one_incident).1
evaluate_action-Recorded_example =
    evaluate_action-Recorded policy_kernel new_graph by_hand ask_mfa one_incident
      (λ n. ne_of_text_eq-false "aud-1" "" refl) (ne_of_text_eq-false "act-1" "" refl)

resolve_action_target_critical_example :
    (resolve_action_target new_graph critical_incident "require_mfa").1 ≡ true
resolve_action_target_critical_example =
    resolve_action_target_critical new_graph critical_incident "require_mfa" tt (inr (inl refl))
