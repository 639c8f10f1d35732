-- ===== src/Api/Evaluate.antt =====
-- internal/api/service.go: EvaluateAction, which has the Policy Kernel judge a proposed action and
-- records the outcome.
-- The identifiers and times that a run draws from internal/idgen and the clock, the operator and the
-- request id of its context, and the texts of Go's `fmt` are the fields of `Run`.
pub mod Safety
pub mod Recorded
use griefer_security_platfor.Prelude.{
  ℕ, zero, suc, ◌+◌, ◌-◌, ◌≤◌, ◌<◌, String, ◌≡◌, refl, sym, ap, ◌∙◌, ◌≢◌, ◌↔◌, ◌⊎◌, inl, inr, Bool,
  true, false, not, ◌&&◌, ◌||◌, Option, none, some, List, [], ◌∷◌, ◌++◌, map, arith, ◌==◌, eq_iff,
  eq_refl, ltb, leb, if◌then◌else◌, text_lt, Bool-cases, Option-cases, length, take, drop,
  length-append, length-take, length-drop, take-append-drop, leb→le, ltb→lt, All, Any,
  text_eq-false_of_ne, ne_of_text_eq-false,
}
use Prim.Native.String.{◌++◌ as ◌++ₛ◌}
use griefer_security_platfor.Prelude.Dict.{insert}
use griefer_security_platfor.Prelude.Result.{Result, ok, err}
use griefer_security_platfor.Events.{Time}
use griefer_security_platfor.Graph.Store.{Graph}
use griefer_security_platfor.Incidents.{
  Incident, EntityRef, ResponseAction, ActionStatus, unset, simulated, requires_approval, denied,
  rejected, PolicyDecision, SimulatedEffect, mode_simulate, valid_mode,
}
use griefer_security_platfor.Incidents.Catalog.{
  ActionSpec, CatalogError, unknown_action_type, lookup_action,
}
use griefer_security_platfor.Incidents.Categories.{evidence_categories}
use griefer_security_platfor.Policy.{
  Input, Kernel, KernelError, engine_failed, undecodable, endpoint_status, no_document, malformed,
  Verdict, effect_allow, effect_deny, effect_require_approval,
}
use griefer_security_platfor.Audit.{
  Entry, Detail, text, number, flag, texts, PrepareError, prepare, system_actor,
}
use griefer_security_platfor.Storage.{
  MemoryStore, StoreError, not_found, get_incident, save_action_with_audit,
}
use griefer_security_platfor.Httpx.{Operator}
use griefer_security_platfor.Api.Target.{resolve_action_target}

-- `fmt.Sprintf` with one `%q`, and with one `%d`
pub record Format : Type 0 where
  pub quote : String → String
  pub sprintf_count : String → ℕ → String

pub record Run : Type 0 where
  pub format : Format
  pub principal : Operator
  pub request_id : String
  pub action_id : String
  pub now : Time
  pub audit_ids : ℕ → String
  pub audit_now : Time
  pub policy_revision : String

pub record EvaluateRequest : Type 0 where
  pub incident_id : String
  pub action_type : String
  pub mode : String
  pub requested_by : String
  pub automated : Bool

pub data EvaluateError : Type 0 where
  unknown_action : CatalogError → EvaluateError
  invalid_mode : String → EvaluateError
  incident_not_found : EvaluateError
  load_failed : StoreError → EvaluateError

-- What a path of EvaluateAction hands to persistEvaluation, and the error that it returns.
pub record Outcome : Type 0 where
  pub action : Option ResponseAction
  pub entries : List Entry
  pub error : Option EvaluateError

-- joinReasons
join_rest : String → List String → String
join_rest out [] = out
join_rest out (r ∷ rs) = join_rest (out ++ₛ (" " ++ₛ r)) rs

unfoldable pub join_reasons : List String → String
unfolding join_rest
join_reasons [] = "No reason was recorded; GRIEFER treats this as a denial."
join_reasons (r ∷ rs) = join_rest r rs

-- auditActionFor
unfoldable pub audit_action_for : ActionStatus → String
audit_action_for simulated = "response.simulated"
audit_action_for requires_approval = "response.requires_approval"
audit_action_for rejected = "response.rejected"
audit_action_for unset = "response.denied"
audit_action_for denied = "response.denied"

-- auditOutcomeFor
unfoldable pub audit_outcome_for : String → String
audit_outcome_for effect =
    if effect == effect_allow
    then "success"
    else if effect == effect_require_approval
    then "pending"
    else "denied"

-- `errors.Is(err, context.DeadlineExceeded)`
is_deadline : KernelError → Bool
is_deadline (engine_failed d _) = d
is_deadline (undecodable _) = false
is_deadline (endpoint_status _) = false
is_deadline no_document = false
is_deadline (malformed _ _) = false

-- evaluationResult
unfoldable pub evaluation_result : ActionStatus → Option KernelError → String
unfolding is_deadline
evaluation_result _ (some e) = if is_deadline e then "policy_timeout" else "policy_unavailable"
evaluation_result simulated none = "allowed"
evaluation_result requires_approval none = "requires_approval"
evaluation_result denied none = "denied"
evaluation_result rejected none = "denied"
evaluation_result unset none = "denied"

-- affectedEntities
affected_entities : Incident → String → List String
affected_entities inc target = if target == "" then map (λ e. e.id) inc.entities else target ∷ []

-- buildSimulatedEffect
unfoldable pub build_simulated_effect : Format → ActionSpec → Incident → String → SimulatedEffect
unfolding affected_entities
build_simulated_effect fmt spec inc target =
    let affected = affected_entities inc target in
    record {
      description = fmt.sprintf_count spec.simulation_template (length affected);
      affected_entities = affected;
      rollback_plan =
          if spec.rollback_action == ""
          then "No rollback exists for this action; it would require human approval before execution."
          else "Run " ++ₛ (fmt.quote spec.rollback_action ++ₛ " to reverse this action.");
    }

-- applyDecision
unfoldable pub apply_decision :
    Format → ResponseAction → ActionSpec → Incident → PolicyDecision → ResponseAction
unfolding join_reasons build_simulated_effect
apply_decision fmt action spec inc d =
    if d.effect == effect_deny
    then record action { status = denied; reason = join_reasons d.reasons }
    else if d.effect == effect_require_approval
    then record action { status = requires_approval; reason = join_reasons d.reasons }
    else if d.effect == effect_allow
    then if action.mode == mode_simulate
      then record action {
        status = simulated;
        reason = join_reasons d.reasons;
        simulated_effect = some (build_simulated_effect fmt spec inc action.target_entity_id);
      }
      else record action {
        status = requires_approval;
        reason =
            "GRIEFER v0.1 implements simulation only; no actuator exists for mode \"execute\".";
      }
    else record action {
      status = denied;
      reason = "Policy Kernel returned an unrecognised effect; GRIEFER denies by default.";
    }

-- `actor`, with the platform itself where no operator is named
unfoldable pub actor_of : Operator → String
actor_of p = if p.subject == "" then system_actor else p.subject

abbrev pub mode_of : EvaluateRequest → String
mode_of req = if req.mode == "" then mode_simulate else req.mode

unfoldable pub new_action : Run → EvaluateRequest → ResponseAction
unfolding actor_of
new_action r req = record {
  id = r.action_id;
  incident_id = req.incident_id;
  action_type = req.action_type;
  mode = mode_of req;
  status = unset;
  requested_by = actor_of r.principal;
  policy_decision = none;
  reason = "";
  reversible = false;
  destructive = false;
  rollback_action = "";
  target_entity_id = "";
  simulated_effect = none;
  created_at = r.now;
  executed_at = none;
}

put_all : List (String × Detail) → List (String × Detail) → List (String × Detail)
unfolding insert
put_all [] details = details
put_all ((k, v) ∷ extra) details = put_all extra (insert k v details)

-- base: the shape that every entry of an evaluation has.
unfoldable pub base :
    Run → EvaluateRequest → (result action outcome reason : String) → List (String × Detail) → Entry
unfolding put_all actor_of
base r req result action outcome reason extra = record {
  id = "";
  sequence = 0;
  timestamp = 0;
  actor = actor_of r.principal;
  actor_role = r.principal.role;
  action = action;
  subject_type = "action";
  subject_id = r.action_id;
  outcome = outcome;
  reason = reason;
  request_id = r.request_id;
  details = put_all extra (
      ("result", text result)
      ∷ ("incident_id", text req.incident_id)
      ∷ ("action_type", text req.action_type)
      ∷ ("mode", text (mode_of req))
      ∷ ("response_action_id", text r.action_id)
      ∷ ("policy_revision", text r.policy_revision)
      ∷ []);
}

-- A request that is turned away before any policy is consulted, its action kept as rejected.
reject : Run → EvaluateRequest → String → String → EvaluateError → Outcome
unfolding base new_action
reject r req result why e = record {
  action = some (record (new_action r req) { status = rejected; reason = why });
  entries = base r req result "response.rejected" "denied" why [] ∷ [];
  error = some e;
}

-- The request that the kernel judges.
unfoldable pub policy_input : Graph → Run → EvaluateRequest → ActionSpec → Incident → Input
unfolding resolve_action_target evidence_categories actor_of
policy_input g r req spec inc =
    let target = resolve_action_target g inc spec.type_name in
    record {
      action = record {
        type_name = spec.type_name;
        mode = mode_of req;
        known = true;
        destructive = spec.destructive;
        reversible = spec.reversible;
        rollback_action = spec.rollback_action;
        targets_critical_asset = target.1;
        isolation = spec.isolation;
        target_entity_id = target.0;
      };
      incident = record {
        id = inc.id;
        risk_score = inc.risk_score;
        confidence = inc.confidence;
        severity = inc.severity;
        evidence_categories = some (evidence_categories inc.findings);
        finding_count = length inc.findings;
      };
      request = record {
        automated = r.principal.subject == "" && req.automated;
        requested_by = actor_of r.principal;
      };
    }

decision_details : ActionSpec → Incident → Input → PolicyDecision → List (String × Detail)
unfolding evidence_categories
decision_details spec inc input d =
    ("incident_id", text inc.id)
    ∷ ("action_type", text spec.type_name)
    ∷ ("effect", text d.effect)
    ∷ ("fail_closed", flag d.fail_closed)
    ∷ ("engine", text d.engine)
    ∷ ("policy_version", text d.policy_version)
    ∷ ("reversible", flag spec.reversible)
    ∷ ("destructive", flag spec.destructive)
    ∷ ("rollback_action", text spec.rollback_action)
    ∷ ("targets_critical", flag input.action.targets_critical_asset)
    ∷ ("risk_score", number inc.risk_score)
    ∷ ("evidence_types", texts (evidence_categories inc.findings))
    ∷ []

-- The action as it stands when the verdict arrives.
unfoldable pub judged_action :
    Graph → Run → EvaluateRequest → ActionSpec → Incident → PolicyDecision → ResponseAction
unfolding new_action resolve_action_target
judged_action g r req spec inc d = record (new_action r req) {
  reversible = spec.reversible;
  destructive = spec.destructive;
  rollback_action = spec.rollback_action;
  target_entity_id = (resolve_action_target g inc spec.type_name).0;
  policy_decision = some d;
}

-- EvaluateAction from the verdict on.
unfoldable pub conclude : Graph → Run → EvaluateRequest → ActionSpec → Incident → Verdict → Outcome
unfolding apply_decision judged_action evaluation_result base decision_details policy_input
    audit_outcome_for audit_action_for join_reasons
conclude g r req spec inc (d, e) =
    let action = apply_decision r.format (judged_action g r req spec inc d) spec inc d in
    let result = evaluation_result action.status e in
    record {
      action = some action;
      entries =
          base r req result "policy.evaluated" (audit_outcome_for d.effect) (join_reasons d.reasons)
            (decision_details spec inc (policy_input g r req spec inc) d)
          ∷ base r req result (audit_action_for action.status) (audit_outcome_for d.effect)
              action.reason []
          ∷ [];
      error = none;
    }

with_incident :
    Kernel → Graph → Run → EvaluateRequest → ActionSpec → Result StoreError Incident → Outcome
unfolding base conclude policy_input
with_incident kernel g r req spec (err not_found) = record {
  action = none;
  entries =
      base r req "validation_failed" "response.rejected" "denied"
        "The referenced incident does not exist." []
      ∷ [];
  error = some incident_not_found;
}
with_incident kernel g r req spec (err e) = record {
  action = none;
  entries =
      base r req "internal_error" "response.rejected" "failure" "The incident could not be loaded."
        []
      ∷ [];
  error = some (load_failed e);
}
with_incident kernel g r req spec (ok inc) =
    conclude g r req spec inc (kernel.evaluate (policy_input g r req spec inc))

with_spec :
    Kernel
    → Graph
    → Run
    → EvaluateRequest
    → Result StoreError Incident
    → Result CatalogError ActionSpec
    → Outcome
unfolding reject with_incident valid_mode
with_spec kernel g r req loaded (err e) =
    reject r req "invalid_action"
      ("Action type "
        ++ₛ (r.format.quote req.action_type ++ₛ " is not defined in the GRIEFER action catalog."))
      (unknown_action e)
with_spec kernel g r req loaded (ok spec) =
    if valid_mode (mode_of req)
    then with_incident kernel g r req spec loaded
    else reject r req "validation_failed"
        ("Response mode " ++ₛ (r.format.quote req.mode ++ₛ " is not recognised."))
        (invalid_mode req.mode)

-- EvaluateAction up to its writes, for what the store answers when the incident is loaded.
unfoldable pub judge : Kernel → Graph → Run → EvaluateRequest → Result StoreError Incident → Outcome
unfolding with_spec lookup_action
judge kernel g r req loaded = with_spec kernel g r req loaded (lookup_action req.action_type)

prepared_then :
    Result PrepareError Entry → List (Option Entry) → List (Option Entry) → List (Option Entry)
prepared_then (err _) skipped taken = skipped
prepared_then (ok e) skipped taken = some e ∷ taken

-- The loop of persistEvaluation: an entry that cannot be prepared is left out. `n` entries have drawn
-- an identifier before.
unfoldable pub prepare_all : Run → ℕ → List Entry → List (Option Entry)
unfolding prepare prepared_then
prepare_all r n [] = []
prepare_all r n (e ∷ es) =
    let skipped = prepare_all r n es in
    let taken = prepare_all r (suc n) es in
    prepared_then (prepare (r.audit_ids n) r.audit_now e) skipped taken

-- persistEvaluation: an error of the store is logged, and goes no further.
unfoldable pub persist_evaluation :
    Run → Option ResponseAction → List Entry → MemoryStore → MemoryStore
unfolding prepare_all save_action_with_audit
persist_evaluation r action entries s =
    (save_action_with_audit action (prepare_all r 0 entries) s).0

-- EvaluateAction: the action, the error, and the store that it leaves behind.
unfoldable pub evaluate_action :
    Kernel → Graph → Run → EvaluateRequest → MemoryStore → Outcome × MemoryStore
unfolding judge persist_evaluation get_incident
evaluate_action kernel g r req s =
    let o = judge kernel g r req (get_incident req.incident_id s) in
    (o, persist_evaluation r o.action o.entries s)
