-- ===== src/Correlation/Recommend.antt =====
-- internal/correlation/recommend.go: the actions that an incident recommends.
pub mod Safe
pub mod Complete
mod Tests
use griefer_security_platfor.Prelude.{
  ℕ, zero, suc, ◌+◌, ◌-◌, ◌≤◌, ◌<◌, String, ◌≡◌, refl, sym, ap, ◌∙◌, ◌≢◌, ◌↔◌, ◌⊎◌, inl, inr, Bool,
  true, false, not, ◌&&◌, ◌||◌, Option, none, some, List, [], ◌∷◌, ◌++◌, map, arith, ◌==◌, eq_iff,
  eq_refl, ltb, leb, if◌then◌else◌, text_lt, Bool-cases, Option-cases, length, take, drop,
  length-append, length-take, length-drop, take-append-drop, leb→le, ltb→lt, All, Any,
  text_eq-false_of_ne, ne_of_text_eq-false,
}
use griefer_security_platfor.Prelude.{eqb}
use griefer_security_platfor.Prelude.Dict.{contains, lookup}
use griefer_security_platfor.Prelude.Result.{Result, ok, err}
use griefer_security_platfor.Prelude.Sort.{sort_by}
use griefer_security_platfor.Events.{
  category_authentication, category_session_anomaly, category_privilege_escalation,
  category_credential_access, category_cloud_access, category_data_access,
  category_process_execution, category_network_activity, category_config_change,
}
use griefer_security_platfor.Graph.{
  rank, type_identity, type_account, type_endpoint, type_secret, criticality_critical,
}
use griefer_security_platfor.Incidents.{Finding, EntityRef, RecommendedAction}
use griefer_security_platfor.Incidents.Catalog.{ActionSpec, CatalogError, lookup_action}

-- categoryActions
abbrev category_actions : List (String × List String)
category_actions =
    (category_authentication, "require_mfa" ∷ [])
    ∷ (category_session_anomaly, "revoke_sessions" ∷ [])
    ∷ (category_privilege_escalation, "temporarily_suspend_privileges" ∷ [])
    ∷ (category_credential_access, "rotate_exposed_secret" ∷ [])
    ∷ (category_cloud_access, "preserve_evidence" ∷ [])
    ∷ (category_data_access, "preserve_evidence" ∷ [])
    ∷ (category_process_execution, "isolate_endpoint" ∷ [])
    ∷ (category_network_activity, "isolate_endpoint" ∷ [])
    ∷ (category_config_change, "preserve_evidence" ∷ [])
    ∷ []

-- actionTargetTypes
abbrev action_target_types : List (String × List String)
action_target_types =
    ("require_mfa", type_identity ∷ type_account ∷ [])
    ∷ ("revoke_sessions", type_identity ∷ type_account ∷ [])
    ∷ ("temporarily_suspend_privileges", type_identity ∷ type_account ∷ [])
    ∷ ("isolate_endpoint", type_endpoint ∷ [])
    ∷ ("rotate_exposed_secret", type_secret ∷ [])
    ∷ ("preserve_evidence", type_identity ∷ type_account ∷ [])
    ∷ []

-- actionRationale
abbrev action_rationale : List (String × String)
action_rationale =
    (
      "require_mfa",
      "Authentication evidence is present; a step-up challenge tests whether the session is still under the legitimate user's control.",
    )
    ∷ (
      "revoke_sessions",
      "Session evidence suggests an established foothold; invalidating tokens forces re-authentication.",
    )
    ∷ (
      "temporarily_suspend_privileges",
      "Privilege change was observed; suspending elevated roles removes the durable access the change created.",
    )
    ∷ (
      "rotate_exposed_secret",
      "A stored secret was read; rotation retires the value the attacker may now hold.",
    )
    ∷ (
      "isolate_endpoint",
      "An endpoint is implicated; isolation limits further lateral movement while the investigation runs.",
    )
    ∷ (
      "preserve_evidence",
      "Evidence should be held before any containment step changes the state an investigation depends on.",
    )
    ∷ []

texts_or_none : Option (List String) → List String
texts_or_none none = []
texts_or_none (some xs) = xs

text_or_empty : Option String → String
text_or_empty none = ""
text_or_empty (some s) = s

-- `wanted[t] = true`
unfoldable pub want : String → List String → List String
unfolding contains
want t wanted = if contains wanted t then wanted else t ∷ wanted

want_all : List String → List String → List String
unfolding want
want_all [] wanted = wanted
want_all (t ∷ ts) wanted = want_all ts (want t wanted)

-- `categoryActions[f.Category]`: the steps that the category of a finding calls for
unfoldable pub called_for : Finding → List String
unfolding texts_or_none lookup
called_for f = texts_or_none (lookup f.category category_actions)

want_for_findings : List Finding → List String → List String
unfolding want_all called_for
want_for_findings [] wanted = wanted
want_for_findings (f ∷ fs) wanted = want_for_findings fs (want_all (called_for f) wanted)

has_endpoint : List EntityRef → Bool
has_endpoint [] = false
has_endpoint (e ∷ es) = if e.kind == type_endpoint then true else has_endpoint es

-- The set `wanted` of recommendActions.
unfoldable pub wanted_types : List Finding → List EntityRef → List String
unfolding want_for_findings has_endpoint want
wanted_types findings entities =
    let wanted = want_for_findings findings ("preserve_evidence" ∷ []) in
    if has_endpoint entities then want "isolate_endpoint" wanted else wanted

is_better : EntityRef → Option EntityRef → Bool
unfolding rank
is_better e none = true
is_better e (some best) =
    ltb (rank best.criticality) (rank e.criticality)
    || eqb (rank e.criticality) (rank best.criticality) && text_lt e.id best.id

best_of : String → Option EntityRef → List EntityRef → Option EntityRef
unfolding is_better
best_of wanted best [] = best
best_of wanted best (e ∷ es) =
    best_of wanted (if e.kind == wanted && is_better e best then some e else best) es

or_later : Option EntityRef → Option EntityRef → Option EntityRef
or_later none later = later
or_later (some e) later = some e

first_target : List String → List EntityRef → Option EntityRef
unfolding best_of or_later
first_target [] entities = none
first_target (t ∷ ts) entities = or_later (best_of t none entities) (first_target ts entities)

-- resolveTarget
unfoldable pub resolve_target : String → List EntityRef → Option EntityRef
unfolding first_target texts_or_none lookup
resolve_target action_type entities =
    first_target (texts_or_none (lookup action_type action_target_types)) entities

proposal : String → ActionSpec → RecommendedAction
unfolding text_or_empty lookup
proposal action_type spec = record {
  action_type = spec.type_name;
  title = spec.title;
  rationale = text_or_empty (lookup action_type action_rationale);
  reversible = spec.reversible;
  destructive = spec.destructive;
  rollback_action = spec.rollback_action;
  target_entity_id = "";
  targets_critical_asset = false;
}

unfoldable pub aim : Option EntityRef → RecommendedAction → RecommendedAction
aim none a = a
aim (some e) a = record a {
  target_entity_id = e.id;
  targets_critical_asset = e.criticality == criticality_critical;
}

-- `if spec.Destructive { continue }`
unless_destructive : Bool → RecommendedAction → List RecommendedAction
unless_destructive true a = []
unless_destructive false a = a ∷ []

-- The body of the loop over the types: what it appends.
propose : String → List EntityRef → Result CatalogError ActionSpec → List RecommendedAction
unfolding aim proposal resolve_target unless_destructive
propose action_type entities (err e) = []
propose action_type entities (ok spec) =
    unless_destructive spec.destructive
      (aim (resolve_target action_type entities) (proposal action_type spec))

propose_all : List String → List EntityRef → List RecommendedAction
unfolding propose lookup_action
propose_all [] entities = []
propose_all (t ∷ ts) entities = propose t entities (lookup_action t) ++ propose_all ts entities

-- recommendActions
unfoldable pub recommend_actions : List Finding → List EntityRef → List RecommendedAction
unfolding propose_all sort_by wanted_types
recommend_actions findings entities =
    propose_all (sort_by text_lt (wanted_types findings entities)) entities
