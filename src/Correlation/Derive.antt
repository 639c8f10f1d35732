-- ===== src/Correlation/Derive.antt =====
-- internal/correlation/engine.go: recompute, which rebuilds what an incident derives from its findings
-- and the graph, with collectTechniques, buildTitle and appendEvidence.
pub mod Sound
use griefer_security_platfor.Prelude.{
  ℕ, zero, suc, ◌+◌, ◌-◌, ◌≤◌, ◌<◌, String, ◌≡◌, refl, sym, ap, ◌∙◌, ◌≢◌, ◌↔◌, ◌⊎◌, inl, inr, Bool,
  true, false, not, ◌&&◌, ◌||◌, Option, none, some, List, [], ◌∷◌, ◌++◌, map, arith, ◌==◌, eq_iff,
  eq_refl, ltb, leb, if◌then◌else◌, text_lt, Bool-cases, Option-cases, length, take, drop,
  length-append, length-take, length-drop, take-append-drop, leb→le, ltb→lt, All, Any,
  text_eq-false_of_ne, ne_of_text_eq-false,
}
use Prim.Native.String.{◌++◌ as ◌++ₛ◌}
use griefer_security_platfor.Prelude.Int.{pos}
use griefer_security_platfor.Prelude.Dict.{contains, insert}
use griefer_security_platfor.Prelude.Float.{FloatOps}
use griefer_security_platfor.Prelude.Sort.{sort_by}
use griefer_security_platfor.Events.{
  SecurityEvent, Actor, Target, category_authentication, category_session_anomaly,
  category_privilege_escalation, category_credential_access, category_cloud_access,
  category_data_access, category_process_execution, category_network_activity,
  category_config_change,
}
use griefer_security_platfor.Graph.{
  Entity, BlastRadius, split_entity_id, criticality_medium, criticality_critical, type_identity,
  default_max_hops,
}
use griefer_security_platfor.Graph.Store.{Graph, entity}
use griefer_security_platfor.Graph.Reach.{estimate_blast_radius}
use griefer_security_platfor.Incidents.{Incident, Finding, Technique, EntityRef, Evidence}
use griefer_security_platfor.Incidents.Categories.{evidence_categories}
use griefer_security_platfor.Risk.{Assessment, Input, assess}
use griefer_security_platfor.Correlation.Recommend.{recommend_actions}

add_new : List String → List String → List String
unfolding contains
add_new ids [] = ids
add_new ids (id ∷ more) = add_new (if contains ids id then ids else ids ++ id ∷ []) more

gather_ids : List String → List Finding → List String
unfolding add_new
gather_ids ids [] = ids
gather_ids ids (f ∷ fs) = gather_ids (add_new ids f.entity_ids) fs

-- The identifiers that recompute collects and sorts.
unfoldable pub entity_ids_of : List Finding → List String
unfolding gather_ids sort_by
entity_ids_of findings = sort_by text_lt (gather_ids [] findings)

ref_of_id : String → Option (String × String) → List EntityRef
ref_of_id id none = []
ref_of_id id (some (kind, key)) =
    record { id = id; kind = kind; name = key; criticality = criticality_medium } ∷ []

-- What one identifier adds to the references.
ref_of : String → Option Entity → List EntityRef
unfolding ref_of_id split_entity_id
ref_of id none = ref_of_id id (split_entity_id id)
ref_of id (some ent) =
    record { id = ent.id; kind = ent.kind; name = ent.name; criticality = ent.criticality } ∷ []

unfoldable pub entity_refs : Graph → List String → List EntityRef
unfolding ref_of entity
entity_refs g [] = []
entity_refs g (id ∷ ids) = ref_of id (entity id g) ++ entity_refs g ids

is_critical : Option Entity → Bool
is_critical none = false
is_critical (some ent) = ent.criticality == criticality_critical

any_critical : Graph → List String → Bool
unfolding is_critical entity
any_critical g [] = false
any_critical g (id ∷ ids) = if is_critical (entity id g) then true else any_critical g ids

note_techniques : List Technique → List (String × Technique) → List (String × Technique)
unfolding insert
note_techniques [] seen = seen
note_techniques (t ∷ ts) seen = note_techniques ts (insert t.id t seen)

note_all_techniques : List Finding → List (String × Technique) → List (String × Technique)
unfolding note_techniques
note_all_techniques [] seen = seen
note_all_techniques (f ∷ fs) seen = note_all_techniques fs (note_techniques f.techniques seen)

-- collectTechniques
unfoldable pub collect_techniques : List Finding → List Technique
unfolding note_all_techniques sort_by
collect_techniques findings =
    sort_by (λ a b. text_lt a.id b.id) (map (λ e. e.1) (note_all_techniques findings []))

actor_name : Option Actor → String
actor_name none = "unattributed actor"
actor_name (some a) =
    if not (a.name == "") then a.name else if not (a.id == "") then a.id else "unattributed actor"

target_suffix : Option Target → String
target_suffix none = ""
target_suffix (some t) = " on " ++ₛ (if t.name == "" then t.id else t.name)

-- evidenceSummary
unfoldable pub evidence_summary : SecurityEvent → String
unfolding actor_name target_suffix
evidence_summary ev = actor_name ev.actor ++ₛ (": " ++ₛ (ev.event_type ++ₛ target_suffix ev.target))

abbrev pub max_incident_evidence : ℕ
max_incident_evidence = 200

abbrev pub event_ids_of : List Evidence → List String
event_ids_of evidence = map (λ e. e.event_id) evidence

earlier : Evidence → Evidence → Bool
earlier a b =
    if ltb a.occurred_at b.occurred_at || ltb b.occurred_at a.occurred_at
    then ltb a.occurred_at b.occurred_at
    else text_lt a.event_id b.event_id

evidence_of : SecurityEvent → Evidence
unfolding evidence_summary
evidence_of ev = record {
  event_id = ev.id;
  occurred_at = ev.timestamp;
  category = ev.category;
  summary = evidence_summary ev;
  source_name = ev.source_name;
}

-- appendEvidence, of an event that is not nil
unfoldable pub append_evidence : SecurityEvent → List Evidence → List Evidence
unfolding contains evidence_of earlier sort_by
append_evidence ev evidence =
    if contains (event_ids_of evidence) ev.id || leb max_incident_evidence (length evidence)
    then evidence
    else sort_by earlier (evidence ++ evidence_of ev ∷ [])

-- humanCategory
human_category : String → String
human_category c =
    if c == category_authentication
    then "Authentication"
    else if c == category_session_anomaly
    then "Session"
    else if c == category_privilege_escalation
    then "Privilege escalation"
    else if c == category_credential_access
    then "Credential access"
    else if c == category_cloud_access
    then "Cloud access"
    else if c == category_data_access
    then "Data access"
    else if c == category_process_execution
    then "Process execution"
    else if c == category_network_activity
    then "Network"
    else if c == category_config_change
    then "Configuration change"
    else c

title_identity : String → List EntityRef → String
title_identity primary [] = primary
title_identity primary (e ∷ es) =
    if e.kind == type_identity && not (e.name == "") then e.name else title_identity primary es

unfoldable pub assessment_input : Graph → List Finding → BlastRadius → Input
unfolding any_critical entity_ids_of
assessment_input g findings blast = record {
  findings = findings;
  blast_score = pos blast.score;
  touches_critical = any_critical g (entity_ids_of findings) || ltb 0 blast.critical_assets;
}

-- What the engine calls and the repository does not hold: float64, fmt's %d and strings.EqualFold.
pub record Env : Type 0 where
  pub float : FloatOps
  pub decimal : ℕ → String
  pub equal_fold : String → String → Bool

module _ (env : Env) where
  title_for : List String → String → String
  unfolding human_category
  title_for [] identity = "Activity involving " ++ₛ identity
  title_for (c ∷ []) identity = human_category c ++ₛ (" activity involving " ++ₛ identity)
  title_for (c ∷ d ∷ cs) identity =
      "Multi-stage activity involving "
      ++ₛ (identity ++ₛ (" (" ++ₛ (env.decimal (length (c ∷ d ∷ cs)) ++ₛ " evidence categories)")))

  -- buildTitle
  unfoldable pub build_title : Incident → String
  unfolding title_for title_identity evidence_categories
  build_title inc =
      title_for (evidence_categories inc.findings)
        (title_identity inc.primary_identity inc.entities)

  -- The risk assessment of recompute.
  unfoldable pub assessment_of : Graph → List Finding → BlastRadius → Assessment
  unfolding assess assessment_input
  assessment_of g findings blast = assess env.float (assessment_input g findings blast)

  -- recompute, once the findings are sorted
  unfoldable pub recompute_sorted : Graph → SecurityEvent → List Finding → Incident → Incident
  unfolding entity_refs entity_ids_of estimate_blast_radius assessment_of collect_techniques
      recommend_actions build_title append_evidence
  recompute_sorted g latest findings inc =
      let ids = entity_ids_of findings in
      let entities = entity_refs g ids in
      let blast = estimate_blast_radius env.decimal env.float ids (pos default_max_hops) g in
      let assessment = assessment_of g findings blast in
      let derived = record inc {
        findings = findings;
        entities = entities;
        blast_radius = blast;
        risk_score = assessment.score;
        severity = assessment.severity;
        confidence = assessment.confidence;
        attack_techniques = collect_techniques findings;
        recommended_actions = recommend_actions findings entities;
        evidence = append_evidence latest inc.evidence;
      } in
      record derived { title = build_title derived }

  -- recompute
  unfoldable pub recompute : Graph → SecurityEvent → Incident → Incident
  unfolding recompute_sorted sort_by
  recompute g latest inc =
      recompute_sorted g latest (sort_by (λ a b. text_lt a.rule_id b.rule_id) inc.findings) inc
