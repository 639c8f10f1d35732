-- ===== src/Correlation/Derive/Sound.antt =====
-- What recompute makes of an incident.
use griefer_security_platfor.Prelude.{
  ◌≤◌, ◌≡◌, inl, inr, Bool, true, List, [], ◌∷◌, ◌++◌, arith, leb, text_lt, Bool-cases, length,
  length-append, All,
}
use mathlib.Core.List.{Nodup, map-append}
use mathlib.Core.List.Perm
use griefer_security_platfor.Prelude.Dict.{contains}
use griefer_security_platfor.Prelude.Sort.{sort_by, sort_by-All, sort_by-perm, length-sort_by}
use griefer_security_platfor.Prelude.Texts.{Nodup-snoc}
use griefer_security_platfor.Events.{SecurityEvent, valid_severity}
use griefer_security_platfor.Prelude.Int.{pos}
use griefer_security_platfor.Graph.{BlastRadius, default_max_hops}
use griefer_security_platfor.Graph.Reach.{estimate_blast_radius}
use griefer_security_platfor.Graph.Store.{Graph}
use griefer_security_platfor.Incidents.{Incident, Finding, Evidence}
use griefer_security_platfor.Incidents.Categories.{evidence_categories}
use griefer_security_platfor.Risk.{severity_for_score}
use griefer_security_platfor.Risk.Bounds.{IsOnScale, assess-IsOnScale}
use griefer_security_platfor.Correlation.Recommend.Safe.{IsProposal, recommend_actions-IsProposal}
use griefer_security_platfor.Correlation.Merge.Bounded.{FindingsValid, IsBounded}
use griefer_security_platfor.Correlation.Derive.{
  Env, recompute, recompute_sorted, append_evidence, max_incident_evidence, event_ids_of, earlier,
  evidence_of, entity_refs, entity_ids_of, assessment_of, assessment_input,
}

-- At most 200 pieces of evidence, no event twice.
pub record EvidenceValid (evidence : List Evidence) : Type 0 where
  pub bounded : length evidence ≤ max_incident_evidence
  pub once : Nodup (event_ids_of evidence)

-- What the events have left in an incident: bounded, and nothing twice.
pub record HasBounds (inc : Incident) : Type 0 where
  pub findings : FindingsValid inc.findings
  pub evidence : EvidenceValid inc.evidence

-- The values that are derived from it.
pub record IsAssessed (inc : Incident) : Type 0 where
  pub score : inc.risk_score ≤ 100
  pub graded : inc.severity ≡ severity_for_score inc.risk_score
  pub known : valid_severity inc.severity ≡ true
  pub harmless : All (IsProposal inc.entities) inc.recommended_actions

append_evidence-EvidenceValid :
    (ev : SecurityEvent) (evidence : List Evidence)
    → EvidenceValid evidence
    → EvidenceValid (append_evidence ev evidence)
unfolding append_evidence
append_evidence-EvidenceValid ev evidence h =
    let longer = evidence ++ evidence_of ev ∷ [] in
    elim (Bool-cases (contains (event_ids_of evidence) ev.id)) [
      | inl e ↦ rw e h
      | inr new ↦ elim (Bool-cases (leb max_incident_evidence (length evidence))) [
        | inl e ↦ rw (new, e) h
        | inr room ↦
            rw (new, room)
              (record {
                bounded = ground (
                  arith,
                  length-sort_by earlier longer,
                  length-append evidence (evidence_of ev ∷ []),
                  room,
                );
                once =
                    Perm.nodup
                      (Perm.map (λ x. x.event_id) (Perm.symm (sort_by-perm earlier longer)))
                      (rw (map-append (λ x. x.event_id) evidence (evidence_of ev ∷ [])) (
                        unfold evidence_of in Nodup-snoc (event_ids_of evidence) ev.id h.once new));
              })
      ]
    ]

sorted-FindingsValid :
    (less : Finding → Finding → Bool) (findings : List Finding)
    → FindingsValid findings
    → FindingsValid (sort_by less findings)
sorted-FindingsValid less findings h = record {
  bounded = sort_by-All less IsBounded findings h.bounded;
  distinct =
      Perm.nodup (Perm.map (λ x. x.rule_id) (Perm.symm (sort_by-perm less findings))) h.distinct;
}

module _ (env : Env) (g : Graph) (latest : SecurityEvent) where
  pub recompute-HasBounds :
      (inc : Incident) → HasBounds inc → HasBounds (recompute env g latest inc)
  recompute-HasBounds inc h =
      unfold recompute in
      unfold recompute_sorted in
      record {
        findings =
            sorted-FindingsValid (λ a b. text_lt a.rule_id b.rule_id) inc.findings h.findings;
        evidence = append_evidence-EvidenceValid latest inc.evidence h.evidence;
      }

  assessment_of-IsOnScale :
      (findings : List Finding) (blast : BlastRadius)
      → IsOnScale (assessment_of env g findings blast) (length (evidence_categories findings))
  assessment_of-IsOnScale findings blast =
      unfold assessment_of in
      unfold assessment_input in assess-IsOnScale env.float (assessment_input g findings blast)

  recompute_sorted-IsAssessed :
      (findings : List Finding) (inc : Incident)
      → IsAssessed (recompute_sorted env g latest findings inc)
  recompute_sorted-IsAssessed findings inc =
      let ids = entity_ids_of findings in
      let blast = estimate_blast_radius env.decimal env.float ids (pos default_max_hops) g in
      let scale = assessment_of-IsOnScale findings blast in
      unfold recompute_sorted in
      record {
        score = scale.0;
        graded = scale.1;
        known = scale.2;
        harmless = recommend_actions-IsProposal findings (entity_refs g ids);
      }

  pub recompute-IsAssessed : (inc : Incident) → IsAssessed (recompute env g latest inc)
  recompute-IsAssessed inc = unfold recompute in search recompute_sorted-IsAssessed
