-- ===== src/Correlation/Recommend/Tests.antt =====
-- Tests of the recommendations.
use griefer_security_platfor.Prelude.{◌≡◌, refl, List, [], ◌∷◌, map, All}
use griefer_security_platfor.Incidents.{EntityRef}
use griefer_security_platfor.Correlation.Recommend.{recommend_actions, called_for}
use griefer_security_platfor.Correlation.Recommend.Safe.{IsProposal, recommend_actions-IsProposal}
use griefer_security_platfor.Correlation.Recommend.Complete.{IsIn, types_of, recommend_actions_lem}
use griefer_security_platfor.Samples.{sample_findings, sample_incident}

abbrev sample_entities : List EntityRef
sample_entities = sample_incident.entities

recommends_three :
    types_of (recommend_actions sample_findings sample_entities)
    ≡ "preserve_evidence" ∷ "require_mfa" ∷ "revoke_sessions" ∷ []
unfolding recommend_actions
recommends_three = refl

aims_at_alice :
    map (λ a. a.target_entity_id) (recommend_actions [] sample_entities) ≡ "identity:alice" ∷ []
unfolding recommend_actions
aims_at_alice = refl

recommend_actions-IsProposal_example :
    All (IsProposal sample_entities) (recommend_actions sample_findings sample_entities)
recommend_actions-IsProposal_example = recommend_actions-IsProposal sample_findings sample_entities

recommend_actions_lem_example :
    All
      (λ f.
        All (IsIn (types_of (recommend_actions sample_findings sample_entities))) (called_for f))
      sample_findings
    × IsIn (types_of (recommend_actions sample_findings sample_entities)) "preserve_evidence"
recommend_actions_lem_example = recommend_actions_lem sample_findings sample_entities
