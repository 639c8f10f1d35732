-- ===== src/Incidents.antt =====
-- internal/incidents/model.go: findings, incidents, response actions and policy decisions.
pub mod Catalog
pub mod Categories
mod Tests
use griefer_security_platfor.Prelude.{ℕ, String, Bool, Option, List, ◌==◌, ◌||◌}
use griefer_security_platfor.Prelude.Float.{Float64}
use griefer_security_platfor.Events.{Time}
use griefer_security_platfor.Graph.{BlastRadius}

pub record Technique : Type 0 where
  pub id : String
  pub name : String
  pub tactic : String

pub record Finding : Type 0 where
  pub id : String
  pub rule_id : String
  pub title : String
  pub description : String
  pub category : String
  pub severity : String
  pub confidence : Float64
  pub techniques : List Technique
  pub entity_ids : List String
  pub event_ids : List String
  pub first_seen : Time
  pub last_seen : Time

pub record EntityRef : Type 0 where
  pub id : String
  pub kind : String
  pub name : String
  pub criticality : String

pub record Evidence : Type 0 where
  pub event_id : String
  pub occurred_at : Time
  pub category : String
  pub summary : String
  pub source_name : String

pub data Status : Type 0 where
  open_status investigating contained closed : Status

pub record RecommendedAction : Type 0 where
  pub action_type : String
  pub title : String
  pub rationale : String
  pub reversible : Bool
  pub destructive : Bool
  pub rollback_action : String
  pub target_entity_id : String
  pub targets_critical_asset : Bool

pub record Incident : Type 0 where
  pub id : String
  pub schema_version : String
  pub title : String
  pub status : Status
  pub severity : String
  pub risk_score : ℕ
  pub confidence : Float64
  pub first_seen : Time
  pub last_seen : Time
  pub updated_at : Time
  pub primary_identity : String
  pub entities : List EntityRef
  pub findings : List Finding
  pub attack_techniques : List Technique
  pub blast_radius : BlastRadius
  pub recommended_actions : List RecommendedAction
  pub evidence : List Evidence

abbrev pub mode_simulate : String
mode_simulate = "simulate"

abbrev pub mode_execute : String
mode_execute = "execute"

-- Mode.Valid
unfoldable pub valid_mode : String → Bool
valid_mode m = m == mode_simulate || m == mode_execute

-- The states of a response action; `unset` is the empty text that a new action starts with.
pub data ActionStatus : Type 0 where
  unset simulated requires_approval denied rejected : ActionStatus

pub record PolicyDecision : Type 0 where
  pub effect : String
  pub allow : Bool
  pub reasons : List String
  pub policy_package : String
  pub policy_version : String
  pub evaluated_at : Time
  pub fail_closed : Bool
  pub engine : String

pub record SimulatedEffect : Type 0 where
  pub description : String
  pub affected_entities : List String
  pub rollback_plan : String

pub record ResponseAction : Type 0 where
  pub id : String
  pub incident_id : String
  pub action_type : String
  pub mode : String
  pub status : ActionStatus
  pub requested_by : String
  pub policy_decision : Option PolicyDecision
  pub reason : String
  pub reversible : Bool
  pub destructive : Bool
  pub rollback_action : String
  pub target_entity_id : String
  pub simulated_effect : Option SimulatedEffect
  pub created_at : Time
  pub executed_at : Option Time
