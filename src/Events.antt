-- ===== src/Events.antt =====
-- internal/events/event.go: the normalized security event.
-- A Go pointer that may be nil is an `Option`; a nil map and an empty map read alike and are the
-- empty list; a time is the nanoseconds since Go's zero time, so `IsZero` is 0.
pub mod Guard
pub mod Normalize
mod Tests
use griefer_security_platfor.Prelude.{
  ℕ, String, ◌≡◌, refl, Bool, true, false, Option, none, some, List, [], ◌∷◌, arith, ◌==◌, ltb,
  if◌then◌else◌,
}
use Prim.Native.String.{◌++◌}
use griefer_security_platfor.Prelude.Dict.{lookup}
use griefer_security_platfor.Prelude.Text.{Unicode, to_lower}

abbrev pub Time : Type 0
Time = ℕ

abbrev pub schema_version : String
schema_version = "0.1"

abbrev pub severity_informational : String
severity_informational = "informational"

abbrev pub severity_low : String
severity_low = "low"

abbrev pub severity_medium : String
severity_medium = "medium"

abbrev pub severity_high : String
severity_high = "high"

abbrev pub severity_critical : String
severity_critical = "critical"

abbrev pub severity_rank : List (String × ℕ)
severity_rank =
    (severity_informational, 0)
    ∷ (severity_low, 1)
    ∷ (severity_medium, 2)
    ∷ (severity_high, 3)
    ∷ (severity_critical, 4)
    ∷ []

-- Severity.Rank: a missing key reads as 0.
unfoldable pub rank : String → ℕ
unfolding lookup
rank s = elim (lookup s severity_rank) [ none ↦ 0 | some n ↦ n ]

-- Severity.Valid
unfoldable pub valid_severity : String → Bool
unfolding lookup
valid_severity s = elim (lookup s severity_rank) [ none ↦ false | some _ ↦ true ]

-- Severity.Max
unfoldable pub max_severity : String → String → String
unfolding rank
max_severity s other = if ltb (rank s) (rank other) then other else s

abbrev pub category_authentication : String
category_authentication = "authentication"

abbrev pub category_session_anomaly : String
category_session_anomaly = "session_anomaly"

abbrev pub category_privilege_escalation : String
category_privilege_escalation = "privilege_escalation"

abbrev pub category_credential_access : String
category_credential_access = "credential_access"

abbrev pub category_cloud_access : String
category_cloud_access = "cloud_access"

abbrev pub category_data_access : String
category_data_access = "data_access"

abbrev pub category_process_execution : String
category_process_execution = "process_execution"

abbrev pub category_network_activity : String
category_network_activity = "network_activity"

abbrev pub category_config_change : String
category_config_change = "configuration_change"

pub record Actor : Type 0 where
  pub kind : String
  pub id : String
  pub name : String
  pub domain : String
  pub session_id : String
  pub privileged : Bool

pub record Target : Type 0 where
  pub kind : String
  pub id : String
  pub name : String
  pub criticality : String

pub record Device : Type 0 where
  pub id : String
  pub hostname : String
  pub os : String
  pub managed : Option Bool
  pub compliant : Option Bool

pub record Network : Type 0 where
  pub source_ip : String
  pub destination_ip : String
  pub asn : String
  pub country : String
  pub first_seen_for_actor : Bool

pub record Cloud : Type 0 where
  pub provider : String
  pub account_id : String
  pub region : String
  pub resource_id : String
  pub resource_type : String

pub record RawReference : Type 0 where
  pub uri : String
  pub digest : String
  pub size_bytes : ℕ

pub record SecurityEvent : Type 0 where
  pub id : String
  pub schema_version : String
  pub timestamp : Time
  pub received_at : Time
  pub source_type : String
  pub source_name : String
  pub event_type : String
  pub category : String
  pub severity : String
  pub actor : Option Actor
  pub target : Option Target
  pub device : Option Device
  pub network : Option Network
  pub cloud : Option Cloud
  pub raw_reference : Option RawReference
  pub labels : List (String × String)
  pub correlation_id : String
  pub quarantined : List String

-- SecurityEvent.ActorKey
unfoldable pub actor_key : Unicode → SecurityEvent → String
actor_key u e = elim e.actor [
  | none ↦ ""
  | some a ↦ if a.id == "" then "" else to_lower u (a.kind ++ ":" ++ a.id)
]
