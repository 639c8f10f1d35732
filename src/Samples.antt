-- ===== src/Samples.antt =====
-- Test data that the tests of several components share: a stolen identity that reads a secret.
use griefer_security_platfor.Prelude.{ℕ, String, true, false, none, some, List, [], ◌∷◌}
use Prim.Native.Nat.{◌*◌}
use Prim.Native.Nat.{◌+◌, ◌-◌, ◌/◌}
use griefer_security_platfor.Prelude.{ltb, leb}
use griefer_security_platfor.Prelude.Int.{pos}
use griefer_security_platfor.Prelude.Float.{FloatOps}
use griefer_security_platfor.Events.{SecurityEvent}
use griefer_security_platfor.Graph.{Entity}
use griefer_security_platfor.Incidents.{Finding, Incident, open_status}
use griefer_security_platfor.Audit.{Entry}
use griefer_security_platfor.Correlation.Rules.{Rule}

abbrev pub day : ℕ
day = 86_400_000_000_000

abbrev pub sample_event : SecurityEvent
sample_event = record {
  id = "evt-1";
  schema_version = "0.1";
  timestamp = 100 * day;
  received_at = 0;
  source_type = "idp";
  source_name = " okta ";
  event_type = "login";
  category = "authentication";
  severity = "high";
  actor = some (record {
    kind = "user";
    id = "Alice";
    name = "Alice";
    domain = "CORP";
    session_id = "s-1";
    privileged = true;
  });
  target =
      some (record { kind = "secret"; id = "db-password"; name = "db"; criticality = "critical" });
  device = none;
  network = none;
  cloud = none;
  raw_reference = none;
  labels = ("outcome", "denied") ∷ ("Griefer.mode", "execute") ∷ ("policy", "allow") ∷ [];
  correlation_id = "";
  quarantined = [];
}

abbrev pub other_event : SecurityEvent
other_event = record sample_event { id = "evt-2"; labels = [] }

abbrev pub third_event : SecurityEvent
third_event = record sample_event { id = "evt-3"; labels = [] }

abbrev finding_of : String → String → Finding
finding_of id category = record {
  id = id;
  rule_id = id;
  title = id;
  description = "";
  category = category;
  severity = "high";
  confidence = 0;
  techniques = [];
  entity_ids = [];
  event_ids = "evt-1" ∷ [];
  first_seen = 100 * day;
  last_seen = 100 * day;
}

abbrev pub sample_findings : List Finding
sample_findings =
    finding_of "f-1" "session_anomaly"
    ∷ finding_of "f-2" "authentication"
    ∷ finding_of "f-3" "session_anomaly"
    ∷ []

abbrev pub sample_incident : Incident
sample_incident = record {
  id = "inc-1";
  schema_version = "0.1";
  title = "Suspected identity compromise";
  status = open_status;
  severity = "high";
  risk_score = 70;
  confidence = 0;
  first_seen = 100 * day;
  last_seen = 100 * day;
  updated_at = 100 * day;
  primary_identity = "identity:alice";
  entities =
      record { id = "identity:alice"; kind = "identity"; name = "Alice"; criticality = "high" }
      ∷ record { id = "session:s-1"; kind = "session"; name = "s-1"; criticality = "medium" }
      ∷ [];
  findings = sample_findings;
  attack_techniques = [];
  blast_radius = record {
    score = 0;
    max_hops = 0;
    critical_assets = 0;
    summary = "";
    reachable = [];
  };
  recommended_actions = [];
  evidence = [];
}

abbrev pub critical_incident : Incident
critical_incident = record sample_incident {
  entities =
      record { id = "identity:alice"; kind = "identity"; name = "Alice"; criticality = "high" }
      ∷ record { id = "secret:db"; kind = "secret"; name = "db"; criticality = "critical" }
      ∷ [];
}

abbrev pub sample_entity : Entity
sample_entity = record {
  id = "secret:db";
  kind = "secret";
  key = "db";
  name = "db";
  criticality = "critical";
  attributes = [];
  first_seen = 50 * day;
  last_seen = 100 * day;
  observed = false;
}

abbrev pub sample_entry : Entry
sample_entry = record {
  id = "aud-1";
  sequence = 0;
  timestamp = 100 * day;
  actor = "console:analyst";
  actor_role = "analyst";
  action = "response.denied";
  subject_type = "action";
  subject_id = "act-1";
  outcome = "denied";
  reason = "";
  request_id = "req-1";
  details = [];
}

-- Whole numbers in place of float64, so that a test can run what calls the arithmetic.
abbrev pub whole_numbers : FloatOps
whole_numbers = record {
  add = λ a b. a + b;
  sub = λ a b. a - b;
  mul = λ a b. a * b;
  div = λ a b. a / b;
  neg = λ a. a;
  less = ltb;
  at_most = leb;
  is_nan = λ a. false;
  exp = λ a. 0;
  round = λ a. a;
  of_int = λ n. n;
  to_int = pos;
  hundredths = λ n. n / 100;
}

abbrev pub denied_login : Rule
denied_login = record {
  id = "auth.denied";
  title = "Denied sign-in";
  description = "";
  category = "authentication";
  severity = "medium";
  confidence = 1;
  techniques = record { id = "T1078"; name = "Valid Accounts"; tactic = "initial-access" } ∷ [];
  match_on = record {
    event_type = "login" ∷ [];
    conditions =
        record {
          field = "labels.outcome";
          equals = "denied";
          not_equals = "";
          one_of = [];
          exists = none;
        }
        ∷ [];
  };
  threshold = none;
}

-- Fires at the second sign-in of a day.
abbrev pub second_rule : Rule
second_rule = record denied_login {
  id = "auth.repeated";
  category = "session_anomaly";
  threshold = some (record { count = 2; window = day });
}
