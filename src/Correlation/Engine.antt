-- ===== src/Correlation/Engine.antt =====
-- internal/correlation/engine.go: Process, which evaluates the rules on an event and folds what they
-- find into the incident of the event's subject. The incident store is an interface; the graph is
-- read as it is while Process runs.
pub mod Consistent
pub mod Process
pub mod Memory
pub mod Leaves
mod Tests
use griefer_security_platfor.Prelude.{
  ℕ, zero, suc, ◌+◌, ◌-◌, ◌≤◌, ◌<◌, String, ◌≡◌, refl, sym, ap, ◌∙◌, ◌≢◌, ◌↔◌, ◌⊎◌, inl, inr, Bool,
  true, false, not, ◌&&◌, ◌||◌, Option, none, some, List, [], ◌∷◌, ◌++◌, map, arith, ◌==◌, eq_iff,
  eq_refl, ltb, leb, if◌then◌else◌, text_lt, Bool-cases, Option-cases, length, take, drop,
  length-append, length-take, length-drop, take-append-drop, leb→le, ltb→lt, All, Any,
  text_eq-false_of_ne, ne_of_text_eq-false,
}
use Prim.Native.String.{◌++◌ as ◌++ₛ◌}
use griefer_security_platfor.Prelude.{eqb}
use griefer_security_platfor.Prelude.Dict.{contains, lookup, insert}
use griefer_security_platfor.Prelude.Result.{Result, ok, err}
use griefer_security_platfor.Prelude.Text.{Unicode}
use griefer_security_platfor.Events.{Time, SecurityEvent, actor_key}
use griefer_security_platfor.Graph.{BlastRadius}
use griefer_security_platfor.Graph.Store.{Graph}
use griefer_security_platfor.Graph.Project.{entity_ids_for_event}
use griefer_security_platfor.Incidents.{
  Incident, Finding, Status, open_status, investigating, contained, closed,
}
use griefer_security_platfor.Correlation.Rules.{Rule, Threshold, matches}
use griefer_security_platfor.Correlation.Derive.{Env, recompute}
use griefer_security_platfor.Correlation.Evaluate.{Run, subject_key, evaluate}
use griefer_security_platfor.Correlation.Merge.{merge_findings}

-- DefaultWindow, six hours in nanoseconds
abbrev pub default_window : ℕ
default_window = 21_600_000_000_000

-- IncidentStore, over a state `S` of the store and its errors `E`
pub record IncidentStore (S E : Type 0) : Type 0 where
  pub get_incident : String → S → Result E Incident
  pub save_incident : Incident → S → S × Option E

pub record SubjectState : Type 0 where
  pub incident_id : String
  pub last_seen : Time

pub record Engine : Type 0 where
  pub rules : List Rule
  pub window : ℕ
  pub open_subjects : List (String × SubjectState)
  pub threshold_hits : List (String × List Time)

-- NewEngine, given a graph and a store; a window that is not positive is 0.
unfoldable pub new_engine : List Rule → ℕ → Option Engine
new_engine [] window = none
new_engine (r ∷ rs) window = some (record {
  rules = r ∷ rs;
  window = if leb window 0 then default_window else window;
  open_subjects = [];
  threshold_hits = [];
})

unfoldable pub new_incident : Run → String → Time → Incident
new_incident run subject at = record {
  id = run.incident_id;
  schema_version = "0.1";
  title = "";
  status = open_status;
  severity = "";
  risk_score = 0;
  confidence = 0;
  first_seen = at;
  last_seen = 0;
  updated_at = 0;
  primary_identity = subject;
  entities = [];
  findings = [];
  attack_techniques = [];
  blast_radius = record {
    score = 0;
    max_hops = 0;
    critical_assets = 0;
    summary = "";
    reachable = [];
  };
  recommended_actions = [];
  evidence = [];
}

unfoldable pub is_closed : Status → Bool
is_closed closed = true
is_closed _ = false

-- What Process returns: an error of the store, no incident, or the incident.
pub data Processed (E : Type 0) : Type 0 where
  not_persisted : E → Processed E
  no_finding : Processed E
  touched : Incident → Processed E

module _ {S E : Type 0} (store : IncidentStore S E) where
  -- The incident to go on with, if it was found and is not closed.
  still_open : Result E Incident → Option Incident
  unfolding is_closed
  still_open (err e) = none
  still_open (ok inc) = if is_closed inc.status then none else some inc

  -- The open incident of a subject, unless it has expired.
  unfoldable pub absorbing : ℕ → Time → Option SubjectState → S → Option Incident
  unfolding still_open
  absorbing window at none s = none
  absorbing window at (some state) s =
      let existing = still_open (store.get_incident state.incident_id s) in
      if ltb window (at - state.last_seen) then none else existing

  or_new : Run → String → Time → Option Incident → Incident
  unfolding new_incident
  or_new run subject at none = new_incident run subject at
  or_new run subject at (some inc) = inc

  -- What the findings and the event's time do to the incident, before recompute.
  unfoldable pub fold_in : Run → SecurityEvent → List Finding → Incident → Incident
  unfolding merge_findings
  fold_in run ev findings inc = record inc {
    findings = merge_findings findings inc.findings;
    first_seen =
        if ltb ev.timestamp inc.first_seen || leb inc.first_seen 0
        then ev.timestamp
        else inc.first_seen;
    last_seen = if ltb inc.last_seen ev.timestamp then ev.timestamp else inc.last_seen;
    updated_at = run.now;
  }

  -- The incident that mergeIntoIncident saves.
  unfoldable pub merged_incident :
      Env → Run → SecurityEvent → String → List Finding → Graph → Engine → S → Incident
  unfolding recompute fold_in or_new absorbing lookup
  merged_incident env run ev subject findings g engine s = recompute env g ev (
      fold_in run ev findings (
        or_new run subject ev.timestamp
          (absorbing engine.window ev.timestamp (lookup subject engine.open_subjects) s)))

  unfoldable pub saved : String → Time → Incident → Engine → S × Option E → Processed E × Engine × S
  unfolding insert
  saved subject at inc engine (s, some e) = (not_persisted e, engine, s)
  saved subject at inc engine (s, none) = (
    touched inc,
    record engine {
      open_subjects =
          insert subject (record { incident_id = inc.id; last_seen = at }) engine.open_subjects;
    },
    s,
  )

  -- mergeIntoIncident
  unfoldable pub merge_into_incident :
      Env
      → Run
      → SecurityEvent
      → String
      → List Finding
      → Graph
      → Engine
      → S
      → Processed E × Engine × S
  unfolding saved merged_incident
  merge_into_incident env run ev subject findings g engine s =
      let inc = merged_incident env run ev subject findings g engine s in
      saved subject ev.timestamp inc engine (store.save_incident inc s)

  unfoldable pub merge_if_any :
      Env
      → Run
      → SecurityEvent
      → String
      → List Finding
      → Graph
      → Engine
      → S
      → Processed E × Engine × S
  unfolding merge_into_incident
  merge_if_any env run ev subject [] g engine s = (no_finding, engine, s)
  merge_if_any env run ev subject (f ∷ fs) g engine s =
      merge_into_incident env run ev subject (f ∷ fs) g engine s

  -- Process, of an event that is not nil
  unfoldable pub process :
      Unicode → Env → Run → SecurityEvent → Graph → Engine → S → Processed E × Engine × S
  unfolding merge_if_any evaluate subject_key
  process u env run ev g engine s =
      let subject = subject_key u ev in
      let evaluated = evaluate u env run ev subject engine.rules ([], engine.threshold_hits) in
      merge_if_any env run ev subject evaluated.0 g (record engine { threshold_hits = evaluated.1 })
        s
