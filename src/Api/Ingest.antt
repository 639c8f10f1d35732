-- ===== src/Api/Ingest.antt =====
-- internal/api/service.go: Ingest, which records an event before anything reasons about it.
-- `Services` holds what Ingest calls and this library has no definition of: the validator's decoding,
-- the event bus and the correlator. Log lines and metrics are left out.
pub mod Stored
mod Tests
use griefer_security_platfor.Prelude.{
  ℕ, zero, suc, ◌+◌, ◌-◌, ◌≤◌, ◌<◌, String, ◌≡◌, refl, sym, ap, ◌∙◌, ◌≢◌, ◌↔◌, ◌⊎◌, inl, inr, Bool,
  true, false, not, ◌&&◌, ◌||◌, Option, none, some, List, [], ◌∷◌, ◌++◌, map, arith, ◌==◌, eq_iff,
  eq_refl, ltb, leb, if◌then◌else◌, text_lt, Bool-cases, Option-cases, length, take, drop,
  length-append, length-take, length-drop, take-append-drop, leb→le, ltb→lt, All, Any,
  text_eq-false_of_ne, ne_of_text_eq-false,
}
use Prim.Native.String.{◌++◌ as ◌++ₛ◌}
use griefer_security_platfor.Prelude.Result.{Result, ok, err}
use griefer_security_platfor.Prelude.Text.{Unicode}
use griefer_security_platfor.Events.{Time, SecurityEvent}
use griefer_security_platfor.Events.Normalize.{NormalizeError, normalize}
use griefer_security_platfor.Graph.Store.{Graph}
use griefer_security_platfor.Graph.Project.{project}
use griefer_security_platfor.Incidents.{Incident}
use griefer_security_platfor.Incidents.Categories.{evidence_categories}
use griefer_security_platfor.Audit.{Entry, Detail, text, number, texts, PrepareError, prepare}
use griefer_security_platfor.Storage.{MemoryStore, StoreError, Written, save_event, append}

-- What a call of the correlator comes to: an error, a panic, no incident, or the incident touched.
pub data Correlated : Type 0 where
  correlation_failed correlation_panicked no_incident : Correlated
  touched : Incident → Correlated

-- Correlator, for one call: what Process comes to, and the store that it leaves. A correlator reads
-- and saves incidents, so the stored events are as before.
pub record Correlator : Type 0 where
  pub process : SecurityEvent → Graph → MemoryStore → Correlated × MemoryStore
  pub process-events :
      (ev : SecurityEvent) (g : Graph) (s : MemoryStore) → (process ev g s).1.events ≡ s.events

pub record Services (D : Type 0) : Type 0 where
  pub unicode : Unicode
  -- validator.Decode of the request's body
  pub decoded : Result D SecurityEvent
  -- whether publisher.Publish fails
  pub publish_fails : SecurityEvent → Bool
  -- s.correlator, if there is one
  pub correlator : Option Correlator
  pub normalize_error_text : NormalizeError → String
  pub format_int : ℕ → String

-- What a run draws from its context, the clocks and internal/idgen.
pub record Run : Type 0 where
  pub request_id : String
  pub now : Time
  pub event_id : String
  pub audit_now : Time
  pub rejected_audit_id : String
  pub quarantine_audit_id : String
  pub correlation_audit_id : String
  pub ingested_audit_id : String

pub record IngestResult : Type 0 where
  pub event_id : String
  pub incident_id : String
  pub risk_score : ℕ
  pub quarantined : List String
  pub degraded : List String

pub data IngestError (D : Type 0) : Type 0 where
  invalid : D → IngestError D
  not_normalized : NormalizeError → IngestError D
  not_persisted : StoreError → IngestError D

appended : Result PrepareError Entry → MemoryStore → MemoryStore
unfolding append
appended (err _) s = s
appended (ok e) s = (append (some e) s).0

-- recordAudit, over Recorder.Record: a failure is logged, and goes no further.
unfoldable pub record_audit : Run → String → Entry → MemoryStore → MemoryStore
unfolding appended prepare
record_audit r fresh e s = appended (prepare fresh r.audit_now e) s

abbrev entry_of :
    Run → (action subject_type subject_id outcome reason : String) → List (String × Detail) → Entry
entry_of r action subject_type subject_id outcome reason details = record {
  id = "";
  sequence = 0;
  timestamp = 0;
  actor = "";
  actor_role = "";
  action = action;
  subject_type = subject_type;
  subject_id = subject_id;
  outcome = outcome;
  reason = reason;
  request_id = r.request_id;
  details = details;
}

-- `if len(ev.Quarantined) > 0`
audit_quarantine : Run → SecurityEvent → List String → MemoryStore → MemoryStore
unfolding record_audit
audit_quarantine r ev [] s = s
audit_quarantine r ev (k ∷ ks) s =
    record_audit r r.quarantine_audit_id
      (entry_of r "event.label_quarantined" "event" ev.id "denied"
        "telemetry contained reserved control-plane label keys; they were stripped before processing"
        (("quarantined_keys", texts (k ∷ ks)) ∷ ("source_name", text ev.source_name) ∷ []))
      s

-- The state of Ingest after the event is stored.
pub record Progress : Type 0 where
  pub store : MemoryStore
  pub result : IngestResult

degrade : String → IngestResult → IngestResult
degrade name result = record result { degraded = result.degraded ++ name ∷ [] }

module _ {D : Type 0} (services : Services D) (r : Run) where
  after_publish : SecurityEvent → Progress → Progress
  unfolding degrade
  after_publish ev p =
      if services.publish_fails ev then record p { result = degrade "event_bus" p.result } else p

  incident_entry : SecurityEvent → Incident → Entry
  unfolding evidence_categories
  incident_entry ev inc =
      entry_of r "incident.updated" "incident" inc.id "success"
        ("incident updated from event "
          ++ₛ (ev.id ++ₛ ("; risk score " ++ₛ services.format_int inc.risk_score)))
        (("event_id", text ev.id)
          ∷ ("risk_score", number inc.risk_score)
          ∷ ("severity", text inc.severity)
          ∷ ("finding_count", number (length inc.findings))
          ∷ ("evidence_types", texts (evidence_categories inc.findings))
          ∷ ("blast_radius", number inc.blast_radius.score)
          ∷ ("critical_assets", number inc.blast_radius.critical_assets)
          ∷ [])

  -- The case of an error, which correlate makes of a panic, too.
  after_error : SecurityEvent → Progress → Progress
  unfolding degrade record_audit
  after_error ev p = record {
    result = degrade "correlation" p.result;
    store =
        record_audit r r.correlation_audit_id
          (entry_of r "correlation.failed" "event" ev.id "failure"
            "correlation engine returned an error; the event is stored and can be reprocessed" [])
          p.store;
  }

  -- The switch on what correlation came to.
  after_correlation : SecurityEvent → Progress → Correlated → Progress
  unfolding after_error record_audit incident_entry
  after_correlation ev p correlation_failed = after_error ev p
  after_correlation ev p correlation_panicked = after_error ev p
  after_correlation ev p no_incident = p
  after_correlation ev p (touched inc) = record {
    result = record p.result { incident_id = inc.id; risk_score = inc.risk_score };
    store = record_audit r r.correlation_audit_id (incident_entry ev inc) p.store;
  }

  correlated : SecurityEvent → Progress → Correlated × MemoryStore → Progress
  unfolding after_correlation
  correlated ev p (outcome, s) = after_correlation ev (record p { store = s }) outcome

  with_correlator : SecurityEvent → Graph → Progress → Option Correlator → Progress
  unfolding degrade correlated
  with_correlator ev g p none = record p { result = degrade "correlation" p.result }
  with_correlator ev g p (some c) = correlated ev p (c.process ev g p.store)

  ingested : SecurityEvent → Progress → Progress
  unfolding record_audit
  ingested ev p = record p {
    store =
        record_audit r r.ingested_audit_id
          (entry_of r "event.ingested" "event" ev.id "success"
            ("event accepted from " ++ₛ (ev.source_type ++ₛ ("/" ++ₛ ev.source_name)))
            (("category", text ev.category)
              ∷ ("severity", text ev.severity)
              ∷ ("event_type", text ev.event_type)
              ∷ ("degraded", texts p.result.degraded)
              ∷ []))
          p.store;
  }

  -- Ingest from where the event is stored.
  after_store : SecurityEvent → Graph → MemoryStore → Progress
  unfolding audit_quarantine after_publish with_correlator ingested
  after_store ev g s = ingested ev (
      with_correlator ev g
        (after_publish ev (record {
          store = audit_quarantine r ev ev.quarantined s;
          result = record {
            event_id = ev.id;
            incident_id = "";
            risk_score = 0;
            quarantined = ev.quarantined;
            degraded = [];
          };
        }))
        services.correlator)

  -- What Ingest leaves behind: its result, the graph and the store.
  abbrev pub Ingested : Type 0
  Ingested = Result (IngestError D) IngestResult × Graph × MemoryStore

  reject : IngestError D → String → String → String → Graph → MemoryStore → Ingested
  unfolding record_audit
  reject e subject_id why kind g s = (
    err e,
    g,
    record_audit r r.rejected_audit_id
        (entry_of r "event.rejected" "event" subject_id "denied" why
          (("error_kind", text kind) ∷ []))
        s,
  )

  persisted : SecurityEvent → Graph → Written → Ingested
  unfolding after_store project
  persisted ev g (s, some e) = (err (not_persisted e), g, s)
  persisted ev g (s, none) =
      let g' = project services.unicode ev g in
      let p = after_store ev g' s in (ok p.result, g', p.store)

  normalized : SecurityEvent → Result NormalizeError SecurityEvent → Graph → MemoryStore → Ingested
  unfolding reject persisted save_event
  normalized raw (err e) g s =
      reject (not_normalized e) raw.id (services.normalize_error_text e) "normalization" g s
  normalized raw (ok ev) g s = persisted ev g (save_event (some ev) s)

  decoded_as : Result D SecurityEvent → Graph → MemoryStore → Ingested
  unfolding reject normalized normalize
  decoded_as (err e) g s =
      reject (invalid e) "" "event failed schema validation at the ingest trust boundary"
        "schema_validation" g s
  decoded_as (ok raw) g s = normalized raw (normalize services.unicode r.now r.event_id raw) g s

  -- Ingest
  unfoldable pub ingest : Graph → MemoryStore → Ingested
  unfolding decoded_as
  ingest g s = decoded_as services.decoded g s
