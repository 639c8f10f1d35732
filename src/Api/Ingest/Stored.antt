-- ===== src/Api/Ingest/Stored.antt =====
-- An event that passes validation is stored, whatever the bus and the correlation do.
use griefer_security_platfor.Prelude.{
  String, ◌≡◌, refl, sym, ap, ◌∙◌, ◌≢◌, inl, inr, Bool, true, false, Option, none, some, List, [],
  ◌∷◌, ◌++◌, ◌==◌, Bool-cases, text_eq-false_of_ne, ne_of_text_eq-false,
}
use mathlib.Core.List.{append-nil}
use griefer_security_platfor.Prelude.Dict.{contains}
use griefer_security_platfor.Prelude.Result.{Result, ok, err}
use griefer_security_platfor.Events.{SecurityEvent}
use griefer_security_platfor.Events.Normalize.{NormalizeError, normalize}
use griefer_security_platfor.Graph.Store.{Graph}
use griefer_security_platfor.Graph.Project.{project}
use griefer_security_platfor.Audit.{Entry, PrepareError, prepare}
use griefer_security_platfor.Storage.{
  MemoryStore, StoreError, Written, save_event, append, append_audit_locked,
}
use griefer_security_platfor.Api.Ingest.{
  Correlated, correlation_failed, correlation_panicked, no_incident, touched, Correlator, Services,
  Run, IngestError, Progress, Ingested, appended, record_audit, audit_quarantine, degrade,
  after_error, after_publish, after_correlation, correlated, with_correlator, ingested, after_store,
  reject, persisted, normalized, decoded_as, ingest,
}

append-events : (e : Entry) (s : MemoryStore) → (append (some e) s).0.events ≡ s.events
append-events e s = elim (Bool-cases (e.id == "")) [
  | inl h ↦ unfold append in rw h
  | inr h ↦ unfold append append_audit_locked in rw h
]

appended-events :
    (p : Result PrepareError Entry) (s : MemoryStore) → (appended p s).events ≡ s.events
unfolding appended
appended-events (err e) s = refl
appended-events (ok e) s = append-events e s

record_audit-events :
    (r : Run) (fresh : String) (e : Entry) (s : MemoryStore)
    → (record_audit r fresh e s).events ≡ s.events
record_audit-events r fresh e s =
    unfold record_audit in appended-events (prepare fresh r.audit_now e) s

audit_quarantine-events :
    (r : Run) (ev : SecurityEvent) (ks : List String) (s : MemoryStore)
    → (audit_quarantine r ev ks s).events ≡ s.events
unfolding audit_quarantine
audit_quarantine-events r ev [] s = refl
audit_quarantine-events r ev (k ∷ ks) s = search record_audit-events

-- The subsystems that fail for an event, in the order in which they are reached.
abbrev failing : Bool → String → List String
failing true name = name ∷ []
failing false name = []

abbrev fails : Correlated → Bool
fails correlation_failed = true
fails correlation_panicked = true
fails no_incident = false
fails (touched inc) = false

module _ {D : Type 0} (services : Services D) (r : Run) where
  -- The step keeps the stored events and the reported identifier, and adds `names` to what is degraded.
  record Keeps (p q : Progress) (names : List String) : Type 0 where
    same_events : q.store.events ≡ p.store.events
    same_id : q.result.event_id ≡ p.result.event_id
    more : q.result.degraded ≡ p.result.degraded ++ names

  after_publish-Keeps :
      (ev : SecurityEvent) (p : Progress)
      → Keeps p (after_publish services r ev p) (failing (services.publish_fails ev) "event_bus")
  after_publish-Keeps ev p = elim (Bool-cases (services.publish_fails ev)) [
    | inl h ↦
        unfold after_publish degrade in
        rw h (record { same_events = refl; same_id = refl; more = refl })
    | inr h ↦
        unfold after_publish in
        rw h (record { same_events = refl; same_id = refl; more = sym (append-nil _) })
  ]

  after_error-Keeps :
      (ev : SecurityEvent) (p : Progress)
      → Keeps p (after_error services r ev p) ("correlation" ∷ [])
  unfolding after_error degrade
  after_error-Keeps ev p = record {
    same_events = search record_audit-events;
    same_id = refl;
    more = refl;
  }

  after_correlation-Keeps :
      (ev : SecurityEvent) (p : Progress) (c : Correlated)
      → Keeps p (after_correlation services r ev p c) (failing (fails c) "correlation")
  unfolding after_correlation
  after_correlation-Keeps ev p correlation_failed = after_error-Keeps ev p
  after_correlation-Keeps ev p correlation_panicked = after_error-Keeps ev p
  after_correlation-Keeps ev p no_incident = record {
    same_events = refl;
    same_id = refl;
    more = sym (append-nil _);
  }
  after_correlation-Keeps ev p (touched inc) = record {
    same_events = search record_audit-events;
    same_id = refl;
    more = sym (append-nil _);
  }

  -- The subsystems that fail where correlation starts from a state.
  abbrev correlation_fails : SecurityEvent → Graph → MemoryStore → Option Correlator → Bool
  correlation_fails ev g s none = true
  correlation_fails ev g s (some c) = fails (c.process ev g s).0

  correlated-Keeps :
      (ev : SecurityEvent) (p : Progress) (c : Correlated × MemoryStore)
      → c.1.events ≡ p.store.events
      → Keeps p (correlated services r ev p c) (failing (fails c.0) "correlation")
  correlated-Keeps ev p (outcome, s) same =
      let k = after_correlation-Keeps ev (record p { store = s }) outcome in
      unfold correlated in
      record { same_events = k.same_events ∙ same; same_id = k.same_id; more = k.more }

  with_correlator-Keeps :
      (ev : SecurityEvent) (g : Graph) (p : Progress) (o : Option Correlator)
      → Keeps p
          (with_correlator services r ev g p o)
          (failing (correlation_fails ev g p.store o) "correlation")
  with_correlator-Keeps ev g p none =
      unfold with_correlator degrade in record { same_events = refl; same_id = refl; more = refl }
  with_correlator-Keeps ev g p (some c) =
      unfold with_correlator in
      correlated-Keeps ev p (c.process ev g p.store) (c.process-events ev g p.store)

  -- What Ingest promises of an event that was stored in `s` and projected into `g`: it is reported
  -- under its identifier, the stored events are not touched again, and what is degraded is the bus, if
  -- the publication failed, and then the correlation, if there is none or its answer is a failure.
  pub record Reported (ev : SecurityEvent) (g : Graph) (s : MemoryStore) (p : Progress)
      : Type 0 where
    pub same_events : p.store.events ≡ s.events
    pub same_id : p.result.event_id ≡ ev.id
    pub asked_at : MemoryStore
    pub event_known : asked_at.events ≡ s.events
    pub degraded :
        p.result.degraded
        ≡ failing (services.publish_fails ev) "event_bus"
          ++ failing (correlation_fails ev g asked_at services.correlator) "correlation"

  ingested-Keeps : (ev : SecurityEvent) (p : Progress) → Keeps p (ingested services r ev p) []
  unfolding ingested
  ingested-Keeps ev p = record {
    same_events = search record_audit-events;
    same_id = refl;
    more = sym (append-nil _);
  }

  after_store-Reported :
      (ev : SecurityEvent) (g : Graph) (s : MemoryStore)
      → Reported ev g s (after_store services r ev g s)
  after_store-Reported ev g s =
      let start : Progress = record {
        store = audit_quarantine r ev ev.quarantined s;
        result = record {
          event_id = ev.id;
          incident_id = "";
          risk_score = 0;
          quarantined = ev.quarantined;
          degraded = [];
        };
      } in
      let published = after_publish services r ev start in
      let a = after_publish-Keeps ev start in
      let b = with_correlator-Keeps ev g published services.correlator in
      let c = ingested-Keeps ev (with_correlator services r ev g published services.correlator) in
      unfold after_store in
      record {
        same_events =
            c.same_events
            ∙ b.same_events
            ∙ a.same_events
            ∙ audit_quarantine-events r ev ev.quarantined s;
        same_id = c.same_id ∙ b.same_id ∙ a.same_id;
        asked_at = published.store;
        event_known = a.same_events ∙ audit_quarantine-events r ev ev.quarantined s;
        degraded =
            c.more
            ∙ append-nil _
            ∙ b.more
            ∙ ap
                (λ z.
                  z
                  ++ failing (correlation_fails ev g published.store services.correlator)
                      "correlation")
                a.more;
      }

  save_named :
      (ev : SecurityEvent) (s : MemoryStore) → ev.id ≢ "" → (save_event (some ev) s).1 ≡ none
  save_named ev s h = elim (Bool-cases (contains s.event_ids ev.id)) [
    | inl old ↦ unfold save_event in rw (text_eq-false_of_ne _ _ h, old)
    | inr new ↦ unfold save_event in rw (text_eq-false_of_ne _ _ h, new)
  ]

  persisted-stored :
      (ev : SecurityEvent) (g : Graph) (w : Written)
      → w.1 ≡ none
      → (p : Progress) × ((persisted services r ev g w).0 ≡ ok p.result)
        × ((persisted services r ev g w).2 ≡ p.store)
        × Reported ev (project services.unicode ev g) w.0 p
  persisted-stored ev g (s, some e) h = cc
  persisted-stored ev g (s, none) h =
      let p = after_store services r ev (project services.unicode ev g) s in
      (
        p,
        unfold persisted in refl,
        unfold persisted in refl,
        after_store-Reported ev (project services.unicode ev g) s,
      )

  -- An event that is valid and within the clock's window, under an identifier that is not empty, is
  -- always accepted, and the stored events are those that saving it leaves behind: neither a failing
  -- bus nor a correlation that fails, panics or is missing loses it, but is named as degraded.
  pub ingest-stores :
      (raw ev : SecurityEvent) (g : Graph) (s : MemoryStore)
      → services.decoded ≡ ok raw
      → normalize services.unicode r.now r.event_id raw ≡ ok ev
      → ev.id ≢ ""
      → (p : Progress) × ((ingest services r g s).0 ≡ ok p.result)
        × ((ingest services r g s).2 ≡ p.store)
        × Reported ev (project services.unicode ev g) (save_event (some ev) s).0 p
  ingest-stores raw ev g s d n named =
      let done = persisted-stored ev g (save_event (some ev) s) (save_named ev s named) in
      let same : ingest services r g s ≡ persisted services r ev g (save_event (some ev) s) =
        unfold ingest decoded_as normalized in rw (d, n) in
      (done.0, ap (λ z. z.0) same ∙ done.1, ap (λ z. z.2) same ∙ done.2, done.3)

  save_refused :
      (ev : SecurityEvent) (s : MemoryStore) (e : StoreError)
      → (save_event (some ev) s).1 ≡ some e
      → (save_event (some ev) s).0 ≡ s
  save_refused ev s e h = elim (Bool-cases (ev.id == "")) [
    | inl q ↦ unfold save_event in rw q
    | inr q ↦ let fine = save_named ev s (ne_of_text_eq-false _ _ q) in cc
  ]

  abbrev Unchanged : Graph → MemoryStore → Ingested services r → Type 0
  Unchanged g s out = (out.1 ≡ g) × (out.2.events ≡ s.events)

  persisted-Unchanged :
      (ev : SecurityEvent) (g : Graph) (s : MemoryStore) (w : Written) (e : IngestError D)
      → ((f : StoreError) → w.1 ≡ some f → w.0 ≡ s)
      → (persisted services r ev g w).0 ≡ err e
      → Unchanged g s (persisted services r ev g w)
  persisted-Unchanged ev g s (t, some f) e kept h =
      unfold persisted in (refl, ap (λ z. z.events) (kept f refl))
  persisted-Unchanged ev g s (t, none) e kept h = unfold persisted in cc

  reject-Unchanged :
      (e : IngestError D) (id why kind : String) (g : Graph) (s : MemoryStore)
      → Unchanged g s (reject services r e id why kind g s)
  unfolding reject
  reject-Unchanged e id why kind g s = (refl, search record_audit-events)

  normalized-Unchanged :
      (raw : SecurityEvent) (n : Result NormalizeError SecurityEvent) (g : Graph) (s : MemoryStore)
      (e : IngestError D)
      → (normalized services r raw n g s).0 ≡ err e
      → Unchanged g s (normalized services r raw n g s)
  normalized-Unchanged raw (err f) g s e h = unfold normalized in search reject-Unchanged
  normalized-Unchanged raw (ok ev) g s e h =
      unfold normalized in
      persisted-Unchanged ev g s (save_event (some ev) s) e (save_refused ev s) h

  decoded_as-Unchanged :
      (d : Result D SecurityEvent) (g : Graph) (s : MemoryStore) (e : IngestError D)
      → (decoded_as services r d g s).0 ≡ err e
      → Unchanged g s (decoded_as services r d g s)
  decoded_as-Unchanged (err f) g s e h = unfold decoded_as in search reject-Unchanged
  decoded_as-Unchanged (ok raw) g s e h =
      unfold decoded_as in
      normalized-Unchanged raw (normalize services.unicode r.now r.event_id raw) g s e h

  -- An event that is refused leaves the graph and the stored events as they were.
  pub ingest_refuses :
      (g : Graph) (s : MemoryStore) (e : IngestError D)
      → (ingest services r g s).0 ≡ err e
      → ((ingest services r g s).1 ≡ g) × ((ingest services r g s).2.events ≡ s.events)
  ingest_refuses g s e h = unfold ingest in decoded_as-Unchanged services.decoded g s e h
