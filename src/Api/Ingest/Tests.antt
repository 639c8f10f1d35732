-- ===== src/Api/Ingest/Tests.antt =====
-- Tests of ingestion: the bus is down and the correlation panics.
use griefer_security_platfor.Prelude.{String, ◌≡◌, refl, true, some, ne_of_text_eq-false}
use Prim.Native.Nat.{◌*◌}
use griefer_security_platfor.Prelude.Int.{pos}
use griefer_security_platfor.Prelude.Result.{ok, err}
use griefer_security_platfor.Prelude.Text.{ascii}
use griefer_security_platfor.Events.{SecurityEvent}
use griefer_security_platfor.Events.Normalize.{normalize, canonical, normalize-IsNormalized}
use griefer_security_platfor.Graph.Store.{new_graph}
use griefer_security_platfor.Graph.Project.{project}
use griefer_security_platfor.Storage.{MemoryStore, new_memory_store, save_event}
use griefer_security_platfor.Api.Ingest.{
  Services, Run, Progress, invalid, correlation_panicked, ingest,
}
use griefer_security_platfor.Api.Ingest.Stored.{Reported, ingest-stores, ingest_refuses}
use griefer_security_platfor.Samples.{day, sample_event}

abbrev all_down : Services String
all_down = record {
  unicode = ascii;
  decoded = ok sample_event;
  publish_fails = λ ev. true;
  correlator =
      some
        (record { process = λ ev g s. (correlation_panicked, s); process-events = λ ev g s. refl });
  normalize_error_text = λ e. "";
  format_int = λ n. "";
}

abbrev malformed : Services String
malformed = record all_down { decoded = err "no such field" }

abbrev a_run : Run
a_run = record {
  request_id = "req-1";
  now = 101 * day;
  event_id = "evt-9";
  audit_now = 101 * day;
  rejected_audit_id = "aud-1";
  quarantine_audit_id = "aud-2";
  correlation_audit_id = "aud-3";
  ingested_audit_id = "aud-4";
}

abbrev accepted : SecurityEvent
accepted = canonical ascii (101 * day) "evt-9" sample_event

is_accepted : normalize ascii (101 * day) "evt-9" sample_event ≡ ok accepted
unfolding normalize
is_accepted = refl

abbrev empty_store : MemoryStore
empty_store = new_memory_store (pos 10)

ingest-stores_example :
    (p : Progress) × ((ingest all_down a_run new_graph empty_store).0 ≡ ok p.result)
    × ((ingest all_down a_run new_graph empty_store).2 ≡ p.store)
    × Reported all_down a_run accepted
        (project ascii accepted new_graph)
        (save_event (some accepted) empty_store).0
        p
ingest-stores_example =
    ingest-stores all_down a_run sample_event accepted new_graph empty_store refl is_accepted
      (normalize-IsNormalized ascii (101 * day) "evt-9" sample_event
        (ne_of_text_eq-false "evt-9" "" refl) is_accepted).identified

is_refused : (ingest malformed a_run new_graph empty_store).0 ≡ err (invalid "no such field")
unfolding ingest
is_refused = refl

ingest_refuses_example :
    ((ingest malformed a_run new_graph empty_store).1 ≡ new_graph)
    × ((ingest malformed a_run new_graph empty_store).2.events ≡ empty_store.events)
ingest_refuses_example =
    ingest_refuses malformed a_run new_graph empty_store (invalid "no such field") is_refused
