-- ===== src/Correlation/Engine/Tests.antt =====
-- Tests of the engine: a denied sign-in, and a second one on the same day.
use griefer_security_platfor.Prelude.{
  ℕ, String, ◌≡◌, refl, true, none, List, [], ◌∷◌, map, arith, ◌==◌, leb, length,
}
use Prim.Native.Nat.{◌*◌}
use griefer_security_platfor.Prelude.Int.{pos}
use griefer_security_platfor.Prelude.Text.{ascii, to_lower, trim_space}
use griefer_security_platfor.Prelude.Dict.{lookup}
use griefer_security_platfor.Graph.Store.{new_graph}
use griefer_security_platfor.Storage.{
  MemoryStore, StoreError, new_memory_store, get_incident, save_incident,
}
use griefer_security_platfor.Correlation.Rules.{Threshold, allowed_fields}
use griefer_security_platfor.Correlation.Derive.{Env}
use griefer_security_platfor.Correlation.Evaluate.{Run, threshold_met, subject_key}
use griefer_security_platfor.Correlation.Evaluate.Window.{
  hits_after, count_since, threshold_met-count_since,
}
use griefer_security_platfor.Correlation.Engine.{
  Engine, Processed, not_persisted, no_finding, touched, process,
}
use griefer_security_platfor.Correlation.Engine.Consistent.{IsConsistent}
use griefer_security_platfor.Correlation.Engine.Process.{OnTouched, IsFor, process-IsConsistent}
use griefer_security_platfor.Correlation.Engine.Memory.{
  memory_incidents, memory_incidents-StoreLaws,
}
use griefer_security_platfor.Correlation.Engine.Leaves.{SavesOnly, Answers, process-Answers}
use griefer_security_platfor.Api.Ingest.{
  Correlator, Correlated, correlation_failed, no_incident, touched as reported,
}
use griefer_security_platfor.Prelude.{ap}
use griefer_security_platfor.Samples.{day, denied_login, sample_event, second_rule, whole_numbers}

abbrev test_env : Env
test_env = record { float = whole_numbers; decimal = λ n. "n"; equal_fold = λ s t. s == t }

abbrev test_run : Run
test_run = record { finding_id = λ n. "fnd"; incident_id = "inc-1"; now = 102 * day }

abbrev test_engine : Engine
test_engine = record {
  rules = denied_login ∷ second_rule ∷ [];
  window = 1;
  open_subjects = [];
  threshold_hits = [];
}

abbrev empty_store : MemoryStore
empty_store = new_memory_store (pos 10)

summary_of : Processed StoreError → List (String × ℕ)
summary_of (touched inc) = map (λ f. (f.rule_id, length f.event_ids)) inc.findings
summary_of _ = []

abbrev after_first : Processed StoreError × Engine × MemoryStore
after_first =
    process memory_incidents ascii test_env test_run sample_event new_graph test_engine empty_store

first_event_opens : summary_of after_first.0 ≡ ("auth.denied", 1) ∷ []
unfolding process summary_of allowed_fields to_lower trim_space get_incident save_incident
    new_memory_store
first_event_opens = refl

second_event_meets_threshold :
    summary_of
      (process memory_incidents ascii test_env test_run
        (record sample_event { id = "evt-2" })
        new_graph
        after_first.1
        after_first.2).0
    ≡ ("auth.denied", 2) ∷ ("auth.repeated", 1) ∷ []
unfolding process summary_of allowed_fields to_lower trim_space get_incident save_incident
    new_memory_store
second_event_meets_threshold = refl

-- A hit that comes late counts the hits after it, however far they are.
late_hit_counts :
    (threshold_met "a" "r"
      (record { count = 2; window = 1 })
      5
      (hits_after "a" "r" (record { count = 2; window = 1 }) (1000 ∷ []))).0
    ≡ true
unfolding threshold_met hits_after
late_hit_counts = refl

abbrev two_in_ten : Threshold
two_in_ten = record { count = 2; window = 10 }

threshold_met-count_since_example :
    (threshold_met "a" "r" two_in_ten 25 (hits_after "a" "r" two_in_ten (20 ∷ 3 ∷ []))).0
    ≡ leb 2 (count_since 15 (25 ∷ 20 ∷ 3 ∷ []))
threshold_met-count_since_example =
    threshold_met-count_since "a" "r" two_in_ten 25 (20 ∷ 3 ∷ [])
      ((omega arith, (omega arith, tt)), ((omega arith, tt), (tt, tt)))

test_engine-IsConsistent : IsConsistent memory_incidents test_engine empty_store
unfolding new_memory_store get_incident
test_engine-IsConsistent = record {
  bounded = λ k inc h. cc;
  keyed = λ k inc h. cc;
  isolated = λ subject st inc found h. cc;
}

nothing_open : (subject : String) → lookup subject test_engine.open_subjects ≡ none
unfolding lookup
nothing_open subject = refl

process-IsConsistent_example :
    OnTouched (IsFor (subject_key ascii sample_event)) after_first.0
    × IsConsistent memory_incidents after_first.1 after_first.2
process-IsConsistent_example =
    process-IsConsistent memory_incidents memory_incidents-StoreLaws ascii test_env test_run
      sample_event new_graph test_engine empty_store test_engine-IsConsistent
      (λ subject st found. cc (nothing_open subject))

process-Answers_example :
    SavesOnly empty_store after_first.2 × Answers empty_store after_first.0 after_first.2
process-Answers_example =
    process-Answers ascii test_env test_run sample_event new_graph test_engine empty_store

-- The engine, in the state that it has when the call comes, is a correlator for Ingest.
outcome_of : Processed StoreError → Correlated
outcome_of (not_persisted e) = correlation_failed
outcome_of no_finding = no_incident
outcome_of (touched inc) = reported inc

abbrev engine_correlator : Correlator
engine_correlator = record {
  process = λ ev g s.
      let out = process memory_incidents ascii test_env test_run ev g test_engine s in
      (outcome_of out.0, out.2);
  process-events =
      λ ev g s. ap (λ t. t.events) (process-Answers ascii test_env test_run ev g test_engine s).0;
}
