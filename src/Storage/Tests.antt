-- ===== src/Storage/Tests.antt =====
-- Tests of the memory store.
use griefer_security_platfor.Prelude.{
  ℕ, ◌≡◌, refl, ◌≢◌, true, false, none, some, List, [], ◌∷◌, ◌++◌, arith, if◌then◌else◌, All,
  ne_of_text_eq-false,
}
use griefer_security_platfor.Prelude.Dict.{contains}
use griefer_security_platfor.Prelude.Int.{pos}
use griefer_security_platfor.Incidents.{Incident, ResponseAction, unset}
use griefer_security_platfor.Storage.{
  MemoryStore, StoreError, ids_of, new_memory_store, save_event, save_action_with_audit,
}
use griefer_security_platfor.Storage.Step.{
  Call, call_save_event, call_save_incident, call_append, run,
}
use griefer_security_platfor.Storage.Events.{last_of, save_event-retains}
use griefer_security_platfor.Storage.Trail.{
  Extends, IsNamed, HasId, append_each, save_given, run-Extends, save_action_with_audit_atomic,
}
use griefer_security_platfor.Storage.Valid.{IsValid, run-IsValid}
use griefer_security_platfor.Storage.Pages.{walk, walk_all}
use griefer_security_platfor.Samples.{
  sample_event, other_event, third_event, sample_incident, sample_entry,
}

-- Two events are retained; the third call fails, and the last event pushes the first one out.
abbrev history : List Call
history =
    call_save_event (some sample_event)
    ∷ call_save_event (some other_event)
    ∷ call_save_event none
    ∷ call_save_incident (some sample_incident)
    ∷ call_append (some sample_entry)
    ∷ call_save_event (some third_event)
    ∷ []

abbrev used : MemoryStore
used = run history (new_memory_store (pos 2))

abbrev sample_action : ResponseAction
sample_action = record {
  id = "act-1";
  incident_id = "inc-1";
  action_type = "require_mfa";
  mode = "simulate";
  status = unset;
  requested_by = "console:analyst";
  policy_decision = none;
  reason = "";
  reversible = true;
  destructive = false;
  rollback_action = "";
  target_entity_id = "";
  simulated_effect = none;
  created_at = 0;
  executed_at = none;
}

run-IsValid_example : IsValid (run history (new_memory_store (pos 2)))
run-IsValid_example = run-IsValid (pos 2) history

run-Extends_example : Extends used.audit_log (run history used).audit_log
run-Extends_example = run-Extends history used

save_action_with_audit_atomic_example :
    ((e : StoreError)
      → (save_action_with_audit (some sample_action) (some sample_entry ∷ []) used).1 ≡ some e
      → (save_action_with_audit (some sample_action) (some sample_entry ∷ []) used).0 ≡ used)
    × ((save_action_with_audit (some sample_action) (some sample_entry ∷ []) used).1 ≡ none
        → (save_action_with_audit (some sample_action) (some sample_entry ∷ []) used).0
          ≡ append_each (some sample_entry ∷ []) (save_given (some sample_action) used))
    × (IsNamed (some sample_action)
        → All HasId (some sample_entry ∷ [])
        → (save_action_with_audit (some sample_action) (some sample_entry ∷ []) used).1 ≡ none)
save_action_with_audit_atomic_example =
    save_action_with_audit_atomic (some sample_action) (some sample_entry ∷ []) used

fourth_is_named : other_event.id ≢ ""
fourth_is_named = ne_of_text_eq-false "evt-2" "" refl

save_event-retains_example :
    ((save_event (some other_event) used).1 ≡ none)
    × ((save_event (some other_event) used).0 ≡ (
        if contains (ids_of used.events) "evt-2" then used else record used {
          events = last_of used.max_events (used.events ++ other_event ∷ []);
          event_ids = (save_event (some other_event) used).0.event_ids;
        }))
save_event-retains_example =
    save_event-retains other_event used (run-IsValid (pos 2) history).events fourth_is_named

abbrev second_incident : Incident
second_incident = record sample_incident { id = "inc-2" }

abbrev five : List ℕ
five = 1 ∷ 2 ∷ 3 ∷ 4 ∷ 5 ∷ []

walk_all_example : walk 3 2 0 five ≡ five
walk_all_example = walk_all 3 2 five (omega arith)
