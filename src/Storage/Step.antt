-- ===== src/Storage/Step.antt =====
-- Histories of a store: the calls that write, one after another in the order in which they took the
-- store's lock.
use griefer_security_platfor.Prelude.{Option, List, [], ◌∷◌}
use griefer_security_platfor.Audit.{Entry}
use griefer_security_platfor.Events.{SecurityEvent}
use griefer_security_platfor.Incidents.{Incident, ResponseAction}
use griefer_security_platfor.Storage.{
  MemoryStore, Written, save_event, save_incident, save_action, save_action_with_audit, append,
}

pub data Call : Type 0 where
  call_save_event : Option SecurityEvent → Call
  call_save_incident : Option Incident → Call
  call_save_action : Option ResponseAction → Call
  call_save_action_with_audit : Option ResponseAction → List (Option Entry) → Call
  call_append : Option Entry → Call

unfoldable pub step : Call → MemoryStore → Written
step (call_save_event ev) s = save_event ev s
step (call_save_incident inc) s = save_incident inc s
step (call_save_action action) s = save_action action s
step (call_save_action_with_audit action entries) s = save_action_with_audit action entries s
step (call_append entry) s = append entry s

unfoldable pub run : List Call → MemoryStore → MemoryStore
run [] s = s
run (c ∷ cs) s = run cs (step c s).0

-- What every call keeps, a history keeps.
pub run_induction :
    (P : MemoryStore → Type 0)
    → ((c : Call) (s : MemoryStore) → P s → P (step c s).0)
    → (cs : List Call) (s : MemoryStore) → P s
    → P (run cs s)
unfolding run
run_induction P keep [] s h = h
run_induction P keep (c ∷ cs) s h = run_induction P keep cs (step c s).0 (keep c s h)
