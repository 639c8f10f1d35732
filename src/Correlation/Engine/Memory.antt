-- ===== src/Correlation/Engine/Memory.antt =====
-- The memory store of internal/storage as the engine's incident store.
use griefer_security_platfor.Prelude.{
  ◌≡◌, refl, ap, ◌≢◌, ◌⊎◌, inl, inr, none, some, ◌==◌, Bool-cases, ne_of_text_eq-false,
}
use griefer_security_platfor.Incidents.{Incident}
use griefer_security_platfor.Storage.{
  MemoryStore, StoreError, get_incident, save_incident, incident_id_required,
}
use griefer_security_platfor.Storage.Index.{get_incident-save_incident}
use griefer_security_platfor.Correlation.Engine.{IncidentStore}
use griefer_security_platfor.Correlation.Engine.Consistent.{StoreLaws}

abbrev pub memory_incidents : IncidentStore MemoryStore StoreError
memory_incidents = record {
  get_incident = λ id s. get_incident id s;
  save_incident = λ inc s. save_incident (some inc) s;
}

-- An incident without an id is refused, and every other saved.
pub save_incident-cases :
    (inc : Incident) (s : MemoryStore)
    → ((save_incident (some inc) s) ≡ (s, some incident_id_required))
      ⊎ ((inc.id ≢ "") × ((save_incident (some inc) s).1 ≡ none))
save_incident-cases inc s = elim (Bool-cases (inc.id == "")) [
  | inl e ↦ inl (unfold save_incident in rw e refl)
  | inr e ↦ inr (ne_of_text_eq-false inc.id "" e, unfold save_incident in rw e refl)
]

-- The memory store gives back what the engine saved last under an id, and a save that it refuses
-- changes nothing.
pub memory_incidents-StoreLaws : StoreLaws memory_incidents
memory_incidents-StoreLaws = record {
  saved = λ inc s succeeded k. elim (save_incident-cases inc s) [
    | inl e ↦ cc
    | inr (named, q) ↦ get_incident-save_incident inc k s named
  ];
  refused = λ inc s e failed k. elim (save_incident-cases inc s) [
    | inl same ↦ ap (λ w. get_incident k w.0) same
    | inr (named, q) ↦ cc
  ];
}
