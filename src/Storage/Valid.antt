-- ===== src/Storage/Valid.antt =====
-- The invariant of the memory store, kept by every call.
use griefer_security_platfor.Prelude.{
  ◌≡◌, refl, inl, inr, Option, none, some, List, [], ◌∷◌, ◌++◌, arith, ◌==◌, ltb, Bool-cases,
  length,
}
use griefer_security_platfor.Prelude.Int.{ℤ}
use griefer_security_platfor.Prelude.Dict.{contains, lookup}
use griefer_security_platfor.Audit.{Entry}
use griefer_security_platfor.Events.{SecurityEvent}
use griefer_security_platfor.Incidents.{Incident, ResponseAction}
use griefer_security_platfor.Storage.{
  MemoryStore, new_memory_store, save_event, retain, save_incident, save_action, save_action_locked,
  save_action_with_audit, lacks_id, some_unusable, save_if_given, append_entries, append,
  append_audit_locked,
}
use griefer_security_platfor.Storage.Step.{
  Call, call_save_event, call_save_incident, call_save_action, call_save_action_with_audit,
  call_append, step, run, run_induction,
}
use griefer_security_platfor.Storage.Events.{EventsValid, save_event-EventsValid}
use griefer_security_platfor.Storage.Index.{IndexValid, remember-IndexValid}
use griefer_security_platfor.Storage.Trail.{TrailValid, append_audit_locked-TrailValid}

-- The id set mirrors the retained events, which are within the limit and distinct; both maps have
-- their keys in their orders, each once, with every value under its own id; and the trail is
-- numbered from 1 without gaps up to the sequence counter.
pub record IsValid (s : MemoryStore) : Type 0 where
  pub events : EventsValid s
  pub incidents : IndexValid (λ (i : Incident). i.id) s.incidents s.incident_order
  pub actions : IndexValid (λ (a : ResponseAction). a.id) s.actions s.action_order
  pub trail : TrailValid s

-- `EventsValid` and `TrailValid` read these fields only.
events_of_same :
    {s t : MemoryStore}
    → EventsValid s
    → t.events ≡ s.events
    → t.event_ids ≡ s.event_ids
    → t.max_events ≡ s.max_events
    → EventsValid t
events_of_same {s} {t} v e i m = record {
  mirrored = record {
    mirror = λ k. rw (e, i) (v.mirrored.mirror k);
    distinct = rw e v.mirrored.distinct;
  };
  bounded = rw (e, m) v.bounded;
  roomy = rw m v.roomy;
}

trail_of_same :
    {s t : MemoryStore}
    → TrailValid s
    → t.audit_log ≡ s.audit_log
    → t.audit_seq ≡ s.audit_seq
    → TrailValid t
trail_of_same v l q = record { numbered = rw l v.numbered; counted = rw (l, q) v.counted }

new-IsValid : (n : ℤ) → IsValid (new_memory_store n)
unfolding new_memory_store contains lookup
new-IsValid n = record {
  events = record {
    mirrored = record { mirror = λ k. refl; distinct = tt };
    bounded = omega arith;
    roomy = ground arith;
  };
  incidents = record { listed = λ k. refl; once = tt; own = λ k v e. cc };
  actions = record { listed = λ k. refl; once = tt; own = λ k v e. cc };
  trail = record { numbered = tt; counted = refl };
}

-- What saving an event leaves alone.
record SameBeside (s t : MemoryStore) : Type 0 where
  incidents : t.incidents ≡ s.incidents
  incident_order : t.incident_order ≡ s.incident_order
  actions : t.actions ≡ s.actions
  action_order : t.action_order ≡ s.action_order
  audit_log : t.audit_log ≡ s.audit_log
  audit_seq : t.audit_seq ≡ s.audit_seq

same_beside : (s : MemoryStore) → SameBeside s s
same_beside s = search

retain-SameBeside : (t : MemoryStore) → SameBeside t (retain t)
retain-SameBeside t = elim (Bool-cases (ltb t.max_events (length t.events))) [
  | inl e ↦ unfold retain in rw e (search)
  | inr e ↦ unfold retain in rw e (same_beside t)
]

save_event-SameBeside :
    (o : Option SecurityEvent) (s : MemoryStore) → SameBeside s (save_event o s).0
save_event-SameBeside none s = unfold save_event in same_beside s
save_event-SameBeside (some ev) s = elim (Bool-cases (ev.id == "")) [
  | inl e ↦ unfold save_event in rw e (same_beside s)
  | inr e ↦ elim (Bool-cases (contains s.event_ids ev.id)) [
    | inl old ↦ unfold save_event in rw (e, old) (same_beside s)
    | inr new ↦
        let after = record s { events = s.events ++ ev ∷ []; event_ids = ev.id ∷ s.event_ids } in
        let r = retain-SameBeside after in
        unfold save_event in
        rw (e, new)
          (record {
            incidents = r.incidents;
            incident_order = r.incident_order;
            actions = r.actions;
            action_order = r.action_order;
            audit_log = r.audit_log;
            audit_seq = r.audit_seq;
          })
  ]
]

module _ (s : MemoryStore) (v : IsValid s) where
  save_event-IsValid : (o : Option SecurityEvent) → IsValid (save_event o s).0
  save_event-IsValid o =
      let same = save_event-SameBeside o s in
      record {
        events = save_event-EventsValid s v.events o;
        incidents = rw (same.incidents, same.incident_order) v.incidents;
        actions = rw (same.actions, same.action_order) v.actions;
        trail = trail_of_same v.trail same.audit_log same.audit_seq;
      }

  save_incident-IsValid : (o : Option Incident) → IsValid (save_incident o s).0
  save_incident-IsValid none = unfold save_incident in v
  save_incident-IsValid (some inc) = elim (Bool-cases (inc.id == "")) [
    | inl e ↦ unfold save_incident in rw e v
    | inr e ↦
        unfold save_incident in
        rw e (record {
          events = events_of_same v.events refl refl refl;
          incidents =
              remember-IndexValid (λ (i : Incident). i.id) s.incidents s.incident_order v.incidents
                inc;
          actions = v.actions;
          trail = trail_of_same v.trail refl refl;
        })
  ]

  save_action_locked-IsValid : (a : ResponseAction) → IsValid (save_action_locked a s)
  save_action_locked-IsValid a =
      unfold save_action_locked in
      record {
        events = events_of_same v.events refl refl refl;
        incidents = v.incidents;
        actions =
            remember-IndexValid (λ (i : ResponseAction). i.id) s.actions s.action_order v.actions a;
        trail = trail_of_same v.trail refl refl;
      }

  save_action-IsValid : (o : Option ResponseAction) → IsValid (save_action o s).0
  save_action-IsValid none = unfold save_action in v
  save_action-IsValid (some a) = elim (Bool-cases (a.id == "")) [
    | inl e ↦ unfold save_action in rw e v
    | inr e ↦ unfold save_action in rw e (save_action_locked-IsValid a)
  ]

  append_audit_locked-IsValid : (e : Entry) → IsValid (append_audit_locked e s)
  append_audit_locked-IsValid e = record {
    events = unfold append_audit_locked in events_of_same v.events refl refl refl;
    incidents = unfold append_audit_locked in v.incidents;
    actions = unfold append_audit_locked in v.actions;
    trail = append_audit_locked-TrailValid e s v.trail;
  }

  append-IsValid : (o : Option Entry) → IsValid (append o s).0
  append-IsValid none = unfold append in v
  append-IsValid (some e) = elim (Bool-cases (e.id == "")) [
    | inl h ↦ unfold append in rw h v
    | inr h ↦ unfold append in rw h (append_audit_locked-IsValid e)
  ]

  save_if_given-IsValid : (o : Option ResponseAction) → IsValid (save_if_given o s)
  save_if_given-IsValid none = unfold save_if_given in v
  save_if_given-IsValid (some a) = unfold save_if_given in save_action_locked-IsValid a

append_entries-IsValid :
    (es : List (Option Entry)) (s : MemoryStore) → IsValid s → IsValid (append_entries es s)
unfolding append_entries
append_entries-IsValid [] s v = v
append_entries-IsValid (none ∷ es) s v = append_entries-IsValid es s v
append_entries-IsValid (some e ∷ es) s v =
    append_entries-IsValid es (append_audit_locked e s) (append_audit_locked-IsValid s v e)

save_action_with_audit-IsValid :
    (o : Option ResponseAction) (es : List (Option Entry)) (s : MemoryStore)
    → IsValid s
    → IsValid (save_action_with_audit o es s).0
save_action_with_audit-IsValid o es s v = elim (Bool-cases (lacks_id o)) [
  | inl e ↦ unfold save_action_with_audit in rw e v
  | inr e ↦ elim (Bool-cases (some_unusable es)) [
    | inl u ↦ unfold save_action_with_audit in rw (e, u) v
    | inr u ↦
        unfold save_action_with_audit in
        rw (e, u) (append_entries-IsValid es (save_if_given o s) (save_if_given-IsValid s v o))
  ]
]

step-IsValid : (c : Call) (s : MemoryStore) → IsValid s → IsValid (step c s).0
unfolding step
step-IsValid (call_save_event o) s v = save_event-IsValid s v o
step-IsValid (call_save_incident o) s v = save_incident-IsValid s v o
step-IsValid (call_save_action o) s v = save_action-IsValid s v o
step-IsValid (call_save_action_with_audit o es) s v = save_action_with_audit-IsValid o es s v
step-IsValid (call_append o) s v = append-IsValid s v o

-- After any history of a new store, failing calls included, the invariant holds.
pub run-IsValid : (n : ℤ) (cs : List Call) → IsValid (run cs (new_memory_store n))
run-IsValid n cs = run_induction IsValid step-IsValid cs (new_memory_store n) (new-IsValid n)
