-- ===== src/Correlation/Engine/Consistent.antt =====
-- What the engine's open subjects and the store's incidents have to do with each other.
use griefer_security_platfor.Prelude.{
  ℕ, ◌-◌, String, ◌≡◌, sym, ap, ◌∙◌, ◌≢◌, ◌⊎◌, inl, inr, none, some, ◌==◌, eq_iff, ltb,
  if◌then◌else◌, Bool-cases, ne_of_text_eq-false,
}
use mathlib.Core.Path.{subst}
use griefer_security_platfor.Prelude.Dict.{lookup, insert, lookup-insert}
use griefer_security_platfor.Prelude.Result.{Result, ok, err}
use griefer_security_platfor.Events.{Time}
use griefer_security_platfor.Incidents.{Incident}
use griefer_security_platfor.Correlation.Derive.Sound.{HasBounds}
use griefer_security_platfor.Correlation.Engine.{
  IncidentStore, SubjectState, Engine, absorbing, still_open, is_closed,
}

-- What the engine relies on: a store gives back what was saved last under an id, and a save that
-- fails changes nothing that can be read.
pub record StoreLaws {S E : Type 0} (store : IncidentStore S E) : Type 0 where
  pub saved :
      (inc : Incident) (s : S)
      → (store.save_incident inc s).1 ≡ none
      → (k : String)
      → store.get_incident k (store.save_incident inc s).0
        ≡ (if inc.id == k then ok inc else store.get_incident k s)
  pub refused :
      (inc : Incident) (s : S) (e : E)
      → (store.save_incident inc s).1 ≡ some e
      → (k : String) → store.get_incident k (store.save_incident inc s).0 ≡ store.get_incident k s

module _ {S E : Type 0} (store : IncidentStore S E) where
  -- Stored incidents are bounded and stand under their own ids, and the incident that is open for a
  -- subject is about this subject.
  pub record IsConsistent (engine : Engine) (s : S) : Type 0 where
    pub bounded : (k : String) (inc : Incident) → store.get_incident k s ≡ ok inc → HasBounds inc
    pub keyed : (k : String) (inc : Incident) → store.get_incident k s ≡ ok inc → inc.id ≡ k
    pub isolated :
        (subject : String) (st : SubjectState) (inc : Incident)
        → lookup subject engine.open_subjects ≡ some st
        → store.get_incident st.incident_id s ≡ ok inc
        → inc.primary_identity ≡ subject

  -- Only what can be read of the store matters.
  pub IsConsistent-same_reads :
      (engine : Engine) (s t : S)
      → ((k : String) → store.get_incident k t ≡ store.get_incident k s)
      → IsConsistent engine s
      → IsConsistent engine t
  IsConsistent-same_reads engine s t same c = record {
    bounded = λ k inc h. c.bounded k inc (sym (same k) ∙ h);
    keyed = λ k inc h. c.keyed k inc (sym (same k) ∙ h);
    isolated =
        λ subject st inc found h. c.isolated subject st inc found (sym (same st.incident_id) ∙ h);
  }

  -- The id that is drawn for a new incident is not that of an open one.
  abbrev pub IsFresh : String → Engine → Type 0
  IsFresh id engine =
      (subject : String) (st : SubjectState)
      → lookup subject engine.open_subjects ≡ some st
      → st.incident_id ≢ id

  -- Where an incident to go on with comes from: a fresh id, or the store, unchanged.
  abbrev pub IsFrom : String → Incident → S → Type 0
  IsFrom fresh_id inc s = (inc.id ≡ fresh_id) ⊎ (store.get_incident inc.id s ≡ ok inc)

  still_open-ok :
      (found : Result E Incident) (inc : Incident)
      → still_open store found ≡ some inc
      → found ≡ ok inc
  unfolding still_open
  still_open-ok (err e) inc h = cc
  still_open-ok (ok x) inc h = elim (Bool-cases (is_closed x.status)) [
    | inl e ↦ cc (rw e at h)
    | inr e ↦ let same : some x ≡ some inc = rw e at h in cc
  ]

  pub absorbing-found :
      (window : ℕ) (at : Time) (state : SubjectState) (s : S) (inc : Incident)
      → absorbing store window at (some state) s ≡ some inc
      → store.get_incident state.incident_id s ≡ ok inc
  unfolding absorbing
  absorbing-found window at state s inc h = elim (Bool-cases (ltb window (at - state.last_seen))) [
    | inl e ↦ cc (rw e at h)
    | inr e ↦ still_open-ok (store.get_incident state.incident_id s) inc (rw e at h)
  ]

  -- A save that succeeds, of an incident `inc` that goes on from `old`.
  module _ (laws : StoreLaws store) (engine : Engine) (s : S) (consistent : IsConsistent engine s)
      (fresh_id subject : String) (fresh : IsFresh fresh_id engine) (old inc : Incident) (at : Time)
      (from : IsFrom fresh_id old s) (same_id : inc.id ≡ old.id)
      (same_subject : inc.primary_identity ≡ old.primary_identity)
      (about : old.primary_identity ≡ subject) (bounds : HasBounds inc)
      (succeeded : (store.save_incident inc s).1 ≡ none) where
    abbrev opened : Engine
    opened = record engine {
      open_subjects =
          insert subject (record { incident_id = inc.id; last_seen = at }) engine.open_subjects;
    }

    after_save :
        (k : String) (i : Incident)
        → store.get_incident k (store.save_incident inc s).0 ≡ ok i
        → ((inc.id ≡ k) × (inc ≡ i)) ⊎ ((inc.id ≢ k) × (store.get_incident k s ≡ ok i))
    after_save k i h = elim (Bool-cases (inc.id == k)) [
      | inl e ↦
          let found : ok inc ≡ ok i = rw e at (sym (laws.saved inc s succeeded k) ∙ h) in
          inl ((eq_iff inc.id k).0 e, cc)
      | inr e ↦
          inr (ne_of_text_eq-false inc.id k e, rw e at (sym (laws.saved inc s succeeded k) ∙ h))
    ]

    -- Another subject whose open incident this one is.
    shared_subject :
        (other : String) (st : SubjectState)
        → lookup other engine.open_subjects ≡ some st
        → inc.id ≡ st.incident_id
        → old.primary_identity ≡ other
    shared_subject other st found e = elim from [
      | inl drawn ↦ absurd (fresh other st found (sym e ∙ same_id ∙ drawn))
      | inr stored ↦
          let got : store.get_incident st.incident_id s ≡ ok old =
            ap (λ k. store.get_incident k s) (sym e ∙ same_id) ∙ stored in
          consistent.isolated other st old found got
    ]

    isolated_after :
        (other : String) (st : SubjectState) (i : Incident)
        → lookup other opened.open_subjects ≡ some st
        → store.get_incident st.incident_id (store.save_incident inc s).0 ≡ ok i
        → i.primary_identity ≡ other
    isolated_after other st i found got =
        let new : SubjectState = record { incident_id = inc.id; last_seen = at } in
        let looked = sym (lookup-insert subject other new engine.open_subjects) ∙ found in
        elim (Bool-cases (subject == other)) [
          | inl e ↦
              let here : some new ≡ some st = rw e at looked in
              let its_id : inc.id ≡ st.incident_id = cc in
              elim (after_save st.incident_id i got) [
                | inl (e2, same) ↦
                    ap (λ x. x.primary_identity) (sym same)
                    ∙ same_subject
                    ∙ about
                    ∙ (eq_iff subject other).0 e
                | inr (other_id, old_one) ↦ absurd (other_id its_id)
              ]
          | inr e ↦
              let there : lookup other engine.open_subjects ≡ some st = rw e at looked in
              elim (after_save st.incident_id i got) [
                | inl (e2, same) ↦
                    ap (λ x. x.primary_identity) (sym same)
                    ∙ same_subject
                    ∙ shared_subject other st there e2
                | inr (other_id, old_one) ↦ consistent.isolated other st i there old_one
              ]
        ]

    pub saved-IsConsistent : IsConsistent opened (store.save_incident inc s).0
    saved-IsConsistent = record {
      bounded = λ k i h. elim (after_save k i h) [
        | inl (e, same) ↦ subst HasBounds same bounds
        | inr (other_id, old_one) ↦ consistent.bounded k i old_one
      ];
      keyed = λ k i h. elim (after_save k i h) [
        | inl (e, same) ↦ cc
        | inr (other_id, old_one) ↦ consistent.keyed k i old_one
      ];
      isolated = isolated_after;
    }
