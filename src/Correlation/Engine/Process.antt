-- ===== src/Correlation/Engine/Process.antt =====
-- Process keeps the engine and its store consistent, and returns the subject's own incident.
use griefer_security_platfor.Prelude.{
  String, ◌≡◌, refl, sym, ap, ◌∙◌, inl, inr, Option, none, some, List, [], ◌∷◌, arith, All,
}
use mathlib.Core.Path.{subst}
use griefer_security_platfor.Prelude.Dict.{lookup, insert}
use griefer_security_platfor.Prelude.Text.{Unicode}
use griefer_security_platfor.Events.{Time, SecurityEvent}
use griefer_security_platfor.Graph.Store.{Graph}
use griefer_security_platfor.Incidents.{Incident, Finding}
use mathlib.Core.List.{Nodup-nil}
use griefer_security_platfor.Correlation.Derive.{Env, recompute, recompute_sorted}
use griefer_security_platfor.Correlation.Derive.Sound.{
  HasBounds, IsAssessed, recompute-HasBounds, recompute-IsAssessed,
}
use griefer_security_platfor.Correlation.Evaluate.{Run, subject_key, evaluate}
use griefer_security_platfor.Correlation.Evaluate.Found.{evaluate-IsBounded}
use griefer_security_platfor.Correlation.Merge.Bounded.{IsBounded, merge_findings-FindingsValid}
use griefer_security_platfor.Correlation.Engine.{
  IncidentStore, SubjectState, Engine, Processed, not_persisted, no_finding, touched, absorbing,
  or_new, fold_in, merged_incident, saved, merge_into_incident, merge_if_any, process, new_incident,
}
use griefer_security_platfor.Correlation.Engine.Consistent.{
  StoreLaws, IsConsistent, IsConsistent-same_reads, IsFresh, IsFrom, absorbing-found,
  saved-IsConsistent,
}

-- An incident about the subject: bounded, with a score, a severity and recommendations that fit.
pub record IsFor (subject : String) (inc : Incident) : Type 0 where
  pub about : inc.primary_identity ≡ subject
  pub bounds : HasBounds inc
  pub assessed : IsAssessed inc

-- What is asked of the incident that Process returns, where it returns one.
abbrev pub OnTouched : {E : Type 0} → (Incident → Type 0) → Processed E → Type 0
OnTouched P (touched inc) = P inc
OnTouched P no_finding = Unit
OnTouched P (not_persisted e) = Unit

-- The incident to go on with: it is about the subject, and comes from the store or is new.
record IsStart {S E : Type 0} (store : IncidentStore S E) (run : Run) (subject : String) (s : S)
    (inc : Incident) : Type 0 where
  pub about : inc.primary_identity ≡ subject
  pub bounds : HasBounds inc
  pub from : IsFrom store run.incident_id inc s

abbrev opened_for : Engine → String → String → Time → Engine
opened_for engine subject id at = record engine {
  open_subjects = insert subject (record { incident_id = id; last_seen = at }) engine.open_subjects;
}

module _ {S E : Type 0} (store : IncidentStore S E) (laws : StoreLaws store) (u : Unicode)
    (env : Env) (run : Run) (ev : SecurityEvent) (g : Graph) where
  new_incident-IsStart :
      (subject : String) (at : Time) (s : S)
      → IsStart store run subject s (new_incident run subject at)
  new_incident-IsStart subject at s =
      unfold new_incident in
      record {
        about = refl;
        bounds = record {
          findings = record { bounded = tt; distinct = Nodup-nil };
          evidence = record { bounded = omega arith; once = Nodup-nil };
        };
        from = inl refl;
      }

  module _ (engine : Engine) (s : S) (consistent : IsConsistent store engine s)
      (subject : String) where
    or_new-IsStart :
        (at : Time) (o : Option Incident)
        → ((inc : Incident) → o ≡ some inc → IsStart store run subject s inc)
        → IsStart store run subject s (or_new store run subject at o)
    unfolding or_new
    or_new-IsStart at none h = new_incident-IsStart subject at s
    or_new-IsStart at (some inc) h = h inc refl

    absorbing-IsStart :
        (at : Time) (found : Option SubjectState) (inc : Incident)
        → lookup subject engine.open_subjects ≡ found
        → absorbing store engine.window at found s ≡ some inc
        → IsStart store run subject s inc
    absorbing-IsStart at none inc h e = let q : none ≡ some inc = unfold absorbing in e in cc
    absorbing-IsStart at (some st) inc h e =
        let got = absorbing-found store engine.window at st s inc e in
        let its_id = consistent.keyed st.incident_id inc got in
        record {
          about = consistent.isolated subject st inc h got;
          bounds = consistent.bounded st.incident_id inc got;
          from = inr (ap (λ k. store.get_incident k s) its_id ∙ got);
        }

    fold_in-HasBounds :
        (findings : List Finding) (inc : Incident)
        → All IsBounded findings
        → HasBounds inc
        → HasBounds (fold_in store run ev findings inc)
    fold_in-HasBounds findings inc b h =
        unfold fold_in in
        record {
          findings = merge_findings-FindingsValid findings inc.findings b h.findings;
          evidence = h.evidence;
        }

    -- The incident that the findings go into.
    abbrev started : Incident
    started =
        or_new store run subject ev.timestamp
          (absorbing store engine.window ev.timestamp (lookup subject engine.open_subjects) s)

    started-IsStart : IsStart store run subject s started
    started-IsStart =
        or_new-IsStart ev.timestamp
          (absorbing store engine.window ev.timestamp (lookup subject engine.open_subjects) s)
          (λ inc e. absorbing-IsStart ev.timestamp (lookup subject engine.open_subjects) inc refl e)

    merged_incident-IsFor :
        (findings : List Finding)
        → All IsBounded findings
        → IsFor subject (merged_incident store env run ev subject findings g engine s)
    merged_incident-IsFor findings b =
        let folded = fold_in store run ev findings started in
        unfold merged_incident in
        record {
          about =
              unfold recompute in
              unfold recompute_sorted in unfold fold_in in started-IsStart.about;
          bounds =
              recompute-HasBounds env g ev folded
                (fold_in-HasBounds findings started b started-IsStart.bounds);
          assessed = recompute-IsAssessed env g ev folded;
        }

    merged_incident-id :
        (findings : List Finding)
        → (merged_incident store env run ev subject findings g engine s).id ≡ started.id
    merged_incident-id findings =
        unfold merged_incident in
        unfold recompute in unfold recompute_sorted in unfold fold_in in refl

    -- What holds after mergeIntoIncident, whether the save succeeds or not.
    abbrev IsAfter : Processed E × Engine × S → Type 0
    IsAfter r = OnTouched (IsFor subject) r.0 × IsConsistent store r.1 r.2

    saved-IsAfter :
        (inc : Incident) (written : S × Option E)
        → store.save_incident inc s ≡ written
        → IsFor subject inc
        → inc.id ≡ started.id
        → IsFresh store run.incident_id engine
        → IsAfter (saved store subject ev.timestamp inc engine written)
    unfolding saved
    saved-IsAfter inc (t, some e) h is_for same_id fresh = (
      tt,
      IsConsistent-same_reads store engine s t
          (λ k.
            ap (λ w. store.get_incident k w.0) (sym h) ∙ laws.refused inc s e (ap (λ w. w.1) h) k)
          consistent,
    )
    saved-IsAfter inc (t, none) h is_for same_id fresh = (
      is_for,
      subst (λ w. IsConsistent store (opened_for engine subject inc.id ev.timestamp) w.0) h
          (saved-IsConsistent store laws engine s consistent run.incident_id subject fresh started
            inc ev.timestamp started-IsStart.from same_id (is_for.about ∙ sym started-IsStart.about)
            started-IsStart.about is_for.bounds (ap (λ w. w.1) h)),
    )

    merge_into_incident-IsAfter :
        (findings : List Finding)
        → All IsBounded findings
        → IsFresh store run.incident_id engine
        → IsAfter (merge_into_incident store env run ev subject findings g engine s)
    merge_into_incident-IsAfter findings b fresh =
        let inc = merged_incident store env run ev subject findings g engine s in
        unfold merge_into_incident in
        saved-IsAfter inc (store.save_incident inc s) refl (merged_incident-IsFor findings b)
          (merged_incident-id findings) fresh

    merge_if_any-IsAfter :
        (findings : List Finding)
        → All IsBounded findings
        → IsFresh store run.incident_id engine
        → IsAfter (merge_if_any store env run ev subject findings g engine s)
    unfolding merge_if_any
    merge_if_any-IsAfter [] b fresh = (tt, consistent)
    merge_if_any-IsAfter (f ∷ fs) b fresh = merge_into_incident-IsAfter (f ∷ fs) b fresh

  -- Processing an event keeps the engine consistent with a store that keeps what it saves, if the id
  -- drawn for a new incident is not that of an open one. The incident that Process returns, if it
  -- returns one, is about the event's own subject, has one finding for each rule, with at most 100
  -- events each, and at most 200 pieces of evidence, nothing twice, a score of at most 100 with the
  -- severity that belongs to it, and recommends only what is in the catalog and destroys nothing.
  pub process-IsConsistent :
      (engine : Engine) (s : S)
      → IsConsistent store engine s
      → IsFresh store run.incident_id engine
      → OnTouched (IsFor (subject_key u ev)) (process store u env run ev g engine s).0
        × IsConsistent store
            (process store u env run ev g engine s).1
            (process store u env run ev g engine s).2
  process-IsConsistent engine s consistent fresh =
      let subject = subject_key u ev in
      let evaluated = evaluate u env run ev subject engine.rules ([], engine.threshold_hits) in
      let counted : Engine = record engine { threshold_hits = evaluated.1 } in
      let still : IsConsistent store counted s = record {
        bounded = consistent.bounded;
        keyed = consistent.keyed;
        isolated = consistent.isolated;
      } in
      unfold process in
      merge_if_any-IsAfter counted s still subject evaluated.0
        (evaluate-IsBounded u run ev env subject engine.rules ([], engine.threshold_hits) tt) fresh
