-- ===== src/Api/Evaluate/Recorded.antt =====
-- Every path of an evaluation is on record.
use griefer_security_platfor.Prelude.{
  ℕ, suc, ◌+◌, ◌≤◌, String, ◌≡◌, refl, sym, ap, ◌∙◌, ◌≢◌, inl, inr, false, Option, none, some, List,
  [], ◌∷◌, ◌++◌, map, arith, ◌==◌, eq_refl, Bool-cases, length, All, All-map, Any,
  text_eq-false_of_ne, ne_of_text_eq-false,
}
use griefer_security_platfor.Prelude.Result.{Result, ok, err}
use griefer_security_platfor.Graph.Store.{Graph}
use griefer_security_platfor.Incidents.{
  Incident, ResponseAction, ActionStatus, unset, simulated, requires_approval, denied, rejected,
  valid_mode,
}
use griefer_security_platfor.Incidents.Catalog.{ActionSpec, CatalogError, lookup_action}
use griefer_security_platfor.Policy.{Kernel, Verdict, effect_allow, effect_require_approval}
use griefer_security_platfor.Audit.{Entry, Detail, prepare}
use griefer_security_platfor.Storage.{
  MemoryStore, StoreError, not_found, event_id_required, incident_id_required, action_id_required,
  entry_id_required, append, append_audit_locked, save_action_with_audit, save_action,
  save_action_locked, get_action, get_incident,
}
use griefer_security_platfor.Storage.Trail.{
  append_each, save_given, save_action_with_audit_atomic, IsNamed, HasId,
}
use griefer_security_platfor.Storage.Index.{get_action-save_action}
use griefer_security_platfor.Api.Evaluate.{
  unknown_action, invalid_mode, evaluation_result, join_reasons, decision_details, Run,
  EvaluateRequest, EvaluateError, Outcome, base, audit_action_for, audit_outcome_for, actor_of,
  apply_decision, judged_action, policy_input, conclude, with_incident, with_spec, reject, judge,
  mode_of, prepare_all, persist_evaluation, evaluate_action,
}
use griefer_security_platfor.Api.Evaluate.Safety.{judge_action_id}
use Prim.Native.String.{◌++◌ as ◌++ₛ◌}
use mathlib.Core.List.{append_assoc, append-nil}

audit_action_for-ne : (s : ActionStatus) → (audit_action_for s == "") ≡ false
unfolding audit_action_for
audit_action_for-ne unset = refl
audit_action_for-ne simulated = refl
audit_action_for-ne requires_approval = refl
audit_action_for-ne denied = refl
audit_action_for-ne rejected = refl

audit_outcome_for-ne : (e : String) → (audit_outcome_for e == "") ≡ false
unfolding audit_outcome_for
audit_outcome_for-ne e = elim (Bool-cases (e == effect_allow)) [
  | inl h ↦ rw h
  | inr h ↦ elim (Bool-cases (e == effect_require_approval)) [
    | inl q ↦ rw (h, q)
    | inr q ↦ rw (h, q)
  ]
]

module _ (r : Run) where
  -- The entry is about this run's action, names its operator, with the role held, and its request.
  pub record IsOurs (e : Entry) : Type 0 where
    pub subject : e.subject_id ≡ r.action_id
    pub actor : e.actor ≡ actor_of r.principal
    pub role : e.actor_role ≡ r.principal.role
    pub request : e.request_id ≡ r.request_id

  -- If an action is returned, one of the entries says in what status and for what reason.
  pub Told : Option ResponseAction → List Entry → Type 0
  Told none es = Unit {0}
  Told (some a) es = Any (λ e. (e.action ≡ audit_action_for a.status) × (e.reason ≡ a.reason)) es

  abbrev Preparable : Entry → Type 0
  Preparable e = IsOurs e × ((e.action == "") ≡ false) × ((e.outcome == "") ≡ false)

  base-Preparable :
      (req : EvaluateRequest) (result action outcome reason : String)
      (extra : List (String × Detail))
      → (action == "") ≡ false
      → (outcome == "") ≡ false
      → Preparable (base r req result action outcome reason extra)
  unfolding base
  base-Preparable req result action outcome reason extra p q =
      (record { subject = refl; actor = refl; role = refl; request = refl }, p, q)

  module _ (kernel : Kernel) (g : Graph) (req : EvaluateRequest) where
    abbrev WellRecorded : Outcome → Type 0
    WellRecorded o = All Preparable o.entries × (1 ≤ length o.entries) × Told o.action o.entries

    one_entry :
        (result outcome reason : String)
        → (outcome == "") ≡ false
        → All Preparable (base r req result "response.rejected" outcome reason [] ∷ [])
    one_entry result outcome reason h =
        (base-Preparable req result "response.rejected" outcome reason [] refl h, tt)

    reject-WellRecorded :
        (result why : String) (e : EvaluateError) → WellRecorded (reject r req result why e)
    unfolding reject
    reject-WellRecorded result why e = (
      one_entry result "denied" why refl,
      omega arith,
      unfold Told base audit_action_for in inl (refl, refl),
    )

    conclude-WellRecorded :
        (spec : ActionSpec) (inc : Incident) (v : Verdict)
        → WellRecorded (conclude g r req spec inc v)
    conclude-WellRecorded spec inc (d, e) =
        let a = apply_decision r.format (judged_action g r req spec inc d) spec inc d in
        let result = evaluation_result a.status e in
        unfold conclude in
        (
          (
            base-Preparable req result "policy.evaluated" (audit_outcome_for d.effect)
                (join_reasons d.reasons)
                (decision_details spec inc (policy_input g r req spec inc) d) refl
                (audit_outcome_for-ne d.effect),
            (
              base-Preparable req result (audit_action_for a.status) (audit_outcome_for d.effect)
                  a.reason [] (audit_action_for-ne a.status) (audit_outcome_for-ne d.effect),
              tt,
            ),
          ),
          omega arith,
          unfold Told base in inr (inl (refl, refl)),
        )

    unloaded-WellRecorded :
        (spec : ActionSpec) (e : StoreError)
        → WellRecorded (with_incident kernel g r req spec (err e))
    unfolding with_incident
    unloaded-WellRecorded spec not_found = (
      one_entry "validation_failed" "denied" "The referenced incident does not exist." refl,
      omega arith,
      unfold Told in tt,
    )
    unloaded-WellRecorded spec event_id_required = (
      one_entry "internal_error" "failure" "The incident could not be loaded." refl,
      omega arith,
      unfold Told in tt,
    )
    unloaded-WellRecorded spec incident_id_required = (
      one_entry "internal_error" "failure" "The incident could not be loaded." refl,
      omega arith,
      unfold Told in tt,
    )
    unloaded-WellRecorded spec action_id_required = (
      one_entry "internal_error" "failure" "The incident could not be loaded." refl,
      omega arith,
      unfold Told in tt,
    )
    unloaded-WellRecorded spec entry_id_required = (
      one_entry "internal_error" "failure" "The incident could not be loaded." refl,
      omega arith,
      unfold Told in tt,
    )

    with_incident-WellRecorded :
        (spec : ActionSpec) (loaded : Result StoreError Incident)
        → WellRecorded (with_incident kernel g r req spec loaded)
    with_incident-WellRecorded spec (err e) = unloaded-WellRecorded spec e
    with_incident-WellRecorded spec (ok inc) =
        unfold with_incident in
        conclude-WellRecorded spec inc (kernel.evaluate (policy_input g r req spec inc))

    with_spec-WellRecorded :
        (loaded : Result StoreError Incident) (found : Result CatalogError ActionSpec)
        → WellRecorded (with_spec kernel g r req loaded found)
    with_spec-WellRecorded loaded (err e) =
        unfold with_spec in
        reject-WellRecorded "invalid_action"
          ("Action type "
            ++ₛ (r.format.quote req.action_type
                ++ₛ " is not defined in the GRIEFER action catalog."))
          (unknown_action e)
    with_spec-WellRecorded loaded (ok spec) = elim (Bool-cases (valid_mode (mode_of req))) [
      | inl h ↦ unfold with_spec in rw h (with_incident-WellRecorded spec loaded)
      | inr h ↦
          unfold with_spec in
          rw h (
            reject-WellRecorded "validation_failed"
              ("Response mode " ++ₛ (r.format.quote req.mode ++ₛ " is not recognised."))
              (invalid_mode req.mode))
    ]

    judge-WellRecorded :
        (loaded : Result StoreError Incident) → WellRecorded (judge kernel g r req loaded)
    judge-WellRecorded loaded =
        unfold judge in with_spec-WellRecorded loaded (lookup_action req.action_type)

  abbrev Mine : Entry → Type 0
  Mine e = (e.id == "") ≡ false

  -- The entries as they are stamped, where `n` entries have drawn an identifier before.
  pub stamp : ℕ → List Entry → List Entry
  stamp n [] = []
  stamp n (e ∷ es) = record e { id = r.audit_ids n; timestamp = r.audit_now } ∷ stamp (suc n) es

  system_actor-kept : (actor_of r.principal == "") ≡ false
  unfolding actor_of
  system_actor-kept = elim (Bool-cases (r.principal.subject == "")) [
    | inl h ↦ rw h
    | inr h ↦ rw (h, h)
  ]

  stamp-Mine : ((n : ℕ) → r.audit_ids n ≢ "") → (n : ℕ) (es : List Entry) → All Mine (stamp n es)
  unfolding stamp
  stamp-Mine ids n [] = tt
  stamp-Mine ids n (e ∷ es) = (text_eq-false_of_ne _ _ (ids n), stamp-Mine ids (suc n) es)

  -- What the loop of persistEvaluation hands to the store.
  prepare_all-stamp :
      (n : ℕ) (es : List Entry) → All Preparable es → prepare_all r n es ≡ map some (stamp n es)
  unfolding prepare_all prepare stamp
  prepare_all-stamp n [] h = refl
  prepare_all-stamp n (e ∷ es) ((ours, act, out), hs) =
      let named : (e.actor == "") ≡ false = rw ours.actor system_actor-kept in
      let rest = prepare_all-stamp (suc n) es hs in
      rw (act, out, named)
        (ap (◌∷◌ (some (record e { id = r.audit_ids n; timestamp = r.audit_now }))) rest)

  append_each-some :
      (e : Entry) (es : List (Option Entry)) (s : MemoryStore)
      → (e.id == "") ≡ false
      → append_each (some e ∷ es) s ≡ append_each es (append_audit_locked e s)
  unfolding append_each append
  append_each-some e es s h = rw h

  log_step :
      (e : Entry) (s : MemoryStore) (new : List Entry)
      → (append_audit_locked e s).audit_log ++ new
        ≡ s.audit_log ++ (record e { sequence = s.audit_seq + 1 } ∷ new)
  unfolding append_audit_locked
  log_step e s new = append_assoc s.audit_log (record e { sequence = s.audit_seq + 1 } ∷ []) new

  -- The entries as they are numbered after the number `q`.
  pub number : ℕ → List Entry → List Entry
  number q [] = []
  number q (e ∷ es) = record e { sequence = q + 1 } ∷ number (q + 1) es

  -- Appending entries one by one adds just them to the log, in their order, numbered on from the last
  -- number, and leaves the actions alone.
  abbrev Appended : List Entry → MemoryStore → MemoryStore → Type 0
  Appended es s t = (t.audit_log ≡ s.audit_log ++ number s.audit_seq es) × (t.actions ≡ s.actions)

  append_each-Appended :
      (es : List Entry) (s : MemoryStore)
      → All Mine es
      → Appended es s (append_each (map some es) s)
  unfolding number
  append_each-Appended [] s h = unfold append_each in (sym (append-nil s.audit_log), refl)
  append_each-Appended (e ∷ es) s (named, hs) =
      let next = append_audit_locked e s in
      let rest = append_each-Appended es next hs in
      let counted : next.audit_seq ≡ s.audit_seq + 1 = unfold append_audit_locked in refl in
      let same : next.actions ≡ s.actions = unfold append_audit_locked in refl in
      rw (append_each-some e (map some es) s named) (
        rest.0
            ∙ ap (λ q. next.audit_log ++ number q es) counted
            ∙ log_step e s (number (s.audit_seq + 1) es),
        rest.1 ∙ same,
      )

  mapped_HasId : (es : List Entry) → All Mine es → All HasId (map some es)
  mapped_HasId [] h = tt
  mapped_HasId (e ∷ es) (named, hs) = (ne_of_text_eq-false _ _ named, mapped_HasId es hs)

  -- The store after the writes of a run: the trail that was there, and behind it the entries of the
  -- path, unaltered but for the identifier, the time and the number that each of them gets.
  pub record Recorded (o : Outcome) (s t : MemoryStore) : Type 0 where
    pub appended : t.audit_log ≡ s.audit_log ++ number s.audit_seq (stamp 0 o.entries)
    pub ours : All IsOurs o.entries
    pub present : 1 ≤ length o.entries
    pub told : Told o.action o.entries
    pub saved : (a : ResponseAction) → o.action ≡ some a → get_action r.action_id t ≡ ok a

  save_given-trail :
      (o : Option ResponseAction) (s : MemoryStore)
      → IsNamed o
      → ((save_given o s).audit_log ≡ s.audit_log) × ((save_given o s).audit_seq ≡ s.audit_seq)
  unfolding save_given save_action save_action_locked
  save_given-trail none s h = (refl, refl)
  save_given-trail (some a) s h =
      rw (text_eq-false_of_ne a.id "" h, save_given, save_action) (refl, refl)

  saved_read :
      (a : ResponseAction) (s t : MemoryStore)
      → a.id ≡ r.action_id
      → t.actions ≡ (save_given (some a) s).actions
      → get_action a.id (save_action (some a) s).0 ≡ ok a
      → get_action r.action_id t ≡ ok a
  unfolding get_action save_given
  saved_read a s t same actions h = rw (actions, sym same) h

  saved_after :
      (a : ResponseAction) (s t : MemoryStore)
      → a.id ≡ r.action_id
      → r.action_id ≢ ""
      → t.actions ≡ (save_given (some a) s).actions
      → get_action r.action_id t ≡ ok a
  saved_after a s t same named actions =
      let read = get_action-save_action a a.id s (λ e. named (sym same ∙ e)) in
      saved_read a s t same actions (read ∙ rw (eq_refl a.id))

  persist-Recorded :
      (o : Outcome) (s : MemoryStore)
      → ((n : ℕ) → r.audit_ids n ≢ "")
      → r.action_id ≢ ""
      → ((a : ResponseAction) → o.action ≡ some a → a.id ≡ r.action_id)
      → All Preparable o.entries
      → 1 ≤ length o.entries
      → Told o.action o.entries
      → Recorded o s (persist_evaluation r o.action o.entries s)
  persist-Recorded o s ids named own fit some_entry told =
      let stamped = stamp 0 o.entries in
      let mine = stamp-Mine ids 0 o.entries in
      let prepared = prepare_all-stamp 0 o.entries fit in
      let is_named : IsNamed o.action = given_name o.action own in
      let has_ids : All HasId (prepare_all r 0 o.entries) =
        rw prepared (mapped_HasId stamped mine) in
      let atomic = save_action_with_audit_atomic o.action (prepare_all r 0 o.entries) s in
      let done : (save_action_with_audit o.action (prepare_all r 0 o.entries) s).0
          ≡ append_each (map some stamped) (save_given o.action s) =
        atomic.1 (atomic.2 is_named has_ids)
        ∙ ap (λ z. append_each z (save_given o.action s)) prepared in
      let (trail, numbers) = save_given-trail o.action s is_named in
      let (grown, same_actions) = append_each-Appended stamped (save_given o.action s) mine in
      unfold persist_evaluation in
      rw done (record {
        appended =
            grown
            ∙ ap (λ z. z ++ number (save_given o.action s).audit_seq stamped) trail
            ∙ ap (λ q. s.audit_log ++ number q stamped) numbers;
        ours = All-map (λ e p. p.0) o.entries fit;
        present = some_entry;
        told = told;
        saved = λ x e.
            saved_after x s (append_each (map some stamped) (save_given o.action s)) (own x e) named
              (same_actions ∙ ap (λ z. (save_given z s).actions) e);
      })
    where
      given_name :
          (x : Option ResponseAction)
          → ((a : ResponseAction) → x ≡ some a → a.id ≡ r.action_id)
          → IsNamed x
      given_name none h = tt
      given_name (some a) h = λ e. named (sym (h a refl) ∙ e)

-- Every path of an evaluation is on record, provided that the identifiers it draws are not empty.
-- Whatever the kernel answers and whatever is wrong with the request, the audit trail has grown by
-- exactly the entries of the path in their order, each unaltered but for its drawn identifier, its
-- time and its number, which goes on from the last. There is one at least; each is about this action
-- and under the operator, the role and the request of the call; and if an action is returned, it is
-- stored, and one of them says in what status it came out and for what reason.
pub evaluate_action-Recorded :
    (kernel : Kernel) (g : Graph) (r : Run) (req : EvaluateRequest) (s : MemoryStore)
    → ((n : ℕ) → r.audit_ids n ≢ "")
    → r.action_id ≢ ""
    → Recorded r (evaluate_action kernel g r req s).0 s (evaluate_action kernel g r req s).1
evaluate_action-Recorded kernel g r req s ids named =
    let loaded = get_incident req.incident_id s in
    let o = judge kernel g r req loaded in
    let w = judge-WellRecorded r kernel g req loaded in
    unfold evaluate_action in
    persist-Recorded r o s ids named (judge_action_id kernel g r req loaded) w.0 w.1 w.2
