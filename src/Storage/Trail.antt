-- ===== src/Storage/Trail.antt =====
-- The audit trail is append-only and numbered from 1 without gaps.
use griefer_security_platfor.Prelude.{
  ℕ, suc, ◌+◌, ◌≡◌, refl, sym, ap, ◌∙◌, ◌≢◌, inl, inr, false, Option, none, some, List, [], ◌∷◌,
  ◌++◌, arith, ◌==◌, Bool-cases, length, length-append, All, text_eq-false_of_ne,
}
use griefer_security_platfor.Audit.{Entry}
use griefer_security_platfor.Incidents.{ResponseAction}
use griefer_security_platfor.Storage.{
  MemoryStore, append, append_audit_locked, append_entries, save_if_given, save_action_locked,
  save_action, save_action_with_audit, save_event, save_incident, retain, is_unusable,
  some_unusable, lacks_id,
}
use griefer_security_platfor.Storage.Step.{
  Call, call_save_event, call_save_incident, call_save_action, call_save_action_with_audit,
  call_append, step, run,
}
use griefer_security_platfor.Storage.{StoreError}
use griefer_security_platfor.Storage.Step.{run_induction}
use griefer_security_platfor.Events.{SecurityEvent}
use griefer_security_platfor.Incidents.{Incident}
use mathlib.Core.Path.{subst}
use mathlib.Core.List.{append_assoc, append-nil}

-- The sequence numbers count up from `n`.
abbrev pub IsNumbered : ℕ → List Entry → Type 0
IsNumbered n [] = Unit
IsNumbered n (e ∷ es) = (e.sequence ≡ n) × IsNumbered (suc n) es

pub record TrailValid (s : MemoryStore) : Type 0 where
  pub numbered : IsNumbered 1 s.audit_log
  pub counted : s.audit_seq ≡ length s.audit_log

IsNumbered-snoc :
    (n : ℕ) (es : List Entry) (e : Entry)
    → IsNumbered n es
    → e.sequence ≡ n + length es
    → IsNumbered n (es ++ e ∷ [])
IsNumbered-snoc n [] e h q = (omega arith, tt)
IsNumbered-snoc n (x ∷ es) e h q = (h.0, IsNumbered-snoc (suc n) es e h.1 (omega arith))

pub append_audit_locked-TrailValid :
    (e : Entry) (s : MemoryStore) → TrailValid s → TrailValid (append_audit_locked e s)
unfolding append_audit_locked
append_audit_locked-TrailValid e s v = record {
  numbered =
      IsNumbered-snoc 1 s.audit_log (record e { sequence = s.audit_seq + 1 }) v.numbered
        (omega (arith, v.counted));
  counted =
      omega (
        arith,
        length-append s.audit_log (record e { sequence = s.audit_seq + 1 } ∷ []),
        v.counted,
      );
}

pub append_entries-TrailValid :
    (es : List (Option Entry)) (s : MemoryStore) → TrailValid s → TrailValid (append_entries es s)
unfolding append_entries
append_entries-TrailValid [] s v = v
append_entries-TrailValid (none ∷ es) s v = append_entries-TrailValid es s v
append_entries-TrailValid (some e ∷ es) s v =
    append_entries-TrailValid es (append_audit_locked e s) (append_audit_locked-TrailValid e s v)

-- The entries that a call writes behind the trail `log`.
abbrev pub Extends : List Entry → List Entry → Type 0
Extends log log' = (more : List Entry) × (log' ≡ log ++ more)

pub Extends-refl : (log : List Entry) → Extends log log
Extends-refl log = ([], sym (append-nil log))

pub Extends-trans : (a b c : List Entry) → Extends a b → Extends b c → Extends a c
Extends-trans a b c (x, p) (y, q) = (x ++ y, cc (append_assoc a x y))

append_entries-Extends :
    (es : List (Option Entry)) (s : MemoryStore)
    → Extends s.audit_log (append_entries es s).audit_log
unfolding append_entries append_audit_locked
append_entries-Extends [] s = Extends-refl s.audit_log
append_entries-Extends (none ∷ es) s = append_entries-Extends es s
append_entries-Extends (some e ∷ es) s =
    Extends-trans s.audit_log (append_audit_locked e s).audit_log _
      (record e { sequence = s.audit_seq + 1 } ∷ [], refl)
      (append_entries-Extends es (append_audit_locked e s))

save_event-audit :
    (o : Option SecurityEvent) (s : MemoryStore) → (save_event o s).0.audit_log ≡ s.audit_log
unfolding save_event retain
save_event-audit none s = refl
save_event-audit (some ev) s = ground arith

save_incident-audit :
    (o : Option Incident) (s : MemoryStore) → (save_incident o s).0.audit_log ≡ s.audit_log
unfolding save_incident
save_incident-audit none s = refl
save_incident-audit (some inc) s = ground arith

save_action-audit :
    (o : Option ResponseAction) (s : MemoryStore) → (save_action o s).0.audit_log ≡ s.audit_log
unfolding save_action save_action_locked
save_action-audit none s = refl
save_action-audit (some a) s = ground arith

save_if_given-audit :
    (o : Option ResponseAction) (s : MemoryStore) → (save_if_given o s).audit_log ≡ s.audit_log
unfolding save_if_given save_action_locked
save_if_given-audit none s = refl
save_if_given-audit (some a) s = refl

save_action_with_audit-Extends :
    (action : Option ResponseAction) (es : List (Option Entry)) (s : MemoryStore)
    → Extends s.audit_log (save_action_with_audit action es s).0.audit_log
save_action_with_audit-Extends action es s = elim (Bool-cases (lacks_id action)) [
  | inl e ↦ unfold save_action_with_audit in rw e (Extends-refl s.audit_log)
  | inr e ↦ elim (Bool-cases (some_unusable es)) [
    | inl u ↦ unfold save_action_with_audit in rw (e, u) (Extends-refl s.audit_log)
    | inr u ↦
        unfold save_action_with_audit in
        rw (e, u)
          (subst (λ log. Extends log (append_entries es (save_if_given action s)).audit_log)
            (save_if_given-audit action s) (append_entries-Extends es (save_if_given action s)))
  ]
]

append-Extends : (o : Option Entry) (s : MemoryStore) → Extends s.audit_log (append o s).0.audit_log
append-Extends none s = unfold append in Extends-refl s.audit_log
append-Extends (some e) s = elim (Bool-cases (e.id == "")) [
  | inl h ↦ unfold append in rw h (Extends-refl s.audit_log)
  | inr h ↦
      unfold append append_audit_locked in rw h (record e { sequence = s.audit_seq + 1 } ∷ [], refl)
]

unchanged-Extends : (a b : List Entry) → b ≡ a → Extends a b
unchanged-Extends a b p = ([], p ∙ sym (append-nil a))

step-Extends : (c : Call) (s : MemoryStore) → Extends s.audit_log (step c s).0.audit_log
unfolding step
step-Extends (call_save_event o) s = unchanged-Extends _ _ (save_event-audit o s)
step-Extends (call_save_incident o) s = unchanged-Extends _ _ (save_incident-audit o s)
step-Extends (call_save_action o) s = unchanged-Extends _ _ (save_action-audit o s)
step-Extends (call_save_action_with_audit o es) s = save_action_with_audit-Extends o es s
step-Extends (call_append o) s = append-Extends o s

-- Whatever is called, the trail that was there stays, entry by entry, and new entries come behind it.
pub run-Extends : (cs : List Call) (s : MemoryStore) → Extends s.audit_log (run cs s).audit_log
run-Extends cs s =
    run_induction (λ t. Extends s.audit_log t.audit_log)
      (λ c t h. Extends-trans s.audit_log t.audit_log _ h (step-Extends c t)) cs s
      (Extends-refl s.audit_log)

-- One call of `append` for each entry, and one of `save_action` for the action.
unfoldable pub append_each : List (Option Entry) → MemoryStore → MemoryStore
append_each [] s = s
append_each (e ∷ es) s = append_each es (append e s).0

unfoldable pub save_given : Option ResponseAction → MemoryStore → MemoryStore
save_given none s = s
save_given (some action) s = (save_action (some action) s).0

abbrev pub HasId : Option Entry → Type 0
HasId none = ⊥
HasId (some e) = e.id ≢ ""

abbrev pub IsNamed : Option ResponseAction → Type 0
IsNamed none = Unit
IsNamed (some a) = a.id ≢ ""

append_entries-each :
    (es : List (Option Entry)) (s : MemoryStore)
    → some_unusable es ≡ false
    → append_entries es s ≡ append_each es s
unfolding append_entries append_each append some_unusable is_unusable
append_entries-each [] s h = refl
append_entries-each (none ∷ es) s h = cc
append_entries-each (some e ∷ es) s h = elim (Bool-cases (e.id == "")) [
  | inl bad ↦ ground arith
  | inr good ↦ rw good (append_entries-each es (append_audit_locked e s) (ground (arith, good)))
]

save_if_given-given :
    (o : Option ResponseAction) (s : MemoryStore)
    → lacks_id o ≡ false
    → save_if_given o s ≡ save_given o s
unfolding save_if_given save_given save_action lacks_id
save_if_given-given none s h = refl
save_if_given-given (some a) s h = ground arith

usable-of_HasId : (es : List (Option Entry)) → All HasId es → some_unusable es ≡ false
unfolding some_unusable is_unusable
usable-of_HasId [] h = refl
usable-of_HasId (none ∷ es) h = absurd h.0
usable-of_HasId (some e ∷ es) h = rw (text_eq-false_of_ne _ _ h.0) (usable-of_HasId es h.1)

lacks_id-of_IsNamed : (o : Option ResponseAction) → IsNamed o → lacks_id o ≡ false
unfolding lacks_id
lacks_id-of_IsNamed none h = refl
lacks_id-of_IsNamed (some a) h = text_eq-false_of_ne _ _ h

module _ (action : Option ResponseAction) (entries : List (Option Entry)) (s : MemoryStore) where
  -- An evaluation is recorded as a whole or not at all: with an error the store is unchanged, and
  -- without one it is the store that saving the action and then appending the entries one by one
  -- leaves behind. There is no error where the action, if there is one, and every entry has an id.
  pub save_action_with_audit_atomic :
      ((e : StoreError)
        → (save_action_with_audit action entries s).1 ≡ some e
        → (save_action_with_audit action entries s).0 ≡ s)
      × ((save_action_with_audit action entries s).1 ≡ none
          → (save_action_with_audit action entries s).0 ≡ append_each entries (save_given action s))
      × (IsNamed action → All HasId entries → (save_action_with_audit action entries s).1 ≡ none)
  save_action_with_audit_atomic = (error_keeps, success_writes, success_if_named)
    where
      error_keeps :
          (e : StoreError)
          → (save_action_with_audit action entries s).1 ≡ some e
          → (save_action_with_audit action entries s).0 ≡ s
      error_keeps e h = unfold save_action_with_audit in ground arith

      success_writes :
          (save_action_with_audit action entries s).1 ≡ none
          → (save_action_with_audit action entries s).0 ≡ append_each entries (save_given action s)
      success_writes h = elim (Bool-cases (lacks_id action)) [
        | inl bad ↦ unfold save_action_with_audit in ground arith
        | inr good ↦ elim (Bool-cases (some_unusable entries)) [
          | inl bad ↦ unfold save_action_with_audit in ground arith
          | inr usable ↦
              unfold save_action_with_audit in
              rw (good, usable)
                (append_entries-each entries (save_if_given action s) usable
                  ∙ ap (append_each entries) (save_if_given-given action s good))
        ]
      ]

      success_if_named :
          IsNamed action → All HasId entries → (save_action_with_audit action entries s).1 ≡ none
      success_if_named a es =
          unfold save_action_with_audit in
          rw (lacks_id-of_IsNamed action a, usable-of_HasId entries es)
