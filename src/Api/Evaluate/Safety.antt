-- ===== src/Api/Evaluate/Safety.antt =====
-- An evaluation never does more than the policy permits, and nothing but a simulation at that.
use griefer_security_platfor.Prelude.{
  ◌≤◌, length, String, ◌≡◌, refl, sym, ap, ◌∙◌, ◌≢◌, ◌⊎◌, inl, inr, true, false, none, some, arith,
  ◌==◌, eq_iff, Bool-cases, Option-cases, ne_of_text_eq-false,
}
use griefer_security_platfor.Prelude.Result.{Result, ok, err}
use griefer_security_platfor.Graph.Store.{Graph}
use griefer_security_platfor.Incidents.{
  Incident, ResponseAction, simulated, requires_approval, denied, rejected, PolicyDecision,
  SimulatedEffect, mode_simulate, valid_mode,
}
use griefer_security_platfor.Incidents.Catalog.{ActionSpec, CatalogError, lookup_action}
use griefer_security_platfor.Incidents.Categories.{evidence_categories}
use griefer_security_platfor.Policy.{
  Kernel, KernelError, Verdict, effect_allow, effect_deny, effect_require_approval,
}
use griefer_security_platfor.Policy.Rego.{effect}
use griefer_security_platfor.Storage.{
  StoreError, not_found, event_id_required, incident_id_required, action_id_required,
  entry_id_required,
}
use griefer_security_platfor.Api.Evaluate.{
  Format, Run, EvaluateRequest, EvaluateError, invalid_mode, unknown_action, apply_decision,
  judged_action, new_action, policy_input, conclude, with_incident, with_spec, reject, judge,
  mode_of,
}
use Prim.Native.String.{◌++◌ as ◌++ₛ◌}

-- What becomes of an action under a decision: the status says what the decision was, only an allowed
-- action of mode "simulate" is simulated and has an effect, and nothing is executed.
record Follows (before : ResponseAction) (d : PolicyDecision) (a : ResponseAction) : Type 0 where
  allowed : a.status ≡ simulated → (d.effect ≡ effect_allow) × (before.mode ≡ mode_simulate)
  simulates : d.effect ≡ effect_allow → before.mode ≡ mode_simulate → a.status ≡ simulated
  denies : d.effect ≡ effect_deny → a.status ≡ denied
  asks : d.effect ≡ effect_require_approval → a.status ≡ requires_approval
  effects :
      before.simulated_effect ≡ none
      → (x : SimulatedEffect) → a.simulated_effect ≡ some x
      → a.status ≡ simulated
  frame : a ≡ record before {
    status = a.status;
    reason = a.reason;
    simulated_effect = a.simulated_effect;
  }

-- An operator asked for the action, or it is not automated, or the incident has the evidence and the
-- score for an automated one.
abbrev pub Corroborated : Run → EvaluateRequest → Incident → Type 0
Corroborated r req inc =
    (r.principal.subject ≢ "")
    ⊎ (req.automated ≡ false)
    ⊎ ((2 ≤ length (evidence_categories inc.findings)) × (40 ≤ inc.risk_score))

-- One text is not two.
clash {ℓ} : {A : Type ℓ} {s t v : String} → s ≡ t → s ≡ v → (t == v) ≡ false → A
clash p q h = absurd (ne_of_text_eq-false _ _ h (sym p ∙ q))

apply_decision-Follows :
    (fmt : Format) (before : ResponseAction) (spec : ActionSpec) (inc : Incident)
    (d : PolicyDecision)
    → Follows before d (apply_decision fmt before spec inc d)
apply_decision-Follows fmt before spec inc d =
    let is_deny = eq_iff d.effect effect_deny in
    let is_ask = eq_iff d.effect effect_require_approval in
    let is_allow = eq_iff d.effect effect_allow in
    let is_dry = eq_iff before.mode mode_simulate in
    elim (Bool-cases (d.effect == effect_deny)) [
      | inl deny ↦
          let e = is_deny.0 deny in
          unfold apply_decision in
          rw deny (record {
            allowed = λ p. cc;
            simulates = λ p q. clash e p refl;
            denies = λ p. refl;
            asks = λ p. clash e p refl;
            effects = λ p x q. cc;
            frame = refl;
          })
      | inr not_deny ↦ elim (Bool-cases (d.effect == effect_require_approval)) [
        | inl ask ↦
            let e = is_ask.0 ask in
            unfold apply_decision in
            rw (not_deny, ask)
              (record {
                allowed = λ p. cc;
                simulates = λ p q. clash e p refl;
                denies = λ p. clash e p refl;
                asks = λ p. refl;
                effects = λ p x q. cc;
                frame = refl;
              })
        | inr not_ask ↦ elim (Bool-cases (d.effect == effect_allow)) [
          | inl allow ↦ elim (Bool-cases (before.mode == mode_simulate)) [
            | inl dry ↦
                unfold apply_decision in
                rw (not_deny, not_ask, allow, dry)
                  (record {
                    allowed = λ p. (is_allow.0 allow, is_dry.0 dry);
                    simulates = λ p q. refl;
                    denies = λ p. clash (is_allow.0 allow) p refl;
                    asks = λ p. clash (is_allow.0 allow) p refl;
                    effects = λ p x q. refl;
                    frame = refl;
                  })
            | inr wet ↦
                unfold apply_decision in
                rw (not_deny, not_ask, allow, wet)
                  (record {
                    allowed = λ p. cc;
                    simulates = λ p q. ground arith;
                    denies = λ p. clash (is_allow.0 allow) p refl;
                    asks = λ p. refl;
                    effects = λ p x q. cc;
                    frame = refl;
                  })
          ]
          | inr other ↦
              unfold apply_decision in
              rw (not_deny, not_ask, other)
                (record {
                  allowed = λ p. cc;
                  simulates = λ p q. ground arith;
                  denies = λ p. refl;
                  asks = λ p. ground arith;
                  effects = λ p x q. cc;
                  frame = refl;
                })
        ]
      ]
    ]

module _ (kernel : Kernel) (g : Graph) (r : Run) (req : EvaluateRequest) where
  -- The action of a run that reached the kernel.
  record Judged (loaded : Result StoreError Incident) (a : ResponseAction) : Type 0 where
    spec : ActionSpec
    inc : Incident
    verdict : Verdict
    catalogued : lookup_action req.action_type ≡ ok spec
    given : loaded ≡ ok inc
    recognised : valid_mode (mode_of req) ≡ true
    answered : kernel.evaluate (policy_input g r req spec inc) ≡ verdict
    concluded :
        a ≡ apply_decision r.format (judged_action g r req spec inc verdict.0) spec inc verdict.0

  -- The action of a run that was turned away.
  abbrev TurnedAway : ResponseAction → Type 0
  TurnedAway a =
      (a.status ≡ rejected)
      × (a.simulated_effect ≡ none)
      × (a.executed_at ≡ none)
      × (a.id ≡ r.action_id)

  conclude_action :
      (spec : ActionSpec) (inc : Incident) (v : Verdict)
      → (conclude g r req spec inc v).action
        ≡ some (apply_decision r.format (judged_action g r req spec inc v.0) spec inc v.0)
  conclude_action spec inc (d, e) = unfold conclude in refl

  with_incident_action :
      (spec : ActionSpec) (loaded : Result StoreError Incident) (a : ResponseAction)
      → (with_incident kernel g r req spec loaded).action ≡ some a
      → (inc : Incident) × (loaded ≡ ok inc)
        × (a
            ≡ apply_decision r.format
                (judged_action g r req spec inc (kernel.evaluate (policy_input g r req spec inc)).0)
                spec
                inc
                (kernel.evaluate (policy_input g r req spec inc)).0)
  with_incident_action spec (ok inc) a h =
      let c = conclude_action spec inc (kernel.evaluate (policy_input g r req spec inc)) in
      (inc, refl, unfold with_incident in cc)
  with_incident_action spec (err not_found) a h = unfold with_incident in cc
  with_incident_action spec (err event_id_required) a h = unfold with_incident in cc
  with_incident_action spec (err incident_id_required) a h = unfold with_incident in cc
  with_incident_action spec (err action_id_required) a h = unfold with_incident in cc
  with_incident_action spec (err entry_id_required) a h = unfold with_incident in cc

  turned :
      (result why : String) (e : EvaluateError) (a : ResponseAction)
      → (reject r req result why e).action ≡ some a
      → TurnedAway a
  turned result why e a h =
      let q : record (new_action r req) { status = rejected; reason = why } ≡ a =
        unfold reject in cc in
      rw (sym q) (
        refl,
        (unfold new_action in refl),
        (unfold new_action in refl),
        (unfold new_action in refl),
      )

  with_spec_action :
      (loaded : Result StoreError Incident) (found : Result CatalogError ActionSpec)
      (a : ResponseAction)
      → lookup_action req.action_type ≡ found
      → (with_spec kernel g r req loaded found).action ≡ some a
      → TurnedAway a ⊎ Judged loaded a
  with_spec_action loaded (err e) a q h = inl (
      turned "invalid_action"
        ("Action type "
          ++ₛ (r.format.quote req.action_type ++ₛ " is not defined in the GRIEFER action catalog."))
        (unknown_action e) a (unfold with_spec in h))
  with_spec_action loaded (ok spec) a q h = elim (Bool-cases (valid_mode (mode_of req))) [
    | inl valid ↦
        let (inc, l, c) =
          with_incident_action spec loaded a (unfold with_spec in (rw valid at h)) in
        inr (record {
          spec = spec;
          inc = inc;
          verdict = kernel.evaluate (policy_input g r req spec inc);
          catalogued = q;
          given = l;
          recognised = valid;
          answered = refl;
          concluded = c;
        })
    | inr invalid ↦ inl (
        turned "validation_failed"
          ("Response mode " ++ₛ (r.format.quote req.mode ++ₛ " is not recognised."))
          (invalid_mode req.mode) a (unfold with_spec in (rw invalid at h)))
  ]

  judge_action :
      (loaded : Result StoreError Incident) (a : ResponseAction)
      → (judge kernel g r req loaded).action ≡ some a
      → TurnedAway a ⊎ Judged loaded a
  judge_action loaded a h =
      with_spec_action loaded (lookup_action req.action_type) a refl (unfold judge in h)

  Judged-Follows :
      (loaded : Result StoreError Incident) (a : ResponseAction) (j : Judged loaded a)
      → Follows (judged_action g r req j.spec j.inc j.verdict.0) j.verdict.0 a
  Judged-Follows loaded a j = rw j.concluded (
      apply_decision-Follows r.format (judged_action g r req j.spec j.inc j.verdict.0) j.spec j.inc
        j.verdict.0)

  allowed_by :
      (loaded : Result StoreError Incident) (a : ResponseAction) (j : Judged loaded a)
      → j.verdict.0.effect ≡ effect_allow
      → j.verdict.0.allow ≡ true
  allowed_by loaded a j e =
      let safe = kernel.evaluate-IsSafe (policy_input g r req j.spec j.inc) in
      let agrees = safe.agrees in
      let at_verdict : j.verdict.0.allow ≡ (j.verdict.0.effect == effect_allow) =
        rw j.answered at agrees in
      at_verdict ∙ (eq_iff j.verdict.0.effect effect_allow).1 e

  -- An action that comes out of an evaluation has the identifier that was drawn for it.
  pub judge_action_id :
      (loaded : Result StoreError Incident) (a : ResponseAction)
      → (judge kernel g r req loaded).action ≡ some a
      → a.id ≡ r.action_id
  judge_action_id loaded a h = elim (judge_action loaded a h) [
    | inl (out, no_effect, idle, named) ↦ named
    | inr j ↦
        ap (λ z. z.id) (Judged-Follows loaded a j).frame ∙ (unfold judged_action new_action in refl)
  ]

  -- Whatever the kernel, the request and the store: an action that comes out simulated has mode
  -- "simulate" and carries the decision that allowed it, an effect is described only for such an
  -- action, and no action is ever marked as executed.
  pub evaluate_contained :
      (loaded : Result StoreError Incident) (a : ResponseAction)
      → (judge kernel g r req loaded).action ≡ some a
      → (a.status ≡ simulated
          → (a.mode ≡ mode_simulate)
            × ((d : PolicyDecision) × (a.policy_decision ≡ some d)
                × (d.effect ≡ effect_allow)
                × (d.allow ≡ true)))
        × ((x : SimulatedEffect) → a.simulated_effect ≡ some x → a.status ≡ simulated)
        × (a.executed_at ≡ none)
  evaluate_contained loaded a h = elim (judge_action loaded a h) [
    | inl (out, no_effect, idle, named) ↦ (λ p. cc, λ x q. cc, idle)
    | inr j ↦
        let f = Judged-Follows loaded a j in
        let d = j.verdict.0 in
        let before = judged_action g r req j.spec j.inc d in
        let decided : before.policy_decision ≡ some d = unfold judged_action in refl in
        let unsimulated : before.simulated_effect ≡ none =
          unfold judged_action new_action in refl in
        let idle : before.executed_at ≡ none = unfold judged_action new_action in refl in
        (
          λ p.
              let (e, m) = f.allowed p in
              (
                ap (λ z. z.mode) f.frame ∙ m,
                (d, ap (λ z. z.policy_decision) f.frame ∙ decided, e, allowed_by loaded a j e),
              ),
          f.effects unsimulated,
          ap (λ z. z.executed_at) f.frame ∙ idle,
        )
  ]

  -- When the kernel cannot decide, a request for an action of the catalog, in a mode that is
  -- recognised and on an incident that exists, is denied, and nothing is simulated.
  pub evaluate_fails_closed :
      (spec : ActionSpec) (inc : Incident) (e : KernelError)
      → lookup_action req.action_type ≡ ok spec
      → valid_mode (mode_of req) ≡ true
      → (kernel.evaluate (policy_input g r req spec inc)).1 ≡ some e
      → (a : ResponseAction) × ((judge kernel g r req (ok inc)).action ≡ some a)
        × (a.status ≡ denied)
        × (a.simulated_effect ≡ none)
  evaluate_fails_closed spec inc e found valid failed =
      let v = kernel.evaluate (policy_input g r req spec inc) in
      let safe = kernel.evaluate-IsSafe (policy_input g r req spec inc) in
      let before = judged_action g r req spec inc v.0 in
      let a = apply_decision r.format before spec inc v.0 in
      let f = apply_decision-Follows r.format before spec inc v.0 in
      let status : a.status ≡ denied = f.denies ((safe.closed e failed).0) in
      let unsimulated : before.simulated_effect ≡ none = unfold judged_action new_action in refl in
      (
        a,
        unfold judge with_spec with_incident in rw (found, valid) (conclude_action spec inc v),
        status,
        elim (Option-cases a.simulated_effect) [
          | inl absent ↦ absent
          | inr (x, present) ↦ let q = f.effects unsimulated x present in cc
        ],
      )
