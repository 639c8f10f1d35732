-- ===== src/Policy/Rego.antt =====
-- policies/rego/griefer/response.rego
use griefer_security_platfor.Prelude.{
  ℕ, ◌≤◌, String, ◌≡◌, refl, ◌≢◌, ◌⊎◌, inl, inr, Bool, true, false, not, ◌&&◌, none, some, List, [],
  ◌∷◌, map, arith, ◌==◌, eq_iff, ltb, if◌then◌else◌, text_lt, length, text_eq-false_of_ne,
  ne_of_text_eq-false,
}
use griefer_security_platfor.Prelude.Dict.{contains}
use griefer_security_platfor.Prelude.Sort.{sort_by, length-sort_by}
use griefer_security_platfor.Events.{Time}
use griefer_security_platfor.Incidents.{PolicyDecision, mode_simulate, mode_execute, valid_mode}
use griefer_security_platfor.Policy.{
  Input, RawDecision, effect_allow, effect_deny, to_decision, is_known_effect, is_nil, accepted,
  to_decision-accepted, effect_require_approval, package_name, policy_version,
}

abbrev pub min_evidence_categories : ℕ
min_evidence_categories = 2

abbrev pub min_automated_risk_score : ℕ
min_automated_risk_score = 40

-- The rules that give a reason; `sprintf` fills in their texts.
pub data Reason : Type 0 where
  incomplete destructive_action unknown_action unknown_mode : Reason
  irreversible no_rollback critical_asset uncorroborated weak_isolation low_risk execution : Reason
  permitted : Reason

-- A value of the type `Input` has every field of the right type but an array that may be null.
input_complete : Input → Bool
input_complete i = elim i.incident.evidence_categories [ none ↦ false | some _ ↦ true ]

-- The set of the categories.
distinct : List String → List String
unfolding contains
distinct [] = []
distinct (c ∷ cs) = let rest = distinct cs in if contains rest c then rest else c ∷ rest

unfoldable pub evidence_category_count : Input → ℕ
unfolding distinct
evidence_category_count i = elim i.incident.evidence_categories [
  | none ↦ 0
  | some cs ↦ length (distinct cs)
]

when : Bool → Reason → List Reason → List Reason
when true r rs = r ∷ rs
when false r rs = rs

unfoldable pub deny_reasons : Input → List Reason
unfolding input_complete valid_mode when
deny_reasons i = when (not (input_complete i)) incomplete (
    when i.action.destructive destructive_action (
      when (not i.action.known) unknown_action
        (when (not (valid_mode i.action.mode)) unknown_mode [])))

unfoldable pub approval_reasons : Input → List Reason
unfolding when
approval_reasons i =
    let weak = i.request.automated && ltb (evidence_category_count i) min_evidence_categories in
    when (not i.action.reversible) irreversible (
      when (i.action.reversible && i.action.rollback_action == "") no_rollback (
        when i.action.targets_critical_asset critical_asset (
          when weak uncorroborated (
            when (i.action.isolation && weak) weak_isolation (
              when (i.request.automated && ltb i.incident.risk_score min_automated_risk_score)
                low_risk (when (i.action.mode == mode_execute) execution []))))))

effect_of : List Reason → List Reason → Bool → String
effect_of (d ∷ ds) approvals complete = effect_deny
effect_of [] (a ∷ as_needed) complete = effect_require_approval
effect_of [] [] true = effect_allow
effect_of [] [] false = effect_deny

unfoldable pub effect : Input → String
unfolding effect_of input_complete
effect i = effect_of (deny_reasons i) (approval_reasons i) (input_complete i)

reasons_of : List Reason → List Reason → List Reason
reasons_of (d ∷ ds) approvals = d ∷ ds
reasons_of [] (a ∷ rest) = a ∷ rest
reasons_of [] [] = permitted ∷ []

-- The decision document; `render` is the text of a reason for the input.
unfoldable pub decision : (Input → Reason → String) → Input → RawDecision
unfolding reasons_of sort_by
decision render i = record {
  effect = effect i;
  allow = effect i == effect_allow;
  reasons = sort_by text_lt (map (render i) (reasons_of (deny_reasons i) (approval_reasons i)));
  policy_package = package_name;
  policy_version = policy_version;
  evidence_category_count = evidence_category_count i;
}

-- The request meets every requirement that the policy sets for acting without a human.
pub record IsPermitted (i : Input) : Type 0 where
  pub harmless : i.action.destructive ≡ false
  pub defined : i.action.known ≡ true
  pub dry_run : i.action.mode ≡ mode_simulate
  pub undoable : i.action.reversible ≡ true
  pub way_back : i.action.rollback_action ≢ ""
  pub ordinary : i.action.targets_critical_asset ≡ false
  pub corroborated : i.request.automated ≡ true → 2 ≤ evidence_category_count i
  pub risky : i.request.automated ≡ true → 40 ≤ i.incident.risk_score

distinct-length : (cs : List String) → length (distinct cs) ≤ length cs
unfolding distinct
distinct-length [] = omega arith
distinct-length (c ∷ cs) = ground (arith, distinct-length cs)

-- The policy counts no more categories than the request lists.
pub evidence_category_count-le :
    (i : Input) (cs : List String)
    → i.incident.evidence_categories ≡ some cs
    → evidence_category_count i ≤ length cs
unfolding evidence_category_count
evidence_category_count-le i cs h = rw h (distinct-length cs)

effect_of-allow :
    (ds approvals : List Reason) (complete : Bool)
    → effect_of ds approvals complete ≡ effect_allow
    → (ds ≡ []) × (approvals ≡ []) × (complete ≡ true)
unfolding effect_of input_complete
effect_of-allow (d ∷ ds) approvals complete h = ground (arith, eq_iff effect_deny effect_allow)
effect_of-allow [] (a ∷ approvals) complete h =
    ground (arith, eq_iff effect_require_approval effect_allow)
effect_of-allow [] [] true h = (refl, refl, refl)
effect_of-allow [] [] false h = ground (arith, eq_iff effect_deny effect_allow)

not_denied :
    (i : Input)
    → deny_reasons i ≡ []
    → (i.action.destructive ≡ false) × (i.action.known ≡ true) × (valid_mode i.action.mode ≡ true)
unfolding deny_reasons
not_denied i h = ground arith

module _ (i : Input) (h : approval_reasons i ≡ []) where
  free_to_undo :
      (i.action.reversible ≡ true)
      × ((i.action.rollback_action == "") ≡ false)
      × (i.action.targets_critical_asset ≡ false)
  unfolding approval_reasons
  free_to_undo = ground arith

  free_to_automate :
      i.request.automated ≡ true → (2 ≤ evidence_category_count i) × (40 ≤ i.incident.risk_score)
  unfolding approval_reasons
  free_to_automate automated = ground arith

  free_of_execution : (i.action.mode == mode_execute) ≡ false
  unfolding approval_reasons
  free_of_execution = ground arith

simulates : (m : String) → valid_mode m ≡ true → (m == mode_execute) ≡ false → m ≡ mode_simulate
unfolding valid_mode
simulates m h e = ground (arith, eq_iff m mode_simulate)

-- The policy allows a request only if it meets every requirement: the action is defined, not
-- destructive, reversible by a named rollback and aimed at no critical asset, the mode is
-- simulation, and an automated request has two categories of evidence and a risk score of 40.
pub effect-IsPermitted : (i : Input) → effect i ≡ effect_allow → IsPermitted i
effect-IsPermitted i h =
    let (no_denial, no_approval, _) =
      effect_of-allow (deny_reasons i) (approval_reasons i) (input_complete i)
        (unfold effect in h) in
    let (harmless, defined, mode) = not_denied i no_denial in
    let (undoable, way_back, ordinary) = free_to_undo i no_approval in
    record {
      harmless = harmless;
      defined = defined;
      dry_run = simulates i.action.mode mode (free_of_execution i no_approval);
      undoable = undoable;
      way_back = ne_of_text_eq-false _ _ way_back;
      ordinary = ordinary;
      corroborated = λ a. (free_to_automate i no_approval a).0;
      risky = λ a. (free_to_automate i no_approval a).1;
    }

permitted_denies_nothing :
    (i : Input) (cs : List String)
    → IsPermitted i
    → i.incident.evidence_categories ≡ some cs
    → deny_reasons i ≡ []
unfolding deny_reasons
permitted_denies_nothing i cs p e =
    ground (arith, p.harmless, p.defined, eq_iff i.action.mode mode_simulate, p.dry_run)

permitted_needs_nobody : (i : Input) → IsPermitted i → approval_reasons i ≡ []
unfolding approval_reasons
permitted_needs_nobody i p = ground (
  arith,
  p.undoable,
  p.ordinary,
  p.dry_run,
  text_eq-false_of_ne _ _ p.way_back,
  eq_iff i.action.mode mode_execute,
  eq_iff mode_simulate mode_execute,
)

-- The policy's effect is `allow` for every request that meets the requirements and whose
-- categories are an array, so the requirements are exact.
pub IsPermitted-effect :
    (i : Input) (cs : List String)
    → i.incident.evidence_categories ≡ some cs
    → IsPermitted i
    → effect i ≡ effect_allow
unfolding effect
IsPermitted-effect i cs e p =
    rw (permitted_denies_nothing i cs p e, permitted_needs_nobody i p)
      (unfold input_complete in rw e)

-- A destructive action is denied, whatever else the request says.
pub effect-destructive : (i : Input) → i.action.destructive ≡ true → effect i ≡ effect_deny
unfolding effect deny_reasons
effect-destructive i h = ground arith

reasons_of-ne_nil : (ds approvals : List Reason) → reasons_of ds approvals ≢ []
unfolding reasons_of
reasons_of-ne_nil (d ∷ ds) approvals h = cc
reasons_of-ne_nil [] (a ∷ approvals) h = cc
reasons_of-ne_nil [] [] h = cc

effect_of-cases :
    (ds approvals : List Reason) (complete : Bool)
    → (effect_of ds approvals complete ≡ effect_allow)
      ⊎ ((effect_of ds approvals complete ≡ effect_deny)
          ⊎ (effect_of ds approvals complete ≡ effect_require_approval))
unfolding effect_of
effect_of-cases (d ∷ ds) approvals complete = inr (inl refl)
effect_of-cases [] (a ∷ approvals) complete = inr (inr refl)
effect_of-cases [] [] true = inl refl
effect_of-cases [] [] false = inr (inl refl)

sorted-is_nil : (xs : List String) → xs ≢ [] → is_nil (sort_by text_lt xs) ≡ false
unfolding is_nil
sorted-is_nil xs h = go (sort_by text_lt xs) (length-sort_by text_lt xs)
  where
    go : (ys : List String) → length ys ≡ length xs → is_nil ys ≡ false
    go [] e = ground (arith, h)
    go (y ∷ ys) e = refl

rendered-ne_nil :
    (f : Reason → String) (ds approvals : List Reason) → map f (reasons_of ds approvals) ≢ []
unfolding reasons_of
rendered-ne_nil f (d ∷ ds) approvals h = cc
rendered-ne_nil f [] (a ∷ approvals) h = cc
rendered-ne_nil f [] [] h = cc

effect-known : (i : Input) → is_known_effect (effect i) ≡ true
effect-known i = elim (effect_of-cases (deny_reasons i) (approval_reasons i) (input_complete i)) [
  | inl e ↦ unfold effect is_known_effect in rw e
  | inr (inl e) ↦ unfold effect is_known_effect in rw e
  | inr (inr e) ↦ unfold effect is_known_effect in rw e
]

-- Every document of this policy passes the kernel's validation, and the decision that comes of it
-- has the policy's effect.
pub to_decision-decision :
    (render : Input → Reason → String) (engine : String) (at : Time) (i : Input)
    → (d : PolicyDecision) × (to_decision engine at (decision render i) ≡ some d)
      × (d.effect ≡ effect i)
to_decision-decision render engine at i =
    let full =
      sorted-is_nil (map (render i) (reasons_of (deny_reasons i) (approval_reasons i)))
        (rendered-ne_nil (render i) (deny_reasons i) (approval_reasons i)) in
    (
      accepted engine at (decision render i),
      to_decision-accepted engine at (decision render i) (unfold decision in effect-known i)
          (unfold decision in refl) (unfold decision in full),
      unfold accepted decision in refl,
    )
