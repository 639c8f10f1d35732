-- ===== src/Policy.antt =====
-- internal/policy/kernel.go: the decision request, the verdict and its validation.
pub mod Embedded
pub mod Remote
pub mod Rego
pub mod Agreement
mod Tests
use griefer_security_platfor.Prelude.{
  ℕ, zero, suc, ◌+◌, ◌-◌, ◌≤◌, ◌<◌, String, ◌≡◌, refl, sym, ap, ◌∙◌, ◌≢◌, ◌↔◌, ◌⊎◌, inl, inr, Bool,
  true, false, not, ◌&&◌, ◌||◌, Option, none, some, List, [], ◌∷◌, ◌++◌, map, arith, ◌==◌, eq_iff,
  eq_refl, ltb, leb, if◌then◌else◌, text_lt, Bool-cases, Option-cases, length, take, drop,
  length-append, length-take, length-drop, All, Any, text_eq-false_of_ne, ne_of_text_eq-false,
}
use griefer_security_platfor.Prelude.Result.{Result, ok, err}
use griefer_security_platfor.Prelude.Float.{Float64}
use griefer_security_platfor.Events.{Time}
use griefer_security_platfor.Incidents.{PolicyDecision}

abbrev pub effect_allow : String
effect_allow = "allow"

abbrev pub effect_deny : String
effect_deny = "deny"

abbrev pub effect_require_approval : String
effect_require_approval = "require_approval"

abbrev pub engine_embedded : String
engine_embedded = "embedded"

abbrev pub engine_remote : String
engine_remote = "remote"

abbrev pub engine_unavailable : String
engine_unavailable = "unavailable"

-- policies.Package and policies.Version
abbrev pub package_name : String
package_name = "griefer.response"

abbrev pub policy_version : String
policy_version = "0.1.0"

pub record ActionInput : Type 0 where
  pub type_name : String
  pub mode : String
  pub known : Bool
  pub destructive : Bool
  pub reversible : Bool
  pub rollback_action : String
  pub targets_critical_asset : Bool
  pub isolation : Bool
  pub target_entity_id : String

-- A nil slice of categories is `none`: it is written as JSON `null`, which is no array.
pub record IncidentInput : Type 0 where
  pub id : String
  pub risk_score : ℕ
  pub confidence : Float64
  pub severity : String
  pub evidence_categories : Option (List String)
  pub finding_count : ℕ

pub record RequestInput : Type 0 where
  pub automated : Bool
  pub requested_by : String

pub record Input : Type 0 where
  pub action : ActionInput
  pub incident : IncidentInput
  pub request : RequestInput

-- Why a kernel could not decide. A wrapped error of a library is its text, with whether it is
-- context.DeadlineExceeded.
pub data KernelError : Type 0 where
  engine_failed : (deadline_exceeded : Bool) (text : String) → KernelError
  undecodable : (text : String) → KernelError
  endpoint_status : (status : ℕ) → KernelError
  no_document : KernelError
  malformed : (effect : String) (reasons : ℕ) → KernelError

-- failClosed
unfoldable pub fail_closed : String → String → Time → PolicyDecision
fail_closed engine reason at = record {
  effect = effect_deny;
  allow = false;
  reasons = reason ∷ [];
  policy_package = package_name;
  policy_version = policy_version;
  evaluated_at = at;
  fail_closed = true;
  engine = engine;
}

pub record RawDecision : Type 0 where
  pub effect : String
  pub allow : Bool
  pub reasons : List String
  pub policy_package : String
  pub policy_version : String
  pub evidence_category_count : ℕ

unfoldable pub is_known_effect : String → Bool
is_known_effect e = e == effect_allow || e == effect_deny || e == effect_require_approval

unfoldable pub is_nil : List String → Bool
is_nil [] = true
is_nil (x ∷ xs) = false

-- The decision that a well-formed document becomes.
unfoldable pub accepted : String → Time → RawDecision → PolicyDecision
accepted engine at r = record {
  effect = r.effect;
  allow = r.allow;
  reasons = r.reasons;
  policy_package = if r.policy_package == "" then package_name else r.policy_package;
  policy_version = if r.policy_version == "" then "unknown" else r.policy_version;
  evaluated_at = at;
  fail_closed = false;
  engine = engine;
}

-- rawDecision.toDecision
unfoldable pub to_decision : String → Time → RawDecision → Option PolicyDecision
unfolding is_known_effect is_nil accepted
to_decision engine at r =
    if not (is_known_effect r.effect)
    then none
    else if r.effect == effect_allow && not r.allow
    then none
    else if not (r.effect == effect_allow) && r.allow
    then none
    else if is_nil r.reasons
    then none
    else some (accepted engine at r)

-- What Evaluate returns: a decision, beside the error where there is one.
abbrev pub Verdict : Type 0
Verdict = PolicyDecision × Option KernelError

-- What the interface promises of a verdict: the effect is one of three, permission agrees with it, a
-- reason is given, and a verdict with an error is a denial that failed closed.
pub record IsSafe (v : Verdict) : Type 0 where
  pub known :
      (v.0.effect ≡ effect_allow)
      ⊎ ((v.0.effect ≡ effect_deny) ⊎ (v.0.effect ≡ effect_require_approval))
  pub agrees : v.0.allow ≡ (v.0.effect == effect_allow)
  pub reasoned : v.0.reasons ≢ []
  pub closed :
      (e : KernelError) → v.1 ≡ some e → (v.0.effect ≡ effect_deny) × (v.0.fail_closed ≡ true)

-- Kernel: the interface of the Policy Kernel, with the promise that its clients rely on.
pub record Kernel : Type 0 where
  pub evaluate : Input → Verdict
  pub evaluate-IsSafe : (input : Input) → IsSafe (evaluate input)

-- The last step of both kernels: a document is judged, and what is malformed fails closed.
pub fail_closed-IsSafe :
    (engine reason : String) (at : Time) (e : KernelError)
    → IsSafe (fail_closed engine reason at, some e)
unfolding fail_closed
fail_closed-IsSafe engine reason at e = record {
  known = inr (inl refl);
  agrees = refl;
  reasoned = λ p. cc;
  closed = λ e' p. (refl, refl);
}

pub to_decision-IsSafe :
    (engine : String) (at : Time) (r : RawDecision) (d : PolicyDecision)
    → to_decision engine at r ≡ some d
    → IsSafe (d, none)
unfolding to_decision
to_decision-IsSafe engine at r d h = record {
  known = ground (
    arith,
    eq_iff r.effect effect_allow,
    eq_iff r.effect effect_deny,
    eq_iff r.effect effect_require_approval,
  );
  agrees = ground arith;
  reasoned = ground arith;
  closed = λ e p. cc;
}

judged : RawDecision → Option PolicyDecision → Result KernelError PolicyDecision
judged raw none = err (malformed raw.effect (length raw.reasons))
judged raw (some decision) = ok decision

-- The end of both kernels' `evaluate`: the document becomes a decision or an error.
unfoldable pub judge : String → Time → RawDecision → Result KernelError PolicyDecision
unfolding judged
judge engine at raw = judged raw (to_decision engine at raw)

judged-ok :
    (raw : RawDecision) (o : Option PolicyDecision) (d : PolicyDecision)
    → judged raw o ≡ ok d
    → o ≡ some d
unfolding judged
judged-ok raw none d h = cc
judged-ok raw (some _) d h = cc

pub judge-ok :
    (engine : String) (at : Time) (raw : RawDecision) (d : PolicyDecision)
    → to_decision engine at raw ≡ some d
    → judge engine at raw ≡ ok d
unfolding judge judged
judge-ok engine at raw d h = rw h

pub judge-IsSafe :
    (engine : String) (at : Time) (raw : RawDecision) (d : PolicyDecision)
    → judge engine at raw ≡ ok d
    → IsSafe (d, none)
judge-IsSafe engine at raw d h =
    to_decision-IsSafe engine at raw d
      (judged-ok raw (to_decision engine at raw) d (unfold judge in h))

pub to_decision-accepted :
    (engine : String) (at : Time) (r : RawDecision)
    → is_known_effect r.effect ≡ true
    → r.allow ≡ (r.effect == effect_allow)
    → is_nil r.reasons ≡ false
    → to_decision engine at r ≡ some (accepted engine at r)
unfolding to_decision
to_decision-accepted engine at r known agrees full = ground arith
