-- ===== src/Policy/Embedded.antt =====
-- internal/policy/embedded.go: the kernel that evaluates the policy in the process. `Answer` is what
-- the OPA library's prepared query returns for an input.
use griefer_security_platfor.Prelude.{String, ◌≡◌, refl, Bool, true, false, none, some, []}
use Prim.Native.String.{◌++◌ as ◌++ₛ◌}
use griefer_security_platfor.Prelude.Result.{Result, ok, err}
use griefer_security_platfor.Events.{Time}
use griefer_security_platfor.Incidents.{PolicyDecision}
use griefer_security_platfor.Policy.{
  Input, Verdict, IsSafe, Kernel, KernelError, engine_failed, undecodable, no_document, RawDecision,
  engine_embedded, fail_closed, fail_closed-IsSafe, judge, judge-IsSafe,
}

pub data Answer : Type 0 where
  failed : (deadline_exceeded : Bool) (text : String) → Answer
  empty : Answer
  unencodable : (text : String) → Answer
  document : RawDecision → Answer

-- `k.now()` is read twice on the failing path; `now` stands for both.
module _ (query : Input → Answer) (error_text : KernelError → String) (now : Time) where
  evaluate_answer : Answer → Result KernelError PolicyDecision
  unfolding judge
  evaluate_answer (failed deadline text) = err (engine_failed deadline text)
  evaluate_answer empty = err no_document
  evaluate_answer (unencodable text) = err (undecodable text)
  evaluate_answer (document raw) = judge engine_embedded now raw

  verdict : Result KernelError PolicyDecision → Verdict
  unfolding fail_closed
  verdict (ok decision) = (decision, none)
  verdict (err e) = (
    fail_closed engine_embedded
        ("Policy Kernel could not evaluate this request; GRIEFER fails closed and denies the action. "
          ++ₛ error_text e)
        now,
    some e,
  )

  -- EmbeddedKernel.Evaluate
  unfoldable pub evaluate : Input → Verdict
  unfolding evaluate_answer verdict
  evaluate input = verdict (evaluate_answer (query input))

  verdict-IsSafe :
      (r : Result KernelError PolicyDecision)
      → ((d : PolicyDecision) → r ≡ ok d → IsSafe (d, none))
      → IsSafe (verdict r)
  unfolding verdict
  verdict-IsSafe (ok d) h = h d refl
  verdict-IsSafe (err e) h = fail_closed-IsSafe _ _ _ _

  evaluate_answer-IsSafe : (a : Answer) → IsSafe (verdict (evaluate_answer a))
  evaluate_answer-IsSafe (document raw) =
      unfold evaluate_answer in
      verdict-IsSafe (judge engine_embedded now raw) (judge-IsSafe engine_embedded now raw)
  evaluate_answer-IsSafe _ = unfold evaluate_answer verdict in fail_closed-IsSafe _ _ _ _

  -- Whatever the policy engine answers, the embedded kernel's verdict is safe to act on.
  pub embedded-IsSafe : (input : Input) → IsSafe (evaluate input)
  embedded-IsSafe input = unfold evaluate in evaluate_answer-IsSafe (query input)

  -- A document that is well-formed is the decision.
  pub evaluate-document :
      (input : Input) (raw : RawDecision) (d : PolicyDecision)
      → query input ≡ document raw
      → judge engine_embedded now raw ≡ ok d
      → evaluate input ≡ (d, none)
  evaluate-document input raw d q j = unfold evaluate evaluate_answer verdict in rw (q, j)

  abbrev pub kernel : Kernel
  kernel = record { evaluate = evaluate; evaluate-IsSafe = embedded-IsSafe }

-- probeInput
abbrev pub probe_input : Input
probe_input = record {
  action = record {
    type_name = "preserve_evidence";
    mode = "simulate";
    known = true;
    destructive = false;
    reversible = true;
    rollback_action = "release_evidence_hold";
    targets_critical_asset = false;
    isolation = false;
    target_entity_id = "";
  };
  incident = record {
    id = "healthcheck";
    risk_score = 0;
    confidence = 0;
    severity = "";
    evidence_categories = some [];
    finding_count = 0;
  };
  request = record { automated = true; requested_by = "healthcheck" };
}

-- EmbeddedKernel.Health: the kernel is healthy exactly if the probe produces a decision.
unfoldable pub health :
    (Input → Answer) → (KernelError → String) → Time → Result KernelError (Unit {0})
unfolding evaluate_answer
health query error_text now = elim (evaluate_answer query error_text now (query probe_input)) [
  | ok _ ↦ ok tt
  | err e ↦ err e
]
