-- ===== src/Policy/Remote.antt =====
-- internal/policy/remote.go: the kernel that asks an Open Policy Agent server. `Response` is what
-- the exchange over net/http and the decoding of its body come to.
use griefer_security_platfor.Prelude.{
  ℕ, String, ◌≡◌, refl, inl, inr, Bool, false, ◌&&◌, none, some, leb, if◌then◌else◌, Bool-cases,
}
use Prim.Native.String.{◌++◌ as ◌++ₛ◌}
use griefer_security_platfor.Prelude.Result.{Result, ok, err}
use griefer_security_platfor.Events.{Time}
use griefer_security_platfor.Incidents.{PolicyDecision}
use griefer_security_platfor.Policy.{
  Input, Verdict, IsSafe, Kernel, KernelError, engine_failed, undecodable, endpoint_status,
  no_document, RawDecision, engine_remote, engine_unavailable, fail_closed, fail_closed-IsSafe,
  judge, judge-IsSafe,
}

-- The body of an answer: unreadable, no JSON of the expected shape, without a result, or with one.
pub data Body : Type 0 where
  unreadable : (deadline_exceeded : Bool) (text : String) → Body
  not_json : (text : String) → Body
  without_result : Body
  with_result : RawDecision → Body

pub data Response : Type 0 where
  unencodable unbuildable : (text : String) → Response
  unreachable : (deadline_exceeded : Bool) (text : String) → Response
  answered : (status : ℕ) → Body → Response

module _ (exchange : Input → Response) (error_text : KernelError → String) (now : Time) where
  read_body : Body → Result KernelError PolicyDecision
  unfolding judge
  read_body (unreadable deadline text) = err (engine_failed deadline text)
  read_body (not_json text) = err (undecodable text)
  read_body without_result = err no_document
  read_body (with_result raw) = judge engine_remote now raw

  read_response : Response → Result KernelError PolicyDecision
  unfolding read_body
  read_response (unencodable text) = err (undecodable text)
  read_response (unbuildable text) = err (engine_failed false text)
  read_response (unreachable deadline text) = err (engine_failed deadline text)
  read_response (answered status body) =
      if leb status 200 && leb 200 status then read_body body else err (endpoint_status status)

  verdict : Result KernelError PolicyDecision → Verdict
  unfolding fail_closed
  verdict (ok decision) = (decision, none)
  verdict (err e) = (
    fail_closed engine_unavailable
        ("Policy Kernel is unreachable or returned an unusable decision; GRIEFER fails closed and denies the action. "
          ++ₛ error_text e)
        now,
    some e,
  )

  -- RemoteKernel.Evaluate
  unfoldable pub evaluate : Input → Verdict
  unfolding read_response verdict
  evaluate input = verdict (read_response (exchange input))

  verdict-IsSafe :
      (r : Result KernelError PolicyDecision)
      → ((d : PolicyDecision) → r ≡ ok d → IsSafe (d, none))
      → IsSafe (verdict r)
  unfolding verdict
  verdict-IsSafe (ok d) h = h d refl
  verdict-IsSafe (err e) h = fail_closed-IsSafe _ _ _ _

  read_body-IsSafe : (b : Body) → IsSafe (verdict (read_body b))
  read_body-IsSafe (with_result raw) =
      unfold read_body in
      verdict-IsSafe (judge engine_remote now raw) (judge-IsSafe engine_remote now raw)
  read_body-IsSafe _ = unfold read_body verdict in fail_closed-IsSafe _ _ _ _

  read_response-IsSafe : (r : Response) → IsSafe (verdict (read_response r))
  read_response-IsSafe (answered status body) =
      elim (Bool-cases (leb status 200 && leb 200 status)) [
        | inl e ↦ unfold read_response in rw e (read_body-IsSafe body)
        | inr e ↦ unfold read_response in rw e (unfold verdict in fail_closed-IsSafe _ _ _ _)
      ]
  read_response-IsSafe _ = unfold read_response verdict in fail_closed-IsSafe _ _ _ _

  -- Whatever the server answers, or fails to answer, the remote kernel's verdict is safe to act on.
  pub remote-IsSafe : (input : Input) → IsSafe (evaluate input)
  remote-IsSafe input = unfold evaluate in read_response-IsSafe (exchange input)

  -- A document that is well-formed and comes with status 200 is the decision.
  pub evaluate-document :
      (input : Input) (raw : RawDecision) (d : PolicyDecision)
      → exchange input ≡ answered 200 (with_result raw)
      → judge engine_remote now raw ≡ ok d
      → evaluate input ≡ (d, none)
  evaluate-document input raw d q j = unfold evaluate read_response read_body verdict in rw (q, j)

  abbrev pub kernel : Kernel
  kernel = record { evaluate = evaluate; evaluate-IsSafe = remote-IsSafe }
