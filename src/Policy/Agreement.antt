-- ===== src/Policy/Agreement.antt =====
-- The two kernels over the same policy: internal/policy/embedded.go and remote.go with an engine that
-- evaluates response.rego.
use griefer_security_platfor.Prelude.{String, ◌≡◌, ap, ◌∙◌, none}
use griefer_security_platfor.Events.{Time}
use griefer_security_platfor.Policy.{Input, KernelError, judge-ok, engine_embedded, engine_remote}
use griefer_security_platfor.Policy.Embedded
use griefer_security_platfor.Policy.Remote
use griefer_security_platfor.Policy.Embedded.{Answer, document}
use griefer_security_platfor.Policy.Remote.{Response, answered, with_result}
use griefer_security_platfor.Policy.Rego.{Reason, decision, effect, to_decision-decision}

module _ (render : Input → Reason → String) (error_text : KernelError → String) (now : Time) where
  -- The embedded kernel, over an engine that answers the policy's document for an input, decides
  -- without an error what the policy says.
  pub embedded-effect :
      (query : Input → Answer) (i : Input)
      → query i ≡ document (decision render i)
      → ((Embedded.evaluate query error_text now i).0.effect ≡ effect i)
        × ((Embedded.evaluate query error_text now i).1 ≡ none)
  embedded-effect query i q =
      let (d, accepted, same) = to_decision-decision render engine_embedded now i in
      let e =
        Embedded.evaluate-document query error_text now i (decision render i) d q
          (judge-ok engine_embedded now (decision render i) d accepted) in
      (ap (λ v. v.0.effect) e ∙ same, ap (λ v. v.1) e)

  -- Likewise the remote kernel, over a server that answers with status 200 and that document.
  pub remote-effect :
      (exchange : Input → Response) (i : Input)
      → exchange i ≡ answered 200 (with_result (decision render i))
      → ((Remote.evaluate exchange error_text now i).0.effect ≡ effect i)
        × ((Remote.evaluate exchange error_text now i).1 ≡ none)
  remote-effect exchange i q =
      let (d, accepted, same) = to_decision-decision render engine_remote now i in
      let e =
        Remote.evaluate-document exchange error_text now i (decision render i) d q
          (judge-ok engine_remote now (decision render i) d accepted) in
      (ap (λ v. v.0.effect) e ∙ same, ap (λ v. v.1) e)
