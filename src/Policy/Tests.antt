-- ===== src/Policy/Tests.antt =====
-- Tests of the kernels and of the policy.
use griefer_security_platfor.Prelude.{none, ◌≡◌, refl, true, false, []}
use griefer_security_platfor.Policy.{Input, IsSafe, effect_allow}
use griefer_security_platfor.Policy.Embedded
use griefer_security_platfor.Policy.Remote
use griefer_security_platfor.Policy.Embedded.{probe_input, embedded-IsSafe, document}
use griefer_security_platfor.Policy.Remote.{with_result, answered, unreadable, remote-IsSafe}
use griefer_security_platfor.Policy.Agreement.{embedded-effect, remote-effect}
use griefer_security_platfor.Policy.Rego.{
  deny_reasons, approval_reasons, effect, decision, IsPermitted, effect-IsPermitted,
  IsPermitted-effect,
}

embedded-IsSafe_example :
    IsSafe
      (Embedded.evaluate (λ i. document (decision (λ j r. "because") i)) (λ e. "") 7 probe_input)
embedded-IsSafe_example =
    embedded-IsSafe (λ i. document (decision (λ j r. "because") i)) (λ e. "") 7 probe_input

remote-IsSafe_example :
    IsSafe (Remote.evaluate (λ i. answered 503 (unreadable true "")) (λ e. "") 7 probe_input)
remote-IsSafe_example =
    remote-IsSafe (λ i. answered 503 (unreadable true "")) (λ e. "") 7 probe_input

-- Evidence preservation that an operator asks for.
abbrev asked_by_hand : Input
asked_by_hand = record probe_input {
  request = record { automated = false; requested_by = "console:analyst" };
}

is_allowed : effect asked_by_hand ≡ effect_allow
unfolding effect deny_reasons approval_reasons
is_allowed = refl

effect-IsPermitted_example : IsPermitted asked_by_hand
effect-IsPermitted_example = effect-IsPermitted asked_by_hand is_allowed

IsPermitted-effect_example : effect asked_by_hand ≡ effect_allow
IsPermitted-effect_example =
    IsPermitted-effect asked_by_hand [] refl (effect-IsPermitted asked_by_hand is_allowed)

embedded-effect_example :
    ((Embedded.evaluate
        (λ i. document (decision (λ j r. "because") i))
        (λ e. "")
        7
        asked_by_hand).0.effect
      ≡ effect asked_by_hand)
    × ((Embedded.evaluate
          (λ i. document (decision (λ j r. "because") i))
          (λ e. "")
          7
          asked_by_hand).1
        ≡ none)
embedded-effect_example =
    embedded-effect (λ j r. "because") (λ e. "") 7 (λ i. document (decision (λ j r. "because") i))
      asked_by_hand refl

remote-effect_example :
    ((Remote.evaluate
        (λ i. answered 200 (with_result (decision (λ j r. "because") i)))
        (λ e. "")
        7
        asked_by_hand).0.effect
      ≡ effect asked_by_hand)
    × ((Remote.evaluate
          (λ i. answered 200 (with_result (decision (λ j r. "because") i)))
          (λ e. "")
          7
          asked_by_hand).1
        ≡ none)
remote-effect_example =
    remote-effect (λ j r. "because") (λ e. "") 7
      (λ i. answered 200 (with_result (decision (λ j r. "because") i))) asked_by_hand refl
