-- ===== src/Correlation/Evaluate/Found.antt =====
-- What evaluate finds: each finding has the event as its only evidence.
use griefer_security_platfor.Prelude.{
  ℕ, String, refl, inl, inr, Bool, true, false, Option, none, some, List, [], ◌∷◌, arith,
  Bool-cases, length, All,
}
use griefer_security_platfor.Prelude.{All-snoc}
use griefer_security_platfor.Prelude.Text.{Unicode}
use griefer_security_platfor.Events.{Time, SecurityEvent}
use griefer_security_platfor.Incidents.{Finding}
use griefer_security_platfor.Correlation.Rules.{Rule, Threshold, matches}
use griefer_security_platfor.Correlation.Derive.{Env}
use griefer_security_platfor.Correlation.Merge.Bounded.{IsBounded}
use griefer_security_platfor.Correlation.Evaluate.{
  Run, Evaluated, finding_of, emit, fire, threshold_met, evaluate_rule, evaluate,
}

module _ (u : Unicode) (run : Run) (ev : SecurityEvent) where
  finding_of-IsBounded : (r : Rule) (n : ℕ) → IsBounded (finding_of u run ev r n)
  finding_of-IsBounded r n = unfold finding_of in (omega arith, (refl, tt))

  emit-IsBounded :
      (r : Rule) (met : Bool × List (String × List Time)) (out : List Finding)
      → All IsBounded out
      → All IsBounded (emit u run ev r met out).0
  unfolding emit
  emit-IsBounded r (true, hits) out h =
      All-snoc IsBounded out (finding_of u run ev r (length out)) h
        (finding_of-IsBounded r (length out))
  emit-IsBounded r (false, hits) out h = h

  fire-IsBounded :
      (subject : String) (r : Rule) (t : Option Threshold) (done : Evaluated)
      → All IsBounded done.0
      → All IsBounded (fire u run ev subject r t done).0
  unfolding fire
  fire-IsBounded subject r none (out, hits) h = emit-IsBounded r (true, hits) out h
  fire-IsBounded subject r (some t) (out, hits) h =
      emit-IsBounded r (threshold_met subject r.id t ev.timestamp hits) out h

  evaluate_rule-IsBounded :
      (env : Env) (subject : String) (r : Rule) (done : Evaluated)
      → All IsBounded done.0
      → All IsBounded (evaluate_rule u env run ev subject r done).0
  evaluate_rule-IsBounded env subject r done h = elim (Bool-cases (matches env.equal_fold r ev)) [
    | inl e ↦ unfold evaluate_rule in rw e (fire-IsBounded subject r r.threshold done h)
    | inr e ↦ unfold evaluate_rule in rw e h
  ]

  pub evaluate-IsBounded :
      (env : Env) (subject : String) (rs : List Rule) (done : Evaluated)
      → All IsBounded done.0
      → All IsBounded (evaluate u env run ev subject rs done).0
  unfolding evaluate
  evaluate-IsBounded env subject [] done h = h
  evaluate-IsBounded env subject (r ∷ rs) done h =
      evaluate-IsBounded env subject rs (evaluate_rule u env run ev subject r done)
        (evaluate_rule-IsBounded env subject r done h)
