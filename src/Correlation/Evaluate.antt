-- ===== src/Correlation/Evaluate.antt =====
-- internal/correlation/engine.go: evaluate, with the thresholds of stateful rules, and subjectKey.
pub mod Found
pub mod Hits
pub mod Window
use griefer_security_platfor.Prelude.{
  ℕ, zero, suc, ◌+◌, ◌-◌, ◌≤◌, ◌<◌, String, ◌≡◌, refl, sym, ap, ◌∙◌, ◌≢◌, ◌↔◌, ◌⊎◌, inl, inr, Bool,
  true, false, not, ◌&&◌, ◌||◌, Option, none, some, List, [], ◌∷◌, ◌++◌, map, arith, ◌==◌, eq_iff,
  eq_refl, ltb, leb, if◌then◌else◌, text_lt, Bool-cases, Option-cases, length, take, drop,
  length-append, length-take, length-drop, take-append-drop, leb→le, ltb→lt, All, Any,
  text_eq-false_of_ne, ne_of_text_eq-false,
}
use Prim.Native.String.{◌++◌ as ◌++ₛ◌}
use griefer_security_platfor.Prelude.Dict.{lookup, insert}
use griefer_security_platfor.Prelude.Text.{Unicode}
use griefer_security_platfor.Events.{Time, SecurityEvent, actor_key}
use griefer_security_platfor.Graph.Project.{entity_ids_for_event}
use griefer_security_platfor.Incidents.{Finding}
use griefer_security_platfor.Correlation.Rules.{Rule, Threshold, matches}
use griefer_security_platfor.Correlation.Derive.{Env}

-- What a run draws from internal/idgen and the clock: the id of its n-th finding, the id of an
-- incident that it opens, and the time.
pub record Run : Type 0 where
  pub finding_id : ℕ → String
  pub incident_id : String
  pub now : Time

-- subjectKey
unfoldable pub subject_key : Unicode → SecurityEvent → String
unfolding actor_key
subject_key u ev =
    if not (actor_key u ev == "")
    then actor_key u ev
    else "unattributed:" ++ₛ (ev.source_type ++ₛ (":" ++ₛ ev.source_name))

unfoldable pub since : Time → List Time → List Time
since cutoff [] = []
since cutoff (t ∷ ts) = let rest = since cutoff ts in if ltb t cutoff then rest else t ∷ rest

-- `if len(kept) > n { kept = kept[len(kept)-n:] }`
unfoldable pub last_hits : ℕ → List Time → List Time
last_hits n kept = if ltb n (length kept) then drop (length kept - n) kept else kept

-- The hits that thresholdMet keeps.
unfoldable pub kept_hits : Threshold → Time → List Time → List Time
unfolding since last_hits
kept_hits t at hits = last_hits t.count (since (at - t.window) (hits ++ at ∷ []))

unfoldable pub hits_or_none : Option (List Time) → List Time
hits_or_none none = []
hits_or_none (some hits) = hits

-- thresholdMet
unfoldable pub threshold_met :
    String
    → String
    → Threshold
    → Time
    → List (String × List Time)
    → Bool × List (String × List Time)
unfolding kept_hits hits_or_none lookup insert
threshold_met subject rule_id t at all_hits =
    let key = subject ++ₛ ("|" ++ₛ rule_id) in
    let kept = kept_hits t at (hits_or_none (lookup key all_hits)) in
    (leb t.count (length kept), insert key kept all_hits)

-- The findings so far, and the hits.
abbrev pub Evaluated : Type 0
Evaluated = List Finding × List (String × List Time)

module _ (u : Unicode) (run : Run) (ev : SecurityEvent) where
  finding_of : Rule → ℕ → Finding
  unfolding entity_ids_for_event
  finding_of r n = record {
    id = run.finding_id n;
    rule_id = r.id;
    title = r.title;
    description = r.description;
    category = r.category;
    severity = r.severity;
    confidence = r.confidence;
    techniques = r.techniques;
    entity_ids = entity_ids_for_event u ev;
    event_ids = ev.id ∷ [];
    first_seen = ev.timestamp;
    last_seen = ev.timestamp;
  }

  emit : Rule → Bool × List (String × List Time) → List Finding → Evaluated
  unfolding finding_of
  emit r (true, hits) out = (out ++ finding_of r (length out) ∷ [], hits)
  emit r (false, hits) out = (out, hits)

  -- What a rule that matches does.
  fire : String → Rule → Option Threshold → Evaluated → Evaluated
  unfolding emit threshold_met
  fire subject r none (out, hits) = emit r (true, hits) out
  fire subject r (some t) (out, hits) = emit r (threshold_met subject r.id t ev.timestamp hits) out

-- The body of the loop over the rules.
evaluate_rule : Unicode → Env → Run → SecurityEvent → String → Rule → Evaluated → Evaluated
unfolding fire matches
evaluate_rule u env run ev subject r done =
    if matches env.equal_fold r ev then fire u run ev subject r r.threshold done else done

-- evaluate
unfoldable pub evaluate :
    Unicode → Env → Run → SecurityEvent → String → List Rule → Evaluated → Evaluated
unfolding evaluate_rule
evaluate u env run ev subject [] done = done
evaluate u env run ev subject (r ∷ rs) done =
    evaluate u env run ev subject rs (evaluate_rule u env run ev subject r done)
