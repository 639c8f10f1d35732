-- ===== src/Correlation/Merge.antt =====
-- internal/correlation/engine.go: mergeFinding.
pub mod Bounded
use griefer_security_platfor.Prelude.{
  ℕ, zero, suc, ◌+◌, ◌-◌, ◌≤◌, ◌<◌, String, ◌≡◌, refl, sym, ap, ◌∙◌, ◌≢◌, ◌↔◌, ◌⊎◌, inl, inr, Bool,
  true, false, not, ◌&&◌, ◌||◌, Option, none, some, List, [], ◌∷◌, ◌++◌, map, arith, ◌==◌, eq_iff,
  eq_refl, ltb, leb, if◌then◌else◌, text_lt, Bool-cases, Option-cases, length, take, drop,
  length-append, length-take, length-drop, take-append-drop, leb→le, ltb→lt, All, Any,
  text_eq-false_of_ne, ne_of_text_eq-false,
}
use griefer_security_platfor.Prelude.Dict.{contains}
use griefer_security_platfor.Incidents.{Finding}

abbrev pub max_finding_events : ℕ
max_finding_events = 100

-- The two loops of mergeFinding: with the bound on events, and without one.
unfoldable pub merge_event_ids : List String → List String → List String
unfolding contains
merge_event_ids existing [] = existing
merge_event_ids existing (id ∷ ids) =
    if leb max_finding_events (length existing)
    then existing
    else merge_event_ids (if contains existing id then existing else existing ++ id ∷ []) ids

unfoldable pub merge_entity_ids : List String → List String → List String
unfolding contains
merge_entity_ids existing [] = existing
merge_entity_ids existing (id ∷ ids) =
    merge_entity_ids (if contains existing id then existing else existing ++ id ∷ []) ids

-- What mergeFinding does to the finding of the same rule.
unfoldable pub absorb : Finding → Finding → Finding
unfolding merge_event_ids merge_entity_ids
absorb f existing = record existing {
  last_seen = if ltb existing.last_seen f.last_seen then f.last_seen else existing.last_seen;
  first_seen = if ltb f.first_seen existing.first_seen then f.first_seen else existing.first_seen;
  event_ids = merge_event_ids existing.event_ids f.event_ids;
  entity_ids = merge_entity_ids existing.entity_ids f.entity_ids;
}

-- mergeFinding, on the incident's findings
unfoldable pub merge_finding : Finding → List Finding → List Finding
unfolding absorb
merge_finding f [] = f ∷ []
merge_finding f (existing ∷ rest) =
    if existing.rule_id == f.rule_id
    then absorb f existing ∷ rest
    else existing ∷ merge_finding f rest

unfoldable pub merge_findings : List Finding → List Finding → List Finding
unfolding merge_finding
merge_findings [] existing = existing
merge_findings (f ∷ fs) existing = merge_findings fs (merge_finding f existing)
