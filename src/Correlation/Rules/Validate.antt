-- ===== src/Correlation/Rules/Validate.antt =====
-- internal/correlation/rules.go: when a rule is valid.
use griefer_security_platfor.Prelude.{
  ℕ, ◌+◌, ◌≤◌, String, ◌≡◌, refl, ◌≢◌, ◌⊎◌, inl, inr, Bool, true, false, not, ◌&&◌, ◌||◌, Option,
  none, some, List, [], ◌∷◌, arith, ◌==◌, ltb, leb, if◌then◌else◌, Bool-cases, length, All,
  ne_of_text_eq-false,
}
use griefer_security_platfor.Prelude.{eqb}
use griefer_security_platfor.Prelude.Float.{FloatOps}
use griefer_security_platfor.Events.{valid_severity}
use griefer_security_platfor.Incidents.{Technique}
use griefer_security_platfor.Correlation.Rules.{Rule, Match, Condition, Threshold, valid_field}

-- The errors of validate.
pub data RuleError : Type 0 where
  id_required title_required category_required invalid_confidence unconstrained threshold_count
        threshold_window incomplete_technique :
      RuleError
  invalid_severity unknown_field : String → RuleError
  operator_count : String → ℕ → RuleError

-- The number of operators that a condition uses.
unfoldable pub operators : Condition → ℕ
operators c =
    (if not (c.equals == "") then 1 else 0)
    + (if not (c.not_equals == "") then 1 else 0)
    + (if ltb 0 (length c.one_of) then 1 else 0)
    + elim c.exists [ none ↦ 0 | some _ ↦ 1 ]

validate_conditions : List Condition → Option RuleError
unfolding valid_field operators
validate_conditions [] = none
validate_conditions (c ∷ cs) =
    if not (valid_field c.field)
    then some (unknown_field c.field)
    else if not (eqb (operators c) 1)
    then some (operator_count c.field (operators c))
    else validate_conditions cs

validate_threshold : Option Threshold → Option RuleError
validate_threshold none = none
validate_threshold (some t) =
    if ltb t.count 2
    then some threshold_count
    else if leb t.window 0
    then some threshold_window
    else none

validate_techniques : List Technique → Option RuleError
validate_techniques [] = none
validate_techniques (t ∷ ts) =
    if t.id == "" || t.name == "" then some incomplete_technique else validate_techniques ts

-- The first error, if there is one.
unfoldable pub or_else : Option RuleError → Option RuleError → Option RuleError
or_else none later = later
or_else (some e) later = some e

validate_fields : FloatOps → Rule → Option RuleError
unfolding valid_severity
validate_fields fl r =
    if r.id == ""
    then some id_required
    else if r.title == ""
    then some title_required
    else if not (valid_severity r.severity)
    then some (invalid_severity r.severity)
    else if r.category == ""
    then some category_required
    else if fl.at_most r.confidence (fl.of_int 0) || fl.less (fl.of_int 1) r.confidence
    then some invalid_confidence
    else if eqb (length r.match_on.event_type) 0 && eqb (length r.match_on.conditions) 0
    then some unconstrained
    else none

-- Rule.validate: the error, `none` for nil
unfoldable pub validate : FloatOps → Rule → Option RuleError
unfolding validate_fields validate_conditions validate_threshold validate_techniques or_else
validate fl r = or_else (validate_fields fl r) (
    or_else (validate_conditions r.match_on.conditions)
      (or_else (validate_threshold r.threshold) (validate_techniques r.techniques)))

-- A condition reads an allowed field, with exactly one operator.
pub record IsUsable (c : Condition) : Type 0 where
  pub allowed : valid_field c.field ≡ true
  pub one_operator : operators c ≡ 1

pub record IsSound (r : Rule) : Type 0 where
  pub named : (r.id ≢ "") × (r.title ≢ "") × (r.category ≢ "")
  pub graded : valid_severity r.severity ≡ true
  pub constrained : (r.match_on.event_type ≢ []) ⊎ (r.match_on.conditions ≢ [])
  pub usable : All IsUsable r.match_on.conditions
  pub stateful : (t : Threshold) → r.threshold ≡ some t → (2 ≤ t.count) × (1 ≤ t.window)
  pub techniques_named : All (λ t. (t.id ≢ "") × (t.name ≢ "")) r.techniques

or_else-none : (a b : Option RuleError) → or_else a b ≡ none → (a ≡ none) × (b ≡ none)
unfolding or_else
or_else-none none b h = (refl, h)
or_else-none (some e) b h = cc

true_of_not-false : (b : Bool) → not b ≡ false → b ≡ true
true_of_not-false true h = refl
true_of_not-false false h = cc

eq_of_eqb : (a b : ℕ) → eqb a b ≡ true → a ≡ b
eq_of_eqb a b h = ground arith

nonempty_of_length {ℓ} : {A : Type ℓ} (xs : List A) → eqb (length xs) 0 ≡ false → xs ≢ []
nonempty_of_length [] h q = cc
nonempty_of_length (x ∷ xs) h q = cc

-- A check that came to nothing: its test failed, and what follows it came to nothing.
passed :
    (b : Bool) (e : RuleError) (later : Option RuleError)
    → (if b then some e else later) ≡ none
    → (b ≡ false) × (later ≡ none)
passed true e later h = cc
passed false e later h = (refl, h)

conditions-IsUsable : (cs : List Condition) → validate_conditions cs ≡ none → All IsUsable cs
unfolding validate_conditions
conditions-IsUsable [] h = tt
conditions-IsUsable (c ∷ cs) h =
    let field = passed (not (valid_field c.field)) _ _ h in
    let count = passed (not (eqb (operators c) 1)) _ _ field.1 in
    (
      record {
        allowed = true_of_not-false (valid_field c.field) field.0;
        one_operator = eq_of_eqb (operators c) 1 (true_of_not-false (eqb (operators c) 1) count.0);
      },
      conditions-IsUsable cs count.1,
    )

threshold_stateful :
    (t : Threshold) → validate_threshold (some t) ≡ none → (2 ≤ t.count) × (1 ≤ t.window)
unfolding validate_threshold
threshold_stateful t h =
    let count = passed (ltb t.count 2) _ _ h in
    let window = passed (leb t.window 0) _ _ count.1 in
    (ground (arith, count.0), ground (arith, window.0))

abbrev HasNames : Technique → Type 0
HasNames t = (t.id ≢ "") × (t.name ≢ "")

techniques_named : (ts : List Technique) → validate_techniques ts ≡ none → All HasNames ts
unfolding validate_techniques
techniques_named [] h = tt
techniques_named (t ∷ ts) h =
    let names = passed (t.id == "" || t.name == "") _ _ h in
    (
      (
        ne_of_text_eq-false t.id "" (ground (arith, names.0)),
        ne_of_text_eq-false t.name "" (ground (arith, names.0)),
      ),
      techniques_named ts names.1,
    )

constrained_match :
    (m : Match)
    → (eqb (length m.event_type) 0 && eqb (length m.conditions) 0) ≡ false
    → (m.event_type ≢ []) ⊎ (m.conditions ≢ [])
constrained_match m h = elim (Bool-cases (eqb (length m.event_type) 0)) [
  | inl e ↦ inr (nonempty_of_length m.conditions (rw e at h))
  | inr e ↦ inl (nonempty_of_length m.event_type e)
]

pub validate-IsSound : (fl : FloatOps) (r : Rule) → validate fl r ≡ none → IsSound r
unfolding validate validate_fields
validate-IsSound fl r h =
    let parts = or_else-none (validate_fields fl r) _ h in
    let rest = or_else-none (validate_conditions r.match_on.conditions) _ parts.1 in
    let last = or_else-none (validate_threshold r.threshold) _ rest.1 in
    let id = passed (r.id == "") _ _ parts.0 in
    let title = passed (r.title == "") _ _ id.1 in
    let severity = passed (not (valid_severity r.severity)) _ _ title.1 in
    let category = passed (r.category == "") _ _ severity.1 in
    let confidence =
      passed (fl.at_most r.confidence (fl.of_int 0) || fl.less (fl.of_int 1) r.confidence) _ _
        category.1 in
    let match =
      passed (eqb (length r.match_on.event_type) 0 && eqb (length r.match_on.conditions) 0) _ _
        confidence.1 in
    record {
      named = (
        ne_of_text_eq-false r.id "" id.0,
        ne_of_text_eq-false r.title "" title.0,
        ne_of_text_eq-false r.category "" category.0,
      );
      graded = true_of_not-false (valid_severity r.severity) severity.0;
      constrained = constrained_match r.match_on match.0;
      usable = conditions-IsUsable r.match_on.conditions rest.0;
      stateful = λ t e. threshold_stateful t (rw e at last.0);
      techniques_named = techniques_named r.techniques last.1;
    }
