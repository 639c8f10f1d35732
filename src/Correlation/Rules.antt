-- ===== src/Correlation/Rules.antt =====
-- internal/correlation/rules.go: rules, and how they match an event.
-- strings.EqualFold is a parameter, since it reads Unicode's case folding.
pub mod Validate
pub mod Load
mod Tests
use griefer_security_platfor.Prelude.{
  ℕ, zero, suc, ◌+◌, ◌-◌, ◌≤◌, ◌<◌, String, ◌≡◌, refl, sym, ap, ◌∙◌, ◌≢◌, ◌↔◌, ◌⊎◌, inl, inr, Bool,
  true, false, not, ◌&&◌, ◌||◌, Option, none, some, List, [], ◌∷◌, ◌++◌, map, arith, ◌==◌, eq_iff,
  eq_refl, ltb, leb, if◌then◌else◌, text_lt, Bool-cases, Option-cases, length, take, drop,
  length-append, length-take, length-drop, take-append-drop, leb→le, ltb→lt, All, Any,
  text_eq-false_of_ne, ne_of_text_eq-false,
}
use griefer_security_platfor.Prelude.{eqb}
use griefer_security_platfor.Prelude.Dict.{lookup}
use griefer_security_platfor.Prelude.Float.{Float64, FloatOps}
use griefer_security_platfor.Prelude.Result.{Result, ok, err}
use griefer_security_platfor.Prelude.Text.{cut_prefix}
use griefer_security_platfor.Events.{
  SecurityEvent, Actor, Target, Device, Network, Cloud, valid_severity,
}
use griefer_security_platfor.Incidents.{Technique}

pub record Condition : Type 0 where
  pub field : String
  pub equals : String
  pub not_equals : String
  pub one_of : List String
  pub exists : Option Bool

pub record Match : Type 0 where
  pub event_type : List String
  pub conditions : List Condition

-- A negative count or window, which validate refuses as it refuses 0, is held as 0.
pub record Threshold : Type 0 where
  pub count : ℕ
  pub window : ℕ

pub record Rule : Type 0 where
  pub id : String
  pub title : String
  pub description : String
  pub category : String
  pub severity : String
  pub confidence : Float64
  pub techniques : List Technique
  pub match_on : Match
  pub threshold : Option Threshold

-- boolStr
bool_str : Bool → String
bool_str true = "true"
bool_str false = "false"

-- `s, s != ""`
abbrev if_set : String → Option String
if_set s = if s == "" then none else some s

flag_field : Option Bool → Option String
unfolding bool_str
flag_field none = none
flag_field (some b) = some (bool_str b)

-- actorField, targetField, deviceField
actor_field : Option Actor → String → Option String
unfolding bool_str
actor_field none f = none
actor_field (some a) f =
    if f == "type"
    then if_set a.kind
    else if f == "domain"
    then if_set a.domain
    else if f == "privileged"
    then some (bool_str a.privileged)
    else none

target_field : Option Target → String → Option String
target_field none f = none
target_field (some t) f =
    if f == "type" then if_set t.kind else if f == "criticality" then if_set t.criticality else none

device_field : Option Device → String → Option String
unfolding flag_field
device_field none f = none
device_field (some d) f =
    if f == "os"
    then if_set d.os
    else if f == "managed"
    then flag_field d.managed
    else if f == "compliant"
    then flag_field d.compliant
    else none

first_seen_field : Option Network → Option String
unfolding bool_str
first_seen_field none = none
first_seen_field (some n) = some (bool_str n.first_seen_for_actor)

country_field : Option Network → Option String
country_field none = none
country_field (some n) = if_set n.country

provider_field : Option Cloud → Option String
provider_field none = none
provider_field (some c) = if_set c.provider

resource_type_field : Option Cloud → Option String
resource_type_field none = none
resource_type_field (some c) = if_set c.resource_type

-- allowedFields. A field that is not present is `none`.
unfoldable pub allowed_fields : List (String × (SecurityEvent → Option String))
unfolding actor_field target_field device_field first_seen_field country_field provider_field
    resource_type_field
allowed_fields =
    ("event_type", λ e. if_set e.event_type)
    ∷ ("category", λ e. if_set e.category)
    ∷ ("severity", λ e. if_set e.severity)
    ∷ ("source_type", λ e. if_set e.source_type)
    ∷ ("source_name", λ e. if_set e.source_name)
    ∷ ("actor.type", λ e. actor_field e.actor "type")
    ∷ ("actor.domain", λ e. actor_field e.actor "domain")
    ∷ ("actor.privileged", λ e. actor_field e.actor "privileged")
    ∷ ("target.type", λ e. target_field e.target "type")
    ∷ ("target.criticality", λ e. target_field e.target "criticality")
    ∷ ("device.os", λ e. device_field e.device "os")
    ∷ ("device.managed", λ e. device_field e.device "managed")
    ∷ ("device.compliant", λ e. device_field e.device "compliant")
    ∷ ("network.first_seen_for_actor", λ e. first_seen_field e.network)
    ∷ ("network.country", λ e. country_field e.network)
    ∷ ("cloud.provider", λ e. provider_field e.cloud)
    ∷ ("cloud.resource_type", λ e. resource_type_field e.cloud)
    ∷ []

label_field : Option String → SecurityEvent → Option String
unfolding lookup
label_field none ev = none
label_field (some key) ev = lookup key ev.labels

read_field : Option (SecurityEvent → Option String) → String → SecurityEvent → Option String
unfolding label_field cut_prefix
read_field (some read) field ev = read ev
read_field none field ev = label_field (cut_prefix field "labels.") ev

-- resolveField
unfoldable pub resolve_field : SecurityEvent → String → Option String
unfolding read_field lookup allowed_fields
resolve_field ev field = read_field (lookup field allowed_fields) field ev

-- strings.ContainsAny(key, " \t")
has_blank : String → Bool
has_blank String.[] = false
has_blank (String.◌∷◌ c s) =
    let rest = has_blank s in
    if String.◌∷◌ c String.[] == " " || String.◌∷◌ c String.[] == "\t" then true else rest

valid_label : Option String → Bool
unfolding has_blank
valid_label none = false
valid_label (some key) = not (key == "") && not (has_blank key)

is_allowed : Option (SecurityEvent → Option String) → String → Bool
unfolding valid_label cut_prefix
is_allowed (some read) field = true
is_allowed none field = valid_label (cut_prefix field "labels.")

-- validField
unfoldable pub valid_field : String → Bool
unfolding is_allowed lookup allowed_fields
valid_field field = is_allowed (lookup field allowed_fields) field

module _ (equal_fold : String → String → Bool) where
  -- containsFold
  unfoldable pub contains_fold : List String → String → Bool
  contains_fold [] want = false
  contains_fold (v ∷ vs) want = if equal_fold v want then true else contains_fold vs want

  eval_exists : Bool → Option String → Bool
  eval_exists true none = false
  eval_exists true (some v) = true
  eval_exists false none = true
  eval_exists false (some v) = false

  eval_equals : String → Option String → Bool
  eval_equals want none = false
  eval_equals want (some v) = equal_fold v want

  eval_one_of : List String → Option String → Bool
  unfolding contains_fold
  eval_one_of want none = false
  eval_one_of want (some v) = contains_fold want v

  -- Condition.eval, from the value of its field; `false` where there is no operator
  eval_value : Condition → Option Bool → Option String → Bool
  unfolding eval_exists eval_equals eval_one_of
  eval_value c (some wanted) value = eval_exists wanted value
  eval_value c none value =
      if not (c.equals == "")
      then eval_equals c.equals value
      else if not (c.not_equals == "")
      then not (eval_equals c.not_equals value)
      else eval_one_of c.one_of value

  -- Condition.eval
  unfoldable pub eval : Condition → SecurityEvent → Bool
  unfolding eval_value resolve_field
  eval c ev = eval_value c c.exists (resolve_field ev c.field)

  all_hold : List Condition → SecurityEvent → Bool
  unfolding eval
  all_hold [] ev = true
  all_hold (c ∷ cs) ev = if not (eval c ev) then false else all_hold cs ev

  -- `len(types) > 0 && !containsFold(types, t)`
  excludes : List String → String → Bool
  unfolding contains_fold
  excludes [] t = false
  excludes (x ∷ xs) t = not (contains_fold (x ∷ xs) t)

  -- Rule.Matches
  unfoldable pub matches : Rule → SecurityEvent → Bool
  unfolding excludes all_hold
  matches r ev =
      if excludes r.match_on.event_type ev.event_type
      then false
      else all_hold r.match_on.conditions ev
