-- ===== src/Graph.antt =====
-- internal/graph/entity.go: entities, relations, edges and the canonical entity identifier.
pub mod Identifier
pub mod Store
pub mod Project
pub mod Inventory
pub mod Reach
mod Tests
use griefer_security_platfor.Prelude.{
  ℕ, zero, suc, ◌+◌, ◌-◌, ◌≤◌, ◌<◌, String, ◌≡◌, refl, sym, ap, ◌∙◌, ◌≢◌, ◌↔◌, ◌⊎◌, inl, inr, Bool,
  true, false, not, ◌&&◌, ◌||◌, Option, none, some, List, [], ◌∷◌, ◌++◌, map, arith, ◌==◌, eq_iff,
  eq_refl, ltb, leb, if◌then◌else◌, text_lt, Bool-cases, Option-cases, length, take, drop,
  length-append, length-take, length-drop, All, Any,
}
use Prim.Native.String.{◌++◌ as ◌++ₛ◌}
use griefer_security_platfor.Prelude.Dict.{contains, lookup}
use griefer_security_platfor.Prelude.Float.{Float64, FloatOps}
use griefer_security_platfor.Prelude.Text.{Unicode, to_lower, trim_space, split_colon}
use griefer_security_platfor.Events.{Time}

abbrev pub type_identity : String
type_identity = "identity"

abbrev pub type_account : String
type_account = "account"

abbrev pub type_session : String
type_session = "session"

abbrev pub type_endpoint : String
type_endpoint = "endpoint"

abbrev pub type_ip_address : String
type_ip_address = "ip_address"

abbrev pub type_application : String
type_application = "application"

abbrev pub type_secret : String
type_secret = "secret"

abbrev pub type_cloud_resource : String
type_cloud_resource = "cloud_resource"

abbrev pub type_repository : String
type_repository = "repository"

abbrev pub type_service : String
type_service = "service"

abbrev pub known_entity_types : List String
known_entity_types =
    type_identity ∷ type_account ∷ type_session ∷ type_endpoint ∷ type_ip_address ∷ type_application
    ∷ type_secret ∷ type_cloud_resource ∷ type_repository ∷ type_service ∷ []

-- EntityType.Valid
unfoldable pub valid_type : String → Bool
unfolding contains
valid_type t = contains known_entity_types t

abbrev pub criticality_low : String
criticality_low = "low"

abbrev pub criticality_medium : String
criticality_medium = "medium"

abbrev pub criticality_high : String
criticality_high = "high"

abbrev pub criticality_critical : String
criticality_critical = "critical"

abbrev pub criticality_weight : List (String × ℕ)
criticality_weight =
    (criticality_low, 1)
    ∷ (criticality_medium, 3)
    ∷ (criticality_high, 8)
    ∷ (criticality_critical, 20)
    ∷ []

-- Criticality.Weight
unfoldable pub weight : FloatOps → String → Float64
unfolding lookup
weight fl c = elim (lookup c criticality_weight) [ none ↦ fl.of_int 3 | some w ↦ fl.of_int w ]

-- Criticality.Rank
unfoldable pub rank : String → ℕ
rank c =
    if c == criticality_critical
    then 3
    else if c == criticality_high
    then 2
    else if c == criticality_low
    then 0
    else 1

pub record Entity : Type 0 where
  pub id : String
  pub kind : String
  pub key : String
  pub name : String
  pub criticality : String
  pub attributes : List (String × String)
  pub first_seen : Time
  pub last_seen : Time
  pub observed : Bool

abbrev pub rel_authenticated_from : String
rel_authenticated_from = "authenticated_from"

abbrev pub rel_opened_session : String
rel_opened_session = "opened_session"

abbrev pub rel_used_device : String
rel_used_device = "used_device"

abbrev pub rel_granted_role_on : String
rel_granted_role_on = "granted_role_on"

abbrev pub rel_accessed : String
rel_accessed = "accessed"

abbrev pub rel_attempted_access : String
rel_attempted_access = "attempted_access"

pub record Edge : Type 0 where
  pub from : String
  pub to : String
  pub relation : String
  pub first_seen : Time
  pub last_seen : Time
  pub event_ids : List String

-- EntityID
unfoldable pub entity_id : Unicode → String → String → String
entity_id u t key = t ++ₛ (":" ++ₛ to_lower u (trim_space key))

-- SplitEntityID: the first colon is neither the first nor the last character.
unfoldable pub split_entity_id : String → Option (String × String)
unfolding split_colon valid_type
split_entity_id id = elim (split_colon id) [
  | none ↦ none
  | some (t, key) ↦
      if t == "" || key == "" then none else if valid_type t then some (t, key) else none
]

-- DefaultMaxHops
abbrev pub default_max_hops : ℕ
default_max_hops = 3

pub record ReachableEntity : Type 0 where
  pub id : String
  pub kind : String
  pub name : String
  pub criticality : String
  pub hops : ℕ
  pub via : String
  pub from : String

pub record BlastRadius : Type 0 where
  pub score : ℕ
  pub max_hops : ℕ
  pub critical_assets : ℕ
  pub summary : String
  pub reachable : List ReachableEntity
