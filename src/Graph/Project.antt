-- ===== src/Graph/Project.antt =====
-- internal/graph/projector.go: what an event adds to the graph.
pub mod Steps
pub mod Covers
use griefer_security_platfor.Prelude.{
  String, Bool, true, false, ◌&&◌, ◌||◌, Option, none, some, List, [], ◌∷◌, ◌++◌, ◌==◌,
  if◌then◌else◌,
}
use griefer_security_platfor.Prelude.Dict.{lookup, contains}
use griefer_security_platfor.Prelude.Text.{Unicode}
use griefer_security_platfor.Events.{
  Time, SecurityEvent, Actor, Target, Device, Network, Cloud, category_privilege_escalation,
}
use griefer_security_platfor.Graph.{
  Entity, entity_id, valid_type, type_identity, type_account, type_service, type_application,
  type_ip_address, type_endpoint, type_session, type_cloud_resource, criticality_high,
  criticality_medium, criticality_low, rel_authenticated_from, rel_used_device, rel_opened_session,
  rel_granted_role_on, rel_accessed, rel_attempted_access,
}
use griefer_security_platfor.Graph.Store.{Graph, upsert_entity, upsert_edge}

-- outcomeDenied
is_denied_outcome : Option String → Bool
is_denied_outcome none = false
is_denied_outcome (some o) = o == "denied" || o == "failure" || o == "blocked"

outcome_denied : SecurityEvent → Bool
unfolding is_denied_outcome lookup
outcome_denied ev = is_denied_outcome (lookup "outcome" ev.labels)

-- relationForEvent; both cases of the source that are not an escalation do the same.
unfoldable pub relation_for_event : SecurityEvent → String
unfolding outcome_denied
relation_for_event ev =
    if ev.category == category_privilege_escalation
    then rel_granted_role_on
    else if outcome_denied ev
    then rel_attempted_access
    else rel_accessed

-- boolString
bool_string : Bool → String
bool_string true = "true"
bool_string false = "false"

-- `if v != "" { attrs[k] = v }`, ahead of the attributes that follow
attribute_if : String → String → List (String × String) → List (String × String)
attribute_if k v more = if v == "" then more else (k, v) ∷ more

attribute_flag : String → Option Bool → List (String × String) → List (String × String)
unfolding bool_string
attribute_flag k none more = more
attribute_flag k (some b) more = (k, bool_string b) ∷ more

-- actorAttributes, deviceAttributes, cloudAttributes
actor_attributes : Actor → List (String × String)
unfolding attribute_if bool_string
actor_attributes a = ("privileged", bool_string a.privileged) ∷ attribute_if "domain" a.domain []

device_attributes : Device → List (String × String)
unfolding attribute_if attribute_flag
device_attributes d =
    attribute_if "os" d.os
      (attribute_flag "managed" d.managed (attribute_flag "compliant" d.compliant []))

cloud_attributes : Cloud → List (String × String)
unfolding attribute_if
cloud_attributes c = attribute_if "provider" c.provider (
    attribute_if "region" c.region
      (attribute_if "resource_type" c.resource_type (attribute_if "account_id" c.account_id [])))

-- The type of an actor's entity.
unfoldable pub actor_type : Actor → String
actor_type a =
    if a.kind == "account"
    then type_account
    else if a.kind == "service"
    then type_service
    else if a.kind == "application"
    then type_application
    else type_identity

-- `d.ID`, or `d.Hostname` where that is empty
abbrev device_key : Device → String
device_key d = if d.id == "" then d.hostname else d.id

-- The type of a target's entity.
unfoldable pub target_type : Target → String
unfolding valid_type
target_type t = if valid_type t.kind then t.kind else type_service

module _ (u : Unicode) where
  -- The actor's identifier, the empty text where the event names no actor.
  unfoldable pub actor_id : Option Actor → String
  unfolding entity_id actor_type
  actor_id none = ""
  actor_id (some a) = if a.id == "" then "" else entity_id u (actor_type a) a.id

  -- An observed entity and the edge to it from the actor.
  unfoldable pub observed_entity :
      Time → String → String → String → String → List (String × String) → Entity
  unfolding entity_id
  observed_entity at kind key name criticality attributes = record {
    id = entity_id u kind key;
    kind = kind;
    key = key;
    name = name;
    criticality = criticality;
    attributes = attributes;
    first_seen = at;
    last_seen = at;
    observed = true;
  }

  unfoldable pub link : SecurityEvent → String → Entity → Graph → Graph
  unfolding upsert_entity upsert_edge actor_id
  link ev relation e g =
      upsert_edge (actor_id ev.actor) e.id relation ev.timestamp ev.id (upsert_entity u e g)

  unfoldable pub project_actor : Time → Option Actor → Graph → Graph
  unfolding upsert_entity observed_entity actor_attributes actor_type
  project_actor at none g = g
  project_actor at (some a) g =
      if a.id == ""
      then g
      else upsert_entity u
          (observed_entity at (actor_type a) a.id a.name
            (if a.privileged then criticality_high else criticality_medium) (actor_attributes a))
          g

  unfoldable pub project_network : SecurityEvent → Option Network → Graph → Graph
  unfolding link observed_entity attribute_if
  project_network ev none g = g
  project_network ev (some n) g =
      if n.source_ip == ""
      then g
      else link ev rel_authenticated_from
          (observed_entity ev.timestamp type_ip_address n.source_ip n.source_ip criticality_low
            (attribute_if "country" n.country (attribute_if "asn" n.asn [])))
          g

  unfoldable pub project_device : SecurityEvent → Option Device → Graph → Graph
  unfolding link observed_entity device_attributes
  project_device ev none g = g
  project_device ev (some d) g =
      if d.id == "" && d.hostname == ""
      then g
      else link ev rel_used_device
          (observed_entity ev.timestamp type_endpoint (device_key d) d.hostname criticality_medium
            (device_attributes d))
          g

  unfoldable pub project_session : SecurityEvent → Option Actor → Graph → Graph
  unfolding link observed_entity bool_string
  project_session ev none g = g
  project_session ev (some a) g =
      if a.session_id == ""
      then g
      else link ev rel_opened_session
          (observed_entity ev.timestamp type_session a.session_id a.session_id criticality_medium
            (("privileged", bool_string a.privileged) ∷ []))
          g

  unfoldable pub project_target : SecurityEvent → Option Target → Graph → Graph
  unfolding link observed_entity target_type relation_for_event
  project_target ev none g = g
  project_target ev (some t) g =
      if t.id == ""
      then g
      else link ev (relation_for_event ev)
          (observed_entity ev.timestamp (target_type t) t.id t.name t.criticality []) g

  unfoldable pub project_cloud : SecurityEvent → Option Cloud → Graph → Graph
  unfolding link observed_entity cloud_attributes relation_for_event
  project_cloud ev none g = g
  project_cloud ev (some c) g =
      if c.resource_id == ""
      then g
      else link ev (relation_for_event ev)
          (observed_entity ev.timestamp type_cloud_resource c.resource_id c.resource_id ""
            (cloud_attributes c))
          g

  -- Project
  unfoldable pub project : SecurityEvent → Graph → Graph
  unfolding project_actor project_network project_device project_session project_target
      project_cloud
  project ev g = project_cloud ev ev.cloud (
      project_target ev ev.target (
        project_session ev ev.actor (
          project_device ev ev.device
            (project_network ev ev.network (project_actor ev.timestamp ev.actor g)))))

  -- `add`: an identifier that is not empty is listed once.
  unfoldable pub add_id : String → List String → List String
  unfolding contains
  add_id id ids = if id == "" then ids else if contains ids id then ids else ids ++ id ∷ []

  unfoldable pub add_actor : Option Actor → List String → List String
  unfolding add_id entity_id actor_type
  add_actor none ids = ids
  add_actor (some a) ids =
      if a.id == ""
      then ids
      else let with_actor = add_id (entity_id u (actor_type a) a.id) ids in
        if a.session_id == ""
        then with_actor
        else add_id (entity_id u type_session a.session_id) with_actor

  unfoldable pub add_network : Option Network → List String → List String
  unfolding add_id entity_id
  add_network none ids = ids
  add_network (some n) ids =
      if n.source_ip == "" then ids else add_id (entity_id u type_ip_address n.source_ip) ids

  unfoldable pub add_device : Option Device → List String → List String
  unfolding add_id entity_id
  add_device none ids = ids
  add_device (some d) ids =
      if device_key d == "" then ids else add_id (entity_id u type_endpoint (device_key d)) ids

  unfoldable pub add_target : Option Target → List String → List String
  unfolding add_id entity_id target_type
  add_target none ids = ids
  add_target (some t) ids =
      if t.id == "" then ids else add_id (entity_id u (target_type t) t.id) ids

  unfoldable pub add_cloud : Option Cloud → List String → List String
  unfolding add_id entity_id
  add_cloud none ids = ids
  add_cloud (some c) ids =
      if c.resource_id == ""
      then ids
      else add_id (entity_id u type_cloud_resource c.resource_id) ids

  -- EntityIDsForEvent, of an event that is not nil
  unfoldable pub entity_ids_for_event : SecurityEvent → List String
  unfolding add_actor add_network add_device add_target add_cloud
  entity_ids_for_event ev =
      add_cloud ev.cloud (
        add_target ev.target
          (add_device ev.device (add_network ev.network (add_actor ev.actor []))))
