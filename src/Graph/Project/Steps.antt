-- ===== src/Graph/Project/Steps.antt =====
-- A projection as the upserts that it makes.
use griefer_security_platfor.Prelude.{
  String, inl, inr, ◌&&◌, Option, none, some, List, [], ◌∷◌, ◌==◌, if◌then◌else◌, Bool-cases,
}
use griefer_security_platfor.Prelude.Text.{Unicode}
use griefer_security_platfor.Events.{Time, SecurityEvent, Actor, Target, Device, Network, Cloud}
use griefer_security_platfor.Graph.{
  Entity, type_ip_address, type_endpoint, type_session, type_cloud_resource, criticality_high,
  criticality_medium, criticality_low, rel_authenticated_from, rel_used_device, rel_opened_session,
}
use griefer_security_platfor.Graph.Store.{Graph, new_graph, upsert_entity, upsert_edge}
use griefer_security_platfor.Graph.Store.Evidence.{
  EdgesValid, upsert_edge-EdgesValid, upsert_entity-EdgesValid,
}
use griefer_security_platfor.Graph.Project.{
  project, observed_entity, actor_type, target_type, actor_attributes, device_attributes,
  cloud_attributes, attribute_if, bool_string, relation_for_event, link, actor_id, device_key,
  project_actor, project_network, project_device, project_session, project_target, project_cloud,
}

module _ (u : Unicode) (P : Graph → Type 0)
    (entity_kept : (e : Entity) (g : Graph) → P g → P (upsert_entity u e g))
    (edge_kept : (from to rel : String) (at : Time) (id : String) (g : Graph)
      → P g
      → P (upsert_edge from to rel at id g)) where
  pub link_keeps :
      (ev : SecurityEvent) (relation : String) (e : Entity) (g : Graph)
      → P g
      → P (link u ev relation e g)
  link_keeps ev relation e g h =
      unfold link in
      edge_kept (actor_id u ev.actor) e.id relation ev.timestamp ev.id (upsert_entity u e g)
        (entity_kept e g h)

  actor_keeps : (at : Time) (a : Option Actor) (g : Graph) → P g → P (project_actor u at a g)
  unfolding project_actor
  actor_keeps at none g h = h
  actor_keeps at (some a) g h = elim (Bool-cases (a.id == "")) [
    | inl q ↦ rw q h
    | inr q ↦ rw q (
        entity_kept
          (observed_entity u at (actor_type a) a.id a.name
            (if a.privileged then criticality_high else criticality_medium) (actor_attributes a))
          g h)
  ]

  pub network_keeps :
      (ev : SecurityEvent) (n : Option Network) (g : Graph) → P g → P (project_network u ev n g)
  unfolding project_network
  network_keeps ev none g h = h
  network_keeps ev (some n) g h = elim (Bool-cases (n.source_ip == "")) [
    | inl q ↦ rw q h
    | inr q ↦ rw q (
        link_keeps ev rel_authenticated_from
          (observed_entity u ev.timestamp type_ip_address n.source_ip n.source_ip criticality_low
            (attribute_if "country" n.country (attribute_if "asn" n.asn [])))
          g h)
  ]

  pub device_keeps :
      (ev : SecurityEvent) (d : Option Device) (g : Graph) → P g → P (project_device u ev d g)
  unfolding project_device
  device_keeps ev none g h = h
  device_keeps ev (some d) g h = elim (Bool-cases (d.id == "" && d.hostname == "")) [
    | inl q ↦ rw q h
    | inr q ↦ rw q (
        link_keeps ev rel_used_device
          (observed_entity u ev.timestamp type_endpoint (device_key d) d.hostname criticality_medium
            (device_attributes d))
          g h)
  ]

  pub session_keeps :
      (ev : SecurityEvent) (a : Option Actor) (g : Graph) → P g → P (project_session u ev a g)
  unfolding project_session
  session_keeps ev none g h = h
  session_keeps ev (some a) g h = elim (Bool-cases (a.session_id == "")) [
    | inl q ↦ rw q h
    | inr q ↦ rw q (
        link_keeps ev rel_opened_session
          (observed_entity u ev.timestamp type_session a.session_id a.session_id criticality_medium
            (("privileged", bool_string a.privileged) ∷ []))
          g h)
  ]

  pub target_keeps :
      (ev : SecurityEvent) (t : Option Target) (g : Graph) → P g → P (project_target u ev t g)
  unfolding project_target
  target_keeps ev none g h = h
  target_keeps ev (some t) g h = elim (Bool-cases (t.id == "")) [
    | inl q ↦ rw q h
    | inr q ↦ rw q (
        link_keeps ev (relation_for_event ev)
          (observed_entity u ev.timestamp (target_type t) t.id t.name t.criticality []) g h)
  ]

  pub cloud_keeps :
      (ev : SecurityEvent) (c : Option Cloud) (g : Graph) → P g → P (project_cloud u ev c g)
  unfolding project_cloud
  cloud_keeps ev none g h = h
  cloud_keeps ev (some c) g h = elim (Bool-cases (c.resource_id == "")) [
    | inl q ↦ rw q h
    | inr q ↦ rw q (
        link_keeps ev (relation_for_event ev)
          (observed_entity u ev.timestamp type_cloud_resource c.resource_id c.resource_id ""
            (cloud_attributes c))
          g h)
  ]

  -- What every upsert keeps, a projection keeps.
  pub project_induction : (ev : SecurityEvent) (g : Graph) → P g → P (project u ev g)
  project_induction ev g h =
      unfold project in
      cloud_keeps ev ev.cloud _ (
        target_keeps ev ev.target _ (
          session_keeps ev ev.actor _ (
            device_keeps ev ev.device _
              (network_keeps ev ev.network _ (actor_keeps ev.timestamp ev.actor g h)))))

-- The graph after a sequence of events.
unfoldable pub project_all : Unicode → List SecurityEvent → Graph → Graph
unfolding project
project_all u [] g = g
project_all u (ev ∷ evs) g = project_all u evs (project u ev g)

projected-EdgesValid :
    (u : Unicode) (evs : List SecurityEvent) (g : Graph)
    → EdgesValid g
    → EdgesValid (project_all u evs g)
unfolding project_all
projected-EdgesValid u [] g v = v
projected-EdgesValid u (ev ∷ evs) g v =
    projected-EdgesValid u evs (project u ev g)
      (project_induction u EdgesValid (upsert_entity-EdgesValid u) upsert_edge-EdgesValid ev g v)

-- Whatever events are projected into a new graph, in whatever number: every edge joins two named,
-- different entities, and has at most 50 events as its evidence, none of them twice.
pub project_all-EdgesValid :
    (u : Unicode) (evs : List SecurityEvent) → EdgesValid (project_all u evs new_graph)
project_all-EdgesValid u evs = projected-EdgesValid u evs new_graph (unfold new_graph in tt)
