-- ===== src/Graph/Project/Covers.antt =====
-- After a projection the graph has every entity that the event refers to.
use griefer_security_platfor.Prelude.{
  ℕ, String, ◌≡◌, refl, ap, ◌∙◌, inl, inr, false, ◌&&◌, ◌||◌, Option, none, some, List, [], ◌∷◌,
  arith, ◌==◌, eq_refl, if◌then◌else◌, Bool-cases, All,
}
use griefer_security_platfor.Prelude.Dict.{contains, lookup, lookup-insert}
use griefer_security_platfor.Prelude.Text.{Unicode}
use griefer_security_platfor.Events.{Time, SecurityEvent, Actor, Target, Device, Network, Cloud}
use griefer_security_platfor.Graph.{
  Entity, entity_id, type_ip_address, type_endpoint, type_session, type_cloud_resource,
  criticality_high, criticality_medium, criticality_low, rel_authenticated_from, rel_used_device,
  rel_opened_session,
}
use griefer_security_platfor.Graph.Store.{
  Graph, merged, entity, upsert_entity, upsert_edge, upsert_found, add_edge, with_defaults,
  find_edge, bucket_of,
}
use griefer_security_platfor.Prelude.{All-snoc}
use griefer_security_platfor.Graph.Store.Merge.{upsert_entity_monotone}
use griefer_security_platfor.Graph.Project.{
  project, observed_entity, actor_type, target_type, actor_attributes, device_attributes,
  cloud_attributes, attribute_if, bool_string, relation_for_event, link, actor_id, device_key,
  project_actor, project_network, project_device, project_session, project_target, project_cloud,
  add_id, add_actor, add_network, add_device, add_target, add_cloud, entity_ids_for_event,
}
use griefer_security_platfor.Graph.Project.Steps.{
  network_keeps, device_keeps, session_keeps, target_keeps, cloud_keeps,
}

module _ (u : Unicode) where
  abbrev pub Present : String → Graph → Type 0
  Present id g = (e : Entity) × (entity id g ≡ some e)

  pub entity_kept :
      (id : String) (e : Entity) (g : Graph) → Present id g → Present id (upsert_entity u e g)
  entity_kept id e g (b, h) = let m = upsert_entity_monotone u e g id b h in (m.0, m.1)

  found-entities :
      (from to rel : String) (at : Time) (ev : String) (g : Graph) (o : Option ℕ)
      → (upsert_found from to rel at ev g o).entities ≡ g.entities
  unfolding upsert_found add_edge
  found-entities from to rel at ev g none = refl
  found-entities from to rel at ev g (some ref) = refl

  edge-entities :
      (from to rel : String) (at : Time) (ev : String) (g : Graph)
      → (upsert_edge from to rel at ev g).entities ≡ g.entities
  edge-entities from to rel at ev g = elim (Bool-cases (from == "" || to == "" || from == to)) [
    | inl h ↦ unfold upsert_edge in rw h
    | inr h ↦
        unfold upsert_edge in
        rw h (
          found-entities from to rel at ev g
            (find_edge (record { peer = to; relation = rel }) (bucket_of from g.out)))
  ]

  pub edge_kept :
      (id : String) (from to rel : String) (at : Time) (ev : String) (g : Graph)
      → Present id g
      → Present id (upsert_edge from to rel at ev g)
  edge_kept id from to rel at ev g (e, h) = (
    e,
    unfold entity in (ap (lookup id) (edge-entities from to rel at ev g) ∙ (unfold entity in h)),
  )

  upserted :
      (at : Time) (kind key name criticality : String) (attributes : List (String × String))
      (g : Graph)
      → Present
          (entity_id u kind key)
          (upsert_entity u (observed_entity u at kind key name criticality attributes) g)
  upserted at kind key name criticality attributes g =
      let e = observed_entity u at kind key name criticality attributes in
      let id = entity_id u kind key in
      let d = with_defaults u e in
      let same : d.id ≡ id = elim (Bool-cases (id == "")) [
        | inl q ↦ unfold with_defaults observed_entity in rw q
        | inr q ↦ unfold with_defaults observed_entity in rw q
      ] in
      let read = lookup-insert d.id d.id (merged d (lookup d.id g.entities)) g.entities in
      (
        merged d (lookup d.id g.entities),
        rw⁻¹ same (unfold entity upsert_entity in (read ∙ rw (eq_refl d.id))),
      )

  linked :
      (ev : SecurityEvent) (relation kind key name criticality : String)
      (attributes : List (String × String)) (g : Graph)
      → Present (entity_id u kind key) (
          link u ev relation
            (observed_entity u ev.timestamp kind key name criticality attributes)
            g)
  linked ev relation kind key name criticality attributes g =
      unfold link in
      edge_kept (entity_id u kind key) (actor_id u ev.actor) _ relation ev.timestamp ev.id _
        (upserted ev.timestamp kind key name criticality attributes g)

  -- What `add` lists is present if the identifier is and the others are.
  add_id-Present :
      (g : Graph) (id : String) (ids : List String)
      → All (λ i. Present i g) ids
      → Present id g
      → All (λ i. Present i g) (add_id u id ids)
  add_id-Present g id ids h p = elim (Bool-cases (id == "")) [
    | inl q ↦ unfold add_id in rw q h
    | inr q ↦ elim (Bool-cases (contains ids id)) [
      | inl old ↦ unfold add_id in rw (q, old) h
      | inr new ↦ unfold add_id in rw (q, new) (All-snoc (λ i. Present i g) ids id h p)
    ]
  ]

  abbrev AllPresent : List String → Graph → Type 0
  AllPresent ids g = All (λ i. Present i g) ids

  -- `later` keeps what a part of the projection has put into the graph.
  abbrev Later : Graph → Graph → Type 0
  Later g k = (id : String) → Present id g → Present id k

  network_listed :
      (ev : SecurityEvent) (n : Option Network) (g k : Graph) (ids : List String)
      → Later (project_network u ev n g) k
      → AllPresent ids k
      → AllPresent (add_network u n ids) k
  network_listed ev none g k ids later h = unfold add_network in h
  network_listed ev (some n) g k ids later h = elim (Bool-cases (n.source_ip == "")) [
    | inl q ↦ unfold add_network in rw q h
    | inr q ↦
        let id = entity_id u type_ip_address n.source_ip in
        let here : Present id (project_network u ev (some n) g) =
          unfold project_network in
          rw q (
            linked ev rel_authenticated_from type_ip_address n.source_ip n.source_ip criticality_low
              (attribute_if "country" n.country (attribute_if "asn" n.asn [])) g) in
        unfold add_network in rw q (add_id-Present k id ids h (later id here))
  ]

  device_listed :
      (ev : SecurityEvent) (d : Option Device) (g k : Graph) (ids : List String)
      → Later (project_device u ev d g) k
      → AllPresent ids k
      → AllPresent (add_device u d ids) k
  device_listed ev none g k ids later h = unfold add_device in h
  device_listed ev (some d) g k ids later h = elim (Bool-cases (device_key d == "")) [
    | inl q ↦ unfold add_device in rw q h
    | inr q ↦
        let id = entity_id u type_endpoint (device_key d) in
        let named : (d.id == "" && d.hostname == "") ≡ false = ground arith in
        let here : Present id (project_device u ev (some d) g) =
          unfold project_device in
          rw named (
            linked ev rel_used_device type_endpoint (device_key d) d.hostname criticality_medium
              (device_attributes d) g) in
        unfold add_device in rw q (add_id-Present k id ids h (later id here))
  ]

  target_listed :
      (ev : SecurityEvent) (t : Option Target) (g k : Graph) (ids : List String)
      → Later (project_target u ev t g) k
      → AllPresent ids k
      → AllPresent (add_target u t ids) k
  target_listed ev none g k ids later h = unfold add_target in h
  target_listed ev (some t) g k ids later h = elim (Bool-cases (t.id == "")) [
    | inl q ↦ unfold add_target in rw q h
    | inr q ↦
        let id = entity_id u (target_type t) t.id in
        let here : Present id (project_target u ev (some t) g) =
          unfold project_target in
          rw q (linked ev (relation_for_event ev) (target_type t) t.id t.name t.criticality [] g) in
        unfold add_target in rw q (add_id-Present k id ids h (later id here))
  ]

  cloud_listed :
      (ev : SecurityEvent) (c : Option Cloud) (g k : Graph) (ids : List String)
      → Later (project_cloud u ev c g) k
      → AllPresent ids k
      → AllPresent (add_cloud u c ids) k
  cloud_listed ev none g k ids later h = unfold add_cloud in h
  cloud_listed ev (some c) g k ids later h = elim (Bool-cases (c.resource_id == "")) [
    | inl q ↦ unfold add_cloud in rw q h
    | inr q ↦
        let id = entity_id u type_cloud_resource c.resource_id in
        let here : Present id (project_cloud u ev (some c) g) =
          unfold project_cloud in
          rw q (
            linked ev (relation_for_event ev) type_cloud_resource c.resource_id c.resource_id ""
              (cloud_attributes c) g) in
        unfold add_cloud in rw q (add_id-Present k id ids h (later id here))
  ]

  actor_listed :
      (ev : SecurityEvent) (at : Time) (a : Option Actor) (g g' k : Graph)
      → Later (project_actor u at a g) k
      → Later (project_session u ev a g') k
      → AllPresent (add_actor u a []) k
  actor_listed ev at none g g' k later later' = unfold add_actor in tt
  actor_listed ev at (some a) g g' k later later' = elim (Bool-cases (a.id == "")) [
    | inl q ↦ unfold add_actor in rw q tt
    | inr q ↦
        let id = entity_id u (actor_type a) a.id in
        let here : Present id (project_actor u at (some a) g) =
          unfold project_actor in
          rw q (
            upserted at (actor_type a) a.id a.name
              (if a.privileged then criticality_high else criticality_medium) (actor_attributes a)
              g) in
        let first = add_id-Present k id [] tt (later id here) in
        elim (Bool-cases (a.session_id == "")) [
          | inl s ↦ unfold add_actor in rw (q, s) first
          | inr s ↦
              let sid = entity_id u type_session a.session_id in
              let there : Present sid (project_session u ev (some a) g') =
                unfold project_session in
                rw s (
                  linked ev rel_opened_session type_session a.session_id a.session_id
                    criticality_medium (("privileged", bool_string a.privileged) ∷ []) g') in
              unfold add_actor in
              rw (q, s) (add_id-Present k sid (add_id u id []) first (later' sid there))
        ]
  ]

  -- Whatever the graph before: once an event is projected, each of the identifiers that
  -- EntityIDsForEvent lists for the event is that of an entity of the graph.
  pub project_covers :
      (ev : SecurityEvent) (g : Graph) → AllPresent (entity_ids_for_event u ev) (project u ev g)
  project_covers ev g =
      let g1 = project_actor u ev.timestamp ev.actor g in
      let g2 = project_network u ev ev.network g1 in
      let g3 = project_device u ev ev.device g2 in
      let g4 = project_session u ev ev.actor g3 in
      let g5 = project_target u ev ev.target g4 in
      let g6 = project_cloud u ev ev.cloud g5 in
      let from5 : Later g5 g6 =
        λ id. cloud_keeps u (Present id) (entity_kept id) (edge_kept id) ev ev.cloud g5 in
      let from4 : Later g4 g6 = λ id p.
        from5 id (target_keeps u (Present id) (entity_kept id) (edge_kept id) ev ev.target g4 p) in
      let from3 : Later g3 g6 = λ id p.
        from4 id (session_keeps u (Present id) (entity_kept id) (edge_kept id) ev ev.actor g3 p) in
      let from2 : Later g2 g6 = λ id p.
        from3 id (device_keeps u (Present id) (entity_kept id) (edge_kept id) ev ev.device g2 p) in
      let from1 : Later g1 g6 = λ id p.
        from2 id
          (network_keeps u (Present id) (entity_kept id) (edge_kept id) ev ev.network g1 p) in
      let whole : Later g6 g6 = λ id p. p in
      unfold project entity_ids_for_event in
      cloud_listed ev ev.cloud g5 g6 _ whole (
        target_listed ev ev.target g4 g6 _ from5 (
          device_listed ev ev.device g2 g6 _ from3 (
            network_listed ev ev.network g1 g6 _ from2
              (actor_listed ev ev.timestamp ev.actor g g3 g6 from1 from4))))
