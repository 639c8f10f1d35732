-- ===== src/Graph/Tests.antt =====
-- Tests of the graph.
use griefer_security_platfor.Prelude.{
  ◌≡◌, refl, true, false, some, [], ◌∷◌, ◌==◌, ne_of_text_eq-false,
}
use griefer_security_platfor.Prelude.Text.{ascii, to_lower, trim_space}
use griefer_security_platfor.Graph.{valid_type, Entity, entity_id, split_entity_id}
use griefer_security_platfor.Graph.Identifier.{split_entity_id-entity_id}
use griefer_security_platfor.Graph.Store.{Graph, entity, upsert_entity}
use griefer_security_platfor.Graph.Store.Merge.{Grows, upsert_entity_monotone}
use griefer_security_platfor.Graph.Store.Evidence.{EdgesValid}
use griefer_security_platfor.Graph.Store.{new_graph}
use griefer_security_platfor.Graph.Project.Steps.{project_all, project_all-EdgesValid}
use griefer_security_platfor.Prelude.{[], ◌∷◌}
use griefer_security_platfor.Prelude.{All}
use griefer_security_platfor.Graph.Project.{project, entity_ids_for_event}
use griefer_security_platfor.Graph.Project.Covers.{Present, project_covers}
use griefer_security_platfor.Prelude.{none, ◌↔◌, String}
use griefer_security_platfor.Graph.Inventory.{
  InventoryEntity, InventoryEdge, Inventory, apply_inventory, declared_id, unknown_destination,
}
use griefer_security_platfor.Graph.Inventory.Checked.{IsDeclarable, apply_inventory-checks}
use griefer_security_platfor.Samples.{sample_event, other_event, sample_entity}

identity_is_valid : valid_type "identity" ≡ true
unfolding valid_type
identity_is_valid = refl

trimmed_is_named : (trim_space " Alice:corp " == "") ≡ false
unfolding trim_space
trimmed_is_named = refl

split_entity_id-entity_id_example :
    split_entity_id (entity_id ascii "identity" " Alice:corp ")
    ≡ some ("identity", to_lower ascii (trim_space " Alice:corp "))
split_entity_id-entity_id_example =
    split_entity_id-entity_id ascii "identity" " Alice:corp " identity_is_valid
      (ne_of_text_eq-false _ _ trimmed_is_named)

abbrev with_secret : Graph
with_secret = record {
  entities = ("secret:db", sample_entity) ∷ [];
  heap = [];
  out = [];
  into = [];
}

holds_secret : entity "secret:db" with_secret ≡ some sample_entity
unfolding entity
holds_secret = refl

upsert_entity_monotone_example :
    (after : Entity) × (entity "secret:db"
        (upsert_entity ascii (record sample_entity { name = ""; criticality = "low" }) with_secret)
      ≡ some after)
    × Grows sample_entity.attributes sample_entity after
upsert_entity_monotone_example =
    upsert_entity_monotone ascii (record sample_entity { name = ""; criticality = "low" })
      with_secret "secret:db" sample_entity holds_secret

project_all-EdgesValid_example :
    EdgesValid (project_all ascii (sample_event ∷ other_event ∷ sample_event ∷ []) new_graph)
project_all-EdgesValid_example =
    project_all-EdgesValid ascii (sample_event ∷ other_event ∷ sample_event ∷ [])

project_covers_example :
    All
      (λ i. Present ascii i (project ascii sample_event new_graph))
      (entity_ids_for_event ascii sample_event)
project_covers_example = project_covers ascii sample_event new_graph

abbrev declared_database : InventoryEntity
declared_database = record {
  kind = "secret";
  key = "DB";
  name = "Database";
  criticality = "high";
  attributes = [];
}

abbrev declared_user : InventoryEntity
declared_user = record declared_database { kind = "identity"; key = "alice" }

abbrev reads : InventoryEdge
reads = record { from = "identity:alice"; to = "secret:db"; relation = "can_access" }

abbrev baseline : Inventory
baseline = record { entities = declared_database ∷ declared_user ∷ []; edges = reads ∷ [] }

baseline_accepted : (apply_inventory ascii 5 baseline new_graph).1 ≡ none
unfolding apply_inventory new_graph valid_type entity_id to_lower trim_space
baseline_accepted = refl

typo_refused :
    (apply_inventory ascii 5
      (record baseline { edges = record reads { to = "secret:bd" } ∷ [] })
      new_graph).1
    ≡ some (unknown_destination 0 "secret:bd")
unfolding apply_inventory new_graph valid_type entity_id to_lower trim_space
typo_refused = refl

apply_inventory-checks_example :
    (((apply_inventory ascii 5 baseline with_secret).1 ≡ none) ↔ IsDeclarable ascii baseline)
    × ((apply_inventory ascii 5 baseline with_secret).1 ≡ none
        → All
            (λ e.
              Present ascii (declared_id ascii e) (apply_inventory ascii 5 baseline with_secret).0)
            baseline.entities)
    × ((id : String)
        → Present ascii id with_secret
        → Present ascii id (apply_inventory ascii 5 baseline with_secret).0)
apply_inventory-checks_example = apply_inventory-checks ascii 5 baseline with_secret
