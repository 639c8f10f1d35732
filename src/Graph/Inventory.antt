-- ===== src/Graph/Inventory.antt =====
-- internal/graph/inventory.go: the declared baseline of the environment. Decoding the document is
-- left to the caller.
pub mod Checked
use griefer_security_platfor.Prelude.{
  ℕ, suc, String, Bool, not, Option, none, some, List, [], ◌∷◌, ◌++◌, ◌==◌, if◌then◌else◌, false,
}
use griefer_security_platfor.Prelude.Dict.{contains}
use griefer_security_platfor.Prelude.Text.{Unicode}
use griefer_security_platfor.Events.{Time}
use griefer_security_platfor.Graph.{Entity, entity_id, valid_type}
use griefer_security_platfor.Graph.Store.{Graph, upsert_entity, upsert_edge}

pub record InventoryEntity : Type 0 where
  pub kind : String
  pub key : String
  pub name : String
  pub criticality : String
  pub attributes : List (String × String)

pub record InventoryEdge : Type 0 where
  pub from : String
  pub to : String
  pub relation : String

pub record Inventory : Type 0 where
  pub entities : List InventoryEntity
  pub edges : List InventoryEdge

-- The errors of ApplyInventory, each with the position of the entry that it is about.
pub data InventoryError : Type 0 where
  unsupported_type : ℕ → String → InventoryError
  key_required : ℕ → InventoryError
  unknown_source : ℕ → String → InventoryError
  unknown_destination : ℕ → String → InventoryError
  relation_required : ℕ → InventoryError

-- The graph and the declared ids when the loop over the entities ends, with the error that ended it.
pub record Declared : Type 0 where
  pub graph : Graph
  pub ids : List String
  pub error : Option InventoryError

unfoldable pub entity_error : ℕ → InventoryEntity → Option InventoryError
entity_error i e =
    if not (valid_type e.kind)
    then some (unsupported_type i e.kind)
    else if e.key == ""
    then some (key_required i)
    else none

unfoldable pub edge_error : List String → ℕ → InventoryEdge → Option InventoryError
edge_error ids i edge =
    if not (contains ids edge.from)
    then some (unknown_source i edge.from)
    else if not (contains ids edge.to)
    then some (unknown_destination i edge.to)
    else if edge.relation == ""
    then some (relation_required i)
    else none

unfoldable pub declared_id : Unicode → InventoryEntity → String
declared_id u e = entity_id u e.kind e.key

module _ (u : Unicode) (at : Time) where
  unfoldable pub declared_entity : InventoryEntity → Entity
  unfolding declared_id
  declared_entity e = record {
    id = declared_id u e;
    kind = e.kind;
    key = e.key;
    name = e.name;
    criticality = e.criticality;
    attributes = e.attributes;
    first_seen = at;
    last_seen = at;
    observed = false;
  }

  -- The loop over the entities. An entry with an error ends it; those before it stay in the graph.
  unfoldable pub declare_entities : ℕ → List InventoryEntity → List String → Graph → Declared
  unfolding entity_error declared_entity declared_id upsert_entity
  declare_entities i [] ids g = record { graph = g; ids = ids; error = none }
  declare_entities i (e ∷ es) ids g =
      let rest =
        declare_entities (suc i) es (ids ++ declared_id u e ∷ [])
          (upsert_entity u (declared_entity e) g) in
      elim (entity_error i e) [
        | none ↦ rest
        | some error ↦ record { graph = g; ids = ids; error = some error }
      ]

  -- The loop over the edges.
  unfoldable pub declare_edges :
      List String → ℕ → List InventoryEdge → Graph → Graph × Option InventoryError
  unfolding edge_error upsert_edge
  declare_edges ids i [] g = (g, none)
  declare_edges ids i (edge ∷ edges) g =
      let rest =
        declare_edges ids (suc i) edges (upsert_edge edge.from edge.to edge.relation at "" g) in
      elim (edge_error ids i edge) [ none ↦ rest | some error ↦ (g, some error) ]

  -- ApplyInventory
  unfoldable pub apply_inventory : Inventory → Graph → Graph × Option InventoryError
  unfolding declare_entities declare_edges
  apply_inventory inv g =
      let declared = declare_entities 0 inv.entities [] g in
      elim declared.error [
        | none ↦ declare_edges declared.ids 0 inv.edges declared.graph
        | some error ↦ (declared.graph, some error)
      ]
