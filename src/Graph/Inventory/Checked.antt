-- ===== src/Graph/Inventory/Checked.antt =====
-- What ApplyInventory accepts, and what is in the graph when it does.
use griefer_security_platfor.Prelude.{
  ℕ, suc, String, ◌≡◌, refl, sym, ◌∙◌, ◌≢◌, ◌↔◌, true, inl, inr, none, some, List, [], ◌∷◌, ◌++◌,
  map, arith, ◌==◌, eq_iff, eq_refl, Bool-cases, Option-cases, All, All-map,
}
use griefer_security_platfor.Prelude.Dict.{contains, lookup, lookup-insert}
use griefer_security_platfor.Prelude.Text.{Unicode}
use griefer_security_platfor.Events.{Time}
use griefer_security_platfor.Graph.{entity_id, valid_type}
use griefer_security_platfor.Graph.Store.{
  Graph, merged, entity, upsert_entity, upsert_edge, with_defaults,
}
use griefer_security_platfor.Graph.Project.Covers.{Present, entity_kept, edge_kept}
use griefer_security_platfor.Graph.Inventory.{
  InventoryEntity, InventoryEdge, Inventory, Declared, entity_error, edge_error, declared_id,
  declared_entity, declare_entities, declare_edges, apply_inventory,
}
use mathlib.Core.List.{append_assoc, append-nil}
use mathlib.Core.Path.{subst}

abbrev pub EntityValid : InventoryEntity → Type 0
EntityValid e = (valid_type e.kind ≡ true) × (e.key ≢ "")

-- Both ends are declared.
abbrev pub EdgeDeclared : List String → InventoryEdge → Type 0
EdgeDeclared ids edge =
    (contains ids edge.from ≡ true) × (contains ids edge.to ≡ true) × (edge.relation ≢ "")

entity_error-none : (i : ℕ) (e : InventoryEntity) → (entity_error i e ≡ none) ↔ EntityValid e
unfolding entity_error
entity_error-none i e = (
  λ h. (ground (arith, h), λ k. ground (arith, h, eq_iff e.key "")),
  λ h. ground (arith, h.0, h.1, eq_iff e.key ""),
)

edge_error-none :
    (ids : List String) (i : ℕ) (edge : InventoryEdge)
    → (edge_error ids i edge ≡ none) ↔ EdgeDeclared ids edge
unfolding edge_error
edge_error-none ids i edge = (
  λ h. (ground (arith, h), ground (arith, h), λ k. ground (arith, h, eq_iff edge.relation "")),
  λ h. ground (arith, h.0, h.1, h.2, eq_iff edge.relation ""),
)

module _ (u : Unicode) (at : Time) where
  declared-Present :
      (e : InventoryEntity) (g : Graph)
      → Present u (declared_id u e) (upsert_entity u (declared_entity u at e) g)
  declared-Present e g =
      let d = with_defaults u (declared_entity u at e) in
      let same : d.id ≡ declared_id u e = elim (Bool-cases (entity_id u e.kind e.key == "")) [
        | inl q ↦ unfold with_defaults declared_entity declared_id in rw q
        | inr q ↦ unfold with_defaults declared_entity declared_id in rw q
      ] in
      let read = lookup-insert d.id d.id (merged d (lookup d.id g.entities)) g.entities in
      (
        merged d (lookup d.id g.entities),
        rw⁻¹ same (unfold entity upsert_entity in (read ∙ rw (eq_refl d.id))),
      )

  -- What is present stays so through both loops.
  declare_entities-keeps :
      (id : String) (i : ℕ) (es : List InventoryEntity) (ids : List String) (g : Graph)
      → Present u id g
      → Present u id (declare_entities u at i es ids g).graph
  unfolding declare_entities
  declare_entities-keeps id i [] ids g p = p
  declare_entities-keeps id i (e ∷ es) ids g p = elim (Option-cases (entity_error i e)) [
    | inl h ↦
        rw (declare_entities, h)
          (declare_entities-keeps id (suc i) es (ids ++ declared_id u e ∷ [])
            (upsert_entity u (declared_entity u at e) g)
            (entity_kept u id (declared_entity u at e) g p))
    | inr (error, h) ↦ rw (declare_entities, h) p
  ]

  declare_edges-keeps :
      (id : String) (ids : List String) (i : ℕ) (edges : List InventoryEdge) (g : Graph)
      → Present u id g
      → Present u id (declare_edges u at ids i edges g).0
  unfolding declare_edges
  declare_edges-keeps id ids i [] g p = p
  declare_edges-keeps id ids i (edge ∷ edges) g p = elim (Option-cases (edge_error ids i edge)) [
    | inl h ↦
        rw (declare_edges, h)
          (declare_edges-keeps id ids (suc i) edges
            (upsert_edge edge.from edge.to edge.relation at "" g)
            (edge_kept u id edge.from edge.to edge.relation at "" g p))
    | inr (error, h) ↦ rw (declare_edges, h) p
  ]

  -- How the loop over the entities ends: without an error exactly if every entity is valid. It has
  -- then collected the ids of all, and every one is in the graph.
  abbrev Collected : List InventoryEntity → List String → Declared → Type 0
  Collected es ids d =
      ((d.error ≡ none) ↔ All EntityValid es)
      × (d.error ≡ none
          → (d.ids ≡ ids ++ map (declared_id u) es)
            × All (λ e. Present u (declared_id u e) d.graph) es)

  declare_entities-Collected :
      (i : ℕ) (es : List InventoryEntity) (ids : List String) (g : Graph)
      → Collected es ids (declare_entities u at i es ids g)
  unfolding declare_entities
  declare_entities-Collected i [] ids g = ((λ h. tt, λ h. refl), λ h. (sym (append-nil ids), tt))
  declare_entities-Collected i (e ∷ es) ids g = elim (Option-cases (entity_error i e)) [
    | inl h ↦
        let next = upsert_entity u (declared_entity u at e) g in
        let listed = ids ++ declared_id u e ∷ [] in
        let rest = declare_entities u at (suc i) es listed next in
        let step : declare_entities u at i (e ∷ es) ids g ≡ rest = rw (declare_entities, h) refl in
        let (exact, done) = declare_entities-Collected (suc i) es listed next in
        subst (Collected (e ∷ es) ids) (sym step) (
          (λ n. ((entity_error-none i e).0 h, exact.0 n), λ v. exact.1 v.1),
          λ n. (
            (done n).0 ∙ append_assoc ids (declared_id u e ∷ []) (map (declared_id u) es),
            (
              declare_entities-keeps (declared_id u e) (suc i) es listed next
                  (declared-Present e g),
              (done n).1,
            ),
          ),
        )
    | inr (error, h) ↦
        let invalid : ¬ EntityValid e = λ v. ground (arith, h, (entity_error-none i e).1 v) in
        let stopped : Declared = record { graph = g; ids = ids; error = some error } in
        let step : declare_entities u at i (e ∷ es) ids g ≡ stopped =
          rw (declare_entities, h) refl in
        subst (Collected (e ∷ es) ids) (sym step)
          ((λ n. ground arith, λ v. absurd (invalid v.0)), λ n. ground arith)
  ]

  -- Likewise the loop over the edges, if every edge joins declared ids by a relation.
  declare_edges-none :
      (ids : List String) (i : ℕ) (edges : List InventoryEdge) (g : Graph)
      → ((declare_edges u at ids i edges g).1 ≡ none) ↔ All (EdgeDeclared ids) edges
  unfolding declare_edges
  declare_edges-none ids i [] g = (λ h. tt, λ h. refl)
  declare_edges-none ids i (edge ∷ edges) g = elim (Option-cases (edge_error ids i edge)) [
    | inl h ↦
        let next = upsert_edge edge.from edge.to edge.relation at "" g in
        let exact = declare_edges-none ids (suc i) edges next in
        rw (declare_edges, h) (λ n. ((edge_error-none ids i edge).0 h, exact.0 n), λ v. exact.1 v.1)
    | inr (error, h) ↦
        let invalid : ¬ EdgeDeclared ids edge =
          λ v. ground (arith, h, (edge_error-none ids i edge).1 v) in
        rw (declare_edges, h) (λ n. ground arith, λ v. absurd (invalid v.0))
  ]

abbrev pub IsDeclarable : Unicode → Inventory → Type 0
IsDeclarable u inv =
    All EntityValid inv.entities × All (EdgeDeclared (map (declared_id u) inv.entities)) inv.edges

-- ApplyInventory ends without an error exactly if every entity has a known type and a key, and every
-- edge joins entities that the inventory declares, by a relation that is not empty. Every declared
-- entity is then in the graph under its identifier. With an error or without, every entity that was
-- in the graph before is still there.
pub apply_inventory-checks :
    (u : Unicode) (at : Time) (inv : Inventory) (g : Graph)
    → let applied = apply_inventory u at inv g in
      ((applied.1 ≡ none) ↔ IsDeclarable u inv)
      × (applied.1 ≡ none → All (λ e. Present u (declared_id u e) applied.0) inv.entities)
      × ((id : String) → Present u id g → Present u id applied.0)
unfolding apply_inventory
apply_inventory-checks u at inv g =
    let d = declare_entities u at 0 inv.entities [] g in
    let (exact, done) = declare_entities-Collected u at 0 inv.entities [] g in
    elim (Option-cases d.error) [
      | inl h ↦
          let edges = declare_edges-none u at d.ids 0 inv.edges d.graph in
          let same : d.ids ≡ map (declared_id u) inv.entities = (done h).0 in
          let declared : List String → Type 0 = λ ids. All (EdgeDeclared ids) inv.edges in
          rw (apply_inventory, h)
            (
              (
                λ n. (exact.0 h, subst declared same (edges.0 n)),
                λ v. edges.1 (subst declared (sym same) v.1),
              ),
              λ n.
                  All-map
                    (λ e p. declare_edges-keeps u at (declared_id u e) d.ids 0 inv.edges d.graph p)
                    inv.entities (done h).1,
              λ id p.
                  declare_edges-keeps u at id d.ids 0 inv.edges d.graph
                    (declare_entities-keeps u at id 0 inv.entities [] g p),
            )
      | inr (error, h) ↦
          rw (apply_inventory, h)
            (
              (λ n. ground arith, λ v. ground (arith, h, exact.1 v.0)),
              λ n. ground arith,
              λ id p. declare_entities-keeps u at id 0 inv.entities [] g p,
            )
    ]
