-- ===== src/Graph/Reach/Keyed.antt =====
-- Whatever is projected into the graph, every entity stands under its own id.
use griefer_security_platfor.Prelude.{
  ℕ, String, ◌≡◌, refl, sym, ap, ◌∙◌, inl, inr, ◌||◌, Option, none, some, List, [], ◌∷◌, ◌==◌,
  eq_iff, Bool-cases,
}
use griefer_security_platfor.Prelude.Dict.{lookup, insert, lookup-insert}
use griefer_security_platfor.Prelude.Text.{Unicode}
use griefer_security_platfor.Events.{Time, SecurityEvent}
use griefer_security_platfor.Graph.{Entity}
use griefer_security_platfor.Graph.Store.{
  Graph, new_graph, entity, upsert_entity, upsert_edge, upsert_found, add_edge, with_defaults,
  merged, merge_entity,
}
use griefer_security_platfor.Graph.Project.{project}
use griefer_security_platfor.Graph.Project.Steps.{project_induction, project_all}
use griefer_security_platfor.Graph.Reach.Listed.{IsKeyed}

merged-id :
    (e : Entity) (o : Option Entity)
    → ((x : Entity) → o ≡ some x → x.id ≡ e.id)
    → (merged e o).id ≡ e.id
unfolding merged
merged-id e none h = refl
merged-id e (some x) h = unfold merge_entity in h x refl

upsert_entity-IsKeyed :
    (u : Unicode) (e : Entity) (g : Graph) → IsKeyed g → IsKeyed (upsert_entity u e g)
upsert_entity-IsKeyed u e g k id ent h =
    let d = with_defaults u e in
    let m = merged d (lookup d.id g.entities) in
    let looked : lookup id (insert d.id m g.entities) ≡ some ent =
      unfold entity in unfold upsert_entity in h in
    let found = sym (lookup-insert d.id id m g.entities) ∙ looked in
    elim (Bool-cases (d.id == id)) [
      | inl e ↦
          let same : some m ≡ some ent = rw e at found in
          let is_m : m ≡ ent = cc in
          ap (λ x. x.id) (sym is_m)
          ∙ merged-id d (lookup d.id g.entities) (λ x q. k d.id x (unfold entity in q))
          ∙ (eq_iff d.id id).0 e
      | inr e ↦
          k id ent (let q : lookup id g.entities ≡ some ent = rw e at found in unfold entity in q)
    ]

upsert_found-entities :
    (from to rel : String) (at : Time) (id : String) (g : Graph) (o : Option ℕ)
    → (upsert_found from to rel at id g o).entities ≡ g.entities
unfolding upsert_found
upsert_found-entities from to rel at id g none = unfold add_edge in refl
upsert_found-entities from to rel at id g (some ref) = refl

upsert_edge-entities :
    (from to rel : String) (at : Time) (id : String) (g : Graph)
    → (upsert_edge from to rel at id g).entities ≡ g.entities
upsert_edge-entities from to rel at id g =
    elim (Bool-cases (from == "" || to == "" || from == to)) [
      | inl e ↦ unfold upsert_edge in rw e refl
      | inr e ↦ unfold upsert_edge in rw e (upsert_found-entities from to rel at id g _)
    ]

upsert_edge-IsKeyed :
    (from to rel : String) (at : Time) (id : String) (g : Graph)
    → IsKeyed g
    → IsKeyed (upsert_edge from to rel at id g)
upsert_edge-IsKeyed from to rel at event_id g k id ent h = k id ent (
    let q : lookup id (upsert_edge from to rel at event_id g).entities ≡ some ent =
      unfold entity in h in
    unfold entity in ap (lookup id) (sym (upsert_edge-entities from to rel at event_id g)) ∙ q)

projected-IsKeyed :
    (u : Unicode) (evs : List SecurityEvent) (g : Graph) → IsKeyed g → IsKeyed (project_all u evs g)
unfolding project_all
projected-IsKeyed u [] g k = k
projected-IsKeyed u (ev ∷ evs) g k =
    projected-IsKeyed u evs (project u ev g)
      (project_induction u IsKeyed (upsert_entity-IsKeyed u) upsert_edge-IsKeyed ev g k)

-- Whatever events are projected into a new graph, every entity stands under its own id.
pub project_all-IsKeyed :
    (u : Unicode) (evs : List SecurityEvent) → IsKeyed (project_all u evs new_graph)
project_all-IsKeyed u evs =
    projected-IsKeyed u evs new_graph (unfold new_graph entity lookup in λ id ent h. cc)
