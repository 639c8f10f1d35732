-- ===== src/Graph/Store.antt =====
-- internal/graph/graph.go: the in-memory Security Graph. The pointers to edges that the buckets of
-- both directions share are positions in `heap`, so an update through one is seen through the other.
pub mod Merge
pub mod Evidence
use griefer_security_platfor.Prelude.{
  ℕ, zero, suc, ◌+◌, ◌-◌, ◌≤◌, ◌<◌, String, ◌≡◌, refl, sym, ap, ◌∙◌, ◌≢◌, ◌↔◌, ◌⊎◌, inl, inr, Bool,
  true, false, not, ◌&&◌, ◌||◌, Option, none, some, List, [], ◌∷◌, ◌++◌, map, arith, ◌==◌, eq_iff,
  eq_refl, ltb, leb, if◌then◌else◌, text_lt, Bool-cases, Option-cases, length, take, drop,
  length-append, length-take, length-drop, take-append-drop, leb→le, ltb→lt, All, Any,
  text_eq-false_of_ne, ne_of_text_eq-false,
}
use griefer_security_platfor.Prelude.Dict.{lookup, insert, contains}
use griefer_security_platfor.Prelude.Sort.{sort_by}
use griefer_security_platfor.Prelude.Text.{Unicode}
use griefer_security_platfor.Events.{Time}
use griefer_security_platfor.Graph.{Entity, Edge, rank, entity_id, criticality_medium}

pub record EdgeKey : Type 0 where
  pub peer : String
  pub relation : String

abbrev pub Bucket : Type 0
Bucket = List (EdgeKey × ℕ)

pub record Graph : Type 0 where
  pub entities : List (String × Entity)
  pub heap : List Edge
  pub out : List (String × Bucket)
  pub into : List (String × Bucket)

-- New
unfoldable pub new_graph : Graph
new_graph = record { entities = []; heap = []; out = []; into = [] }

unfoldable pub merge_attributes :
    List (String × String) → List (String × String) → List (String × String)
unfolding insert
merge_attributes [] existing = existing
merge_attributes ((k, v) ∷ more) existing = merge_attributes more (insert k v existing)

-- `!a.IsZero() && (b.IsZero() || a.Before(b))`
abbrev pub is_earlier : Time → Time → Bool
is_earlier a b = not (leb a 0) && (leb b 0 || ltb a b)

-- The part of upsertEntityLocked that merges into an entity already there.
unfoldable pub merge_entity : Entity → Entity → Entity
unfolding merge_attributes
merge_entity e existing = record existing {
  name = if e.name == "" then existing.name else e.name;
  criticality =
      if ltb (rank existing.criticality) (rank e.criticality)
      then e.criticality
      else existing.criticality;
  observed = e.observed || existing.observed;
  attributes = merge_attributes e.attributes existing.attributes;
  first_seen =
      if is_earlier e.first_seen existing.first_seen then e.first_seen else existing.first_seen;
  last_seen = if ltb existing.last_seen e.last_seen then e.last_seen else existing.last_seen;
}

-- The defaults at the start of upsertEntityLocked.
unfoldable pub with_defaults : Unicode → Entity → Entity
with_defaults u e = record e {
  id = if e.id == "" then entity_id u e.kind e.key else e.id;
  criticality = if e.criticality == "" then criticality_medium else e.criticality;
}

unfoldable pub merged : Entity → Option Entity → Entity
unfolding merge_entity
merged e none = e
merged e (some existing) = merge_entity e existing

-- UpsertEntity, upsertEntityLocked
unfoldable pub upsert_entity : Unicode → Entity → Graph → Graph
unfolding merged lookup insert with_defaults
upsert_entity u e g =
    let d = with_defaults u e in
    record g { entities = insert d.id (merged d (lookup d.id g.entities)) g.entities }

-- Entity
unfoldable pub entity : String → Graph → Option Entity
unfolding lookup
entity id g = lookup id g.entities

abbrev same_key : EdgeKey → EdgeKey → Bool
same_key a b = a.peer == b.peer && a.relation == b.relation

unfoldable pub find_edge : EdgeKey → Bucket → Option ℕ
find_edge k [] = none
find_edge k ((j, ref) ∷ b) = if same_key j k then some ref else find_edge k b

unfoldable pub put_edge : EdgeKey → ℕ → Bucket → Bucket
put_edge k ref [] = (k, ref) ∷ []
put_edge k ref ((j, r) ∷ b) = if same_key j k then (k, ref) ∷ b else (j, r) ∷ put_edge k ref b

unfoldable pub bucket_or_empty : Option Bucket → Bucket
bucket_or_empty none = []
bucket_or_empty (some b) = b

-- m[id], a missing bucket being the empty one
unfoldable pub bucket_of : String → List (String × Bucket) → Bucket
unfolding bucket_or_empty lookup
bucket_of id m = bucket_or_empty (lookup id m)

abbrev pub max_edge_evidence : ℕ
max_edge_evidence = 50

-- The end of UpsertEdge: what one more observation does to an edge.
unfoldable pub observe : Time → String → Edge → Edge
unfolding contains
observe at event_id e = record e {
  first_seen = if ltb at e.first_seen || leb e.first_seen 0 then at else e.first_seen;
  last_seen = if ltb e.last_seen at then at else e.last_seen;
  event_ids =
      if not (event_id == "")
        && ltb (length e.event_ids) max_edge_evidence
        && not (contains e.event_ids event_id)
      then e.event_ids ++ event_id ∷ []
      else e.event_ids;
}

-- `*edge = f(*edge)`
unfoldable pub update_at {ℓ} : {A : Type ℓ} → ℕ → (A → A) → List A → List A
update_at n f [] = []
update_at zero f (x ∷ xs) = f x ∷ xs
update_at (suc n) f (x ∷ xs) = x ∷ update_at n f xs

unfoldable pub new_edge : String → String → String → Time → Edge
new_edge from to rel at = record {
  from = from;
  to = to;
  relation = rel;
  first_seen = at;
  last_seen = at;
  event_ids = [];
}

-- A new edge is put into the bucket of its source and the bucket of its destination.
unfoldable pub add_edge : String → String → String → Time → Graph → Graph
unfolding insert put_edge bucket_of new_edge
add_edge from to rel at g =
    let ref = length g.heap in
    record g {
      heap = g.heap ++ new_edge from to rel at ∷ [];
      out =
          insert from (put_edge (record { peer = to; relation = rel }) ref (bucket_of from g.out))
            g.out;
      into =
          insert to (put_edge (record { peer = from; relation = rel }) ref (bucket_of to g.into))
            g.into;
    }

unfoldable pub upsert_found : String → String → String → Time → String → Graph → Option ℕ → Graph
unfolding update_at observe add_edge
upsert_found from to rel at event_id g (some ref) = record g {
  heap = update_at ref (observe at event_id) g.heap;
}
upsert_found from to rel at event_id g none =
    let added = add_edge from to rel at g in
    record added { heap = update_at (length g.heap) (observe at event_id) added.heap }

-- UpsertEdge
unfoldable pub upsert_edge : String → String → String → Time → String → Graph → Graph
unfolding upsert_found find_edge bucket_of
upsert_edge from to rel at event_id g =
    if from == "" || to == "" || from == to
    then g
    else upsert_found from to rel at event_id g
        (find_edge (record { peer = to; relation = rel }) (bucket_of from g.out))

edge_at : ℕ → List Edge → List Edge → List Edge
edge_at n [] rest = rest
edge_at zero (e ∷ es) rest = e ∷ rest
edge_at (suc n) (e ∷ es) rest = edge_at n es rest

edges_of : Bucket → List Edge → List Edge
unfolding edge_at
edges_of [] heap = []
edges_of ((k, ref) ∷ b) heap = edge_at ref heap (edges_of b heap)

-- sortEdges
edge_before : Edge → Edge → Bool
edge_before a b =
    if not (a.from == b.from)
    then text_lt a.from b.from
    else if not (a.to == b.to)
    then text_lt a.to b.to
    else text_lt a.relation b.relation

-- Neighbours
unfoldable pub neighbours : String → Graph → List Edge
unfolding edge_before edges_of bucket_of sort_by
neighbours id g =
    sort_by edge_before
      (edges_of (bucket_of id g.out) g.heap ++ edges_of (bucket_of id g.into) g.heap)

-- Entities
unfoldable pub all_entities : Graph → List Entity
unfolding sort_by
all_entities g = sort_by (λ a b. text_lt a.id b.id) (map (λ e. e.1) g.entities)

count_edges : List (String × Bucket) → ℕ
count_edges [] = 0
count_edges ((id, b) ∷ m) = length b + count_edges m

-- Size
unfoldable pub size : Graph → ℕ × ℕ
unfolding count_edges
size g = (length g.entities, count_edges g.out)
