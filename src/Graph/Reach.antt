-- ===== src/Graph/Reach.antt =====
-- internal/graph/graph.go, EstimateBlastRadius: the breadth-first walk. The loop over the queue runs
-- on fuel. Of the map `visited` only the keys are kept, since the code never reads its values.
pub mod Ends
pub mod Trace
pub mod Exact
pub mod Seeds
pub mod Listed
pub mod Distance
pub mod Keyed
mod Tests
use griefer_security_platfor.Prelude.{
  ℕ, zero, suc, ◌+◌, ◌-◌, ◌≤◌, ◌<◌, String, ◌≡◌, refl, sym, ap, ◌∙◌, ◌≢◌, ◌↔◌, ◌⊎◌, inl, inr, Bool,
  true, false, not, ◌&&◌, ◌||◌, Option, none, some, List, [], ◌∷◌, ◌++◌, map, arith, ◌==◌, eq_iff,
  eq_refl, ltb, leb, if◌then◌else◌, text_lt, Bool-cases, Option-cases, length, take, drop,
  length-append, length-take, length-drop, take-append-drop, leb→le, ltb→lt, All, Any,
  text_eq-false_of_ne, ne_of_text_eq-false,
}
use griefer_security_platfor.Prelude.{eqb}
use Prim.Native.String.{◌++◌ as ◌++ₛ◌}
use griefer_security_platfor.Prelude.Int.{ℤ, pos, negsuc}
use griefer_security_platfor.Prelude.Dict.{contains}
use griefer_security_platfor.Prelude.Float.{Float64, FloatOps}
use griefer_security_platfor.Prelude.Sort.{sort_by}
use griefer_security_platfor.Graph.{
  Entity, ReachableEntity, BlastRadius, default_max_hops, weight, rank, criticality_critical,
}
use griefer_security_platfor.Graph.Store.{Graph, EdgeKey, Bucket, entity, bucket_of}

pub record Queued : Type 0 where
  pub id : String
  pub hops : ℕ
  pub via : String
  pub from : String

-- neighbourStep is the peer and the relation of an edge's key.
unfoldable pub bucket_steps : Bucket → List EdgeKey
bucket_steps [] = []
bucket_steps ((k, ref) ∷ b) = k ∷ bucket_steps b

step_before : EdgeKey → EdgeKey → Bool
step_before a b =
    if not (a.peer == b.peer) then text_lt a.peer b.peer else text_lt a.relation b.relation

-- neighbourStepsLocked
unfoldable pub neighbour_steps : String → Graph → List EdgeKey
unfolding bucket_steps bucket_of step_before sort_by
neighbour_steps id g =
    sort_by step_before (bucket_steps (bucket_of id g.out) ++ bucket_steps (bucket_of id g.into))

-- `if maxHops <= 0 { maxHops = DefaultMaxHops }`
unfoldable pub hop_limit : ℤ → ℕ
hop_limit (negsuc _) = default_max_hops
hop_limit (pos n) = if leb n 0 then default_max_hops else n

-- The state of EstimateBlastRadius.
pub record Walk : Type 0 where
  pub visited : List String
  pub queue : List Queued
  pub reachable : List ReachableEntity
  pub weighted : Float64
  pub critical_count : ℕ
  pub observed_max_hops : ℕ

unfoldable pub is_present : Option Entity → Bool
is_present none = false
is_present (some e) = true

-- A seed that is an entity, and was not listed before, is queued.
unfoldable pub mark_seed : Graph → String → List String × List Queued → List String × List Queued
unfolding is_present entity contains
mark_seed g s (visited, queue) =
    if is_present (entity s g) && not (contains visited s)
    then (s ∷ visited, queue ++ record { id = s; hops = 0; via = ""; from = "" } ∷ [])
    else (visited, queue)

-- The loop over the seeds.
unfoldable pub mark_seeds :
    Graph → List String → List String × List Queued → List String × List Queued
unfolding mark_seed
mark_seeds g [] marked = marked
mark_seeds g (s ∷ seeds) marked = mark_seeds g seeds (mark_seed g s marked)

module _ (fl : FloatOps) where
  -- The state before the loop.
  unfoldable pub start : Graph → List String → Walk
  unfolding mark_seeds sort_by
  start g seeds =
      let marked = mark_seeds g seeds ([], []) in
      record {
        visited = marked.0;
        queue = sort_by (λ a b. text_lt a.id b.id) marked.1;
        reachable = [];
        weighted = fl.of_int 0;
        critical_count = 0;
        observed_max_hops = 0;
      }

  -- What taking `cur` off the queue notes of its entity.
  unfoldable pub note_entity : Queued → List Queued → Entity → Walk → Walk
  unfolding weight
  note_entity cur rest ent w = record w {
    queue = rest;
    observed_max_hops = if ltb w.observed_max_hops cur.hops then cur.hops else w.observed_max_hops;
    weighted = fl.add w.weighted (
        if ltb 0 cur.hops
        then fl.div (weight fl ent.criticality) (fl.of_int cur.hops)
        else weight fl ent.criticality);
    critical_count =
        if ent.criticality == criticality_critical then suc w.critical_count else w.critical_count;
    reachable =
        w.reachable
        ++ record {
          id = ent.id;
          kind = ent.kind;
          name = ent.name;
          criticality = ent.criticality;
          hops = cur.hops;
          via = cur.via;
          from = cur.from;
        }
          ∷ [];
  }

  -- A peer that is not visited is marked and queued.
  unfoldable pub push_step : Queued → EdgeKey → Walk → Walk
  unfolding contains
  push_step cur k w = if contains w.visited k.peer then w else record w {
    visited = k.peer ∷ w.visited;
    queue =
        w.queue
        ++ record { id = k.peer; hops = suc cur.hops; via = k.relation; from = cur.id } ∷ [];
  }

  -- The loop over the peers of `cur`.
  unfoldable pub push_steps : Queued → List EdgeKey → Walk → Walk
  unfolding push_step
  push_steps cur [] w = w
  push_steps cur (k ∷ steps) w = push_steps cur steps (push_step cur k w)

  -- The body of the loop: `cur` is off the queue, which is now `rest`.
  unfoldable pub visit : Graph → ℕ → Queued → List Queued → Option Entity → Walk → Walk
  unfolding note_entity push_steps neighbour_steps
  visit g limit cur rest none w = record w { queue = rest }
  visit g limit cur rest (some ent) w =
      let noted = note_entity cur rest ent w in
      if leb limit cur.hops then noted else push_steps cur (neighbour_steps cur.id g) noted

  pop : Graph → ℕ → List Queued → Walk → Walk
  unfolding visit entity
  pop g limit [] w = w
  pop g limit (cur ∷ rest) w = visit g limit cur rest (entity cur.id g) w

  -- `for len(queue) > 0`, for at most `fuel` rounds
  unfoldable pub walk : Graph → ℕ → ℕ → Walk → Walk
  unfolding pop
  walk g limit zero w = w
  walk g limit (suc fuel) w = walk g limit fuel (pop g limit w.queue w)

count_keys : List (String × Bucket) → ℕ
count_keys [] = 0
count_keys ((id, b) ∷ m) = length b + count_keys m

-- Every round takes one entry off the queue, and an entry is a seed or the peer of an edge's key.
unfoldable pub enough_fuel : Graph → List String → ℕ
unfolding count_keys
enough_fuel g seeds = length seeds + count_keys g.out + count_keys g.into

-- The order of the result: near first, then by criticality, then by id.
nearer : ReachableEntity → ReachableEntity → Bool
unfolding rank
nearer a b =
    if not (eqb a.hops b.hops)
    then ltb a.hops b.hops
    else if not (eqb (rank a.criticality) (rank b.criticality))
    then ltb (rank b.criticality) (rank a.criticality)
    else text_lt a.id b.id

-- The score's two bounds.
unfoldable pub bounded_score : ℤ → ℕ
bounded_score (negsuc _) = 0
bounded_score (pos v) = if ltb 100 v then 100 else v

-- `fmt.Sprintf("%d", n)` is a parameter.
module _ (decimal : ℕ → String) where
  plural : ℕ → String → String → String
  plural n one many = decimal n ++ₛ (" " ++ₛ (if eqb n 1 then one else many))

  summarize : ℕ → ℕ → ℕ → String
  unfolding plural
  summarize total critical hops =
      if eqb total 0
      then "No entities reachable — the incident has no graph context yet."
      else if eqb critical 0
      then plural total "entity" "entities"
        ++ₛ (" reachable within " ++ₛ (decimal hops ++ₛ " hops; no assets classified critical."))
      else plural total "entity" "entities"
        ++ₛ (" reachable within "
            ++ₛ (decimal hops
                ++ₛ (" hops, including "
                    ++ₛ (plural critical "asset" "assets" ++ₛ " classified critical."))))

  -- What EstimateBlastRadius returns when its loop has ended.
  unfoldable pub radius_of : FloatOps → Walk → BlastRadius
  unfolding summarize sort_by nearer bounded_score
  radius_of fl w = record {
    score = bounded_score (
        fl.to_int (
          fl.round (
            fl.mul (fl.of_int 100)
              (fl.sub (fl.of_int 1) (fl.exp (fl.div (fl.neg w.weighted) (fl.of_int 25)))))));
    max_hops = w.observed_max_hops;
    critical_assets = w.critical_count;
    summary = summarize (length w.reachable) w.critical_count w.observed_max_hops;
    reachable = sort_by nearer w.reachable;
  }

  -- EstimateBlastRadius
  unfoldable pub estimate_blast_radius : FloatOps → List String → ℤ → Graph → BlastRadius
  unfolding radius_of walk start hop_limit enough_fuel
  estimate_blast_radius fl seeds max_hops g =
      radius_of fl (walk fl g (hop_limit max_hops) (enough_fuel g seeds) (start fl g seeds))
