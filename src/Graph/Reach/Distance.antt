-- ===== src/Graph/Reach/Distance.antt =====
-- EstimateBlastRadius lists exactly what lies within its limit, each at its distance.
use griefer_security_platfor.Prelude.{
  ℕ, zero, suc, ◌≤◌, String, ◌≡◌, sym, ap, ◌∙◌, inl, inr, List, [], ◌++◌, arith, leb, Bool-cases,
  leb→le, All, Any,
}
use mathlib.Core.Path.{subst}
use mathlib.Core.List.{append-nil}
use griefer_security_platfor.Prelude.{
  All-map2, Any-map, Any-with_All, Any-list_map, All-list_map, Any-elim,
}
use griefer_security_platfor.Prelude.Int.{ℤ}
use griefer_security_platfor.Prelude.Float.{FloatOps}
use griefer_security_platfor.Prelude.Sort.{sort_by, sort_by-All, sort_by-Any}
use griefer_security_platfor.Graph.{ReachableEntity}
use griefer_security_platfor.Graph.Store.{Graph}
use griefer_security_platfor.Graph.Reach.{
  Walk, hop_limit, enough_fuel, start, walk, nearer, radius_of, estimate_blast_radius,
}
use griefer_security_platfor.Graph.Reach.Ends.{walk-queue_empty}
use griefer_security_platfor.Graph.Reach.Seeds.{start-IsBreadthFirst}
use griefer_security_platfor.Graph.Reach.Trace.{
  IsPresent, IsPeer, Reaches, over_edge, at_seed, HasWithin, IsWalked, IsOnce, fewest_of_IsOnce,
}
use griefer_security_platfor.Graph.Reach.Exact.{
  entries, found_entries, queued_entries, IsBreadthFirst, IsClosed,
}
use griefer_security_platfor.Graph.Reach.Listed.{IsKeyed, walk-IsGood}

-- An entity stands at its distance from the seeds, which is at most `limit`.
abbrev pub IsAtDistance : Graph → List String → ℕ → ReachableEntity → Type 0
IsAtDistance g seeds limit r =
    Reaches g seeds r.hops r.id × (r.hops ≤ limit) × ((n : ℕ) → Reaches g seeds n r.id → r.hops ≤ n)

-- The list has exactly the entities within `limit` edges of the seeds, each at its distance.
pub record ListsExactly (g : Graph) (seeds : List String) (limit : ℕ) (rs : List ReachableEntity)
    : Type 0 where
  pub each : All (IsAtDistance g seeds limit) rs
  pub every :
      (n : ℕ) (id : String)
      → Reaches g seeds n id
      → n ≤ limit
      → Any (λ r. (r.id ≡ id) × (r.hops ≤ n)) rs

module _ (fl : FloatOps) (g : Graph) (seeds : List String) (limit : ℕ) (w : Walk)
    (i : IsBreadthFirst fl g seeds limit w) (done : w.queue ≡ []) where
  only_found : entries w ≡ found_entries w.reachable
  only_found =
      ap (λ q. found_entries w.reachable ++ queued_entries q) done
      ∙ append-nil (found_entries w.reachable)

  reached_found :
      (n : ℕ) (id : String)
      → Reaches g seeds n id
      → n ≤ limit
      → HasWithin id n (found_entries w.reachable)
  reached_found zero id (at_seed s p) le = subst (HasWithin id 0) only_found (i.seeded id s p)
  reached_found (suc n) id (over_edge {a = a} from peer p) le =
      let near = reached_found n a from (omega arith) in
      let found =
        Any-list_map (λ e. (e.0 ≡ a) × (e.1 ≤ n)) (λ r. (r.id, r.hops)) w.reachable near in
      Any-elim (HasWithin id (suc n) (found_entries w.reachable))
        (λ r h.
          let has =
            h.1 (omega (arith, h.0.1, le)) id (subst (λ x. IsPeer g x id) (sym h.0.0) peer) p in
          subst (HasWithin id (suc n)) only_found
            (Any-map (λ e q. (q.0, omega (arith, q.1, h.0.1))) (entries w) has))
        w.reachable
        (Any-with_All (λ r. (r.id ≡ a) × (r.hops ≤ n)) (IsClosed fl g seeds limit (entries w))
          w.reachable i.closed found)

  abbrev HasFewest : ReachableEntity → Type 0
  HasFewest r = (n : ℕ) → HasWithin r.id n (found_entries w.reachable) → r.hops ≤ n

  rebuilt-IsAtDistance :
      (r : ReachableEntity)
      → IsPresent g r.id
      → IsWalked g seeds limit (r.id, r.hops)
      → HasFewest r
      → IsAtDistance g seeds limit r
  rebuilt-IsAtDistance r p known least = (
    known.0 p,
    known.1,
    λ n reach. elim (Bool-cases (leb n limit)) [
      | inl e ↦ least n (reached_found n r.id reach (leb→le n limit e))
      | inr e ↦ ground (arith, known.1, e)
    ],
  )

  reachable-IsAtDistance : All (IsAtDistance g seeds limit) w.reachable
  reachable-IsAtDistance =
      let walked =
        All-list_map (IsWalked g seeds limit) (λ r. (r.id, r.hops)) w.reachable
          (subst (All (IsWalked g seeds limit)) only_found i.tracks.walked) in
      let fewest =
        All-list_map (λ e. (n : ℕ) → HasWithin e.0 n (found_entries w.reachable) → e.1 ≤ n)
          (λ r. (r.id, r.hops)) w.reachable
          (fewest_of_IsOnce (found_entries w.reachable) (subst IsOnce only_found i.tracks.once)) in
      let known : All (λ r. IsPresent g r.id → IsAtDistance g seeds limit r) w.reachable =
        All-map2 (λ r k l p. rebuilt-IsAtDistance r p k l) w.reachable walked fewest in
      All-map2 (λ r p f. f p) w.reachable i.present known

  found-ListsExactly : ListsExactly g seeds limit (sort_by nearer w.reachable)
  found-ListsExactly = record {
    each = sort_by-All nearer (IsAtDistance g seeds limit) w.reachable reachable-IsAtDistance;
    every = λ n id reach le.
        sort_by-Any nearer (λ r. (r.id ≡ id) × (r.hops ≤ n)) w.reachable
          (Any-list_map (λ e. (e.0 ≡ id) × (e.1 ≤ n)) (λ r. (r.id, r.hops)) w.reachable
            (reached_found n id reach le));
  }

-- On a graph in which every entity stands under its own id, EstimateBlastRadius lists exactly the
-- entities that can be reached from the seeds over at most as many edges as its limit, by way of
-- entities, each with its distance, the fewest edges to it from a seed.
pub estimate_blast_radius-ListsExactly :
    (decimal : ℕ → String) (fl : FloatOps) (seeds : List String) (max_hops : ℤ) (g : Graph)
    → IsKeyed g
    → ListsExactly g seeds
        (hop_limit max_hops)
        (estimate_blast_radius decimal fl seeds max_hops g).reachable
estimate_blast_radius-ListsExactly decimal fl seeds max_hops g keyed =
    let limit = hop_limit max_hops in
    let w = walk fl g limit (enough_fuel g seeds) (start fl g seeds) in
    unfold estimate_blast_radius in
    unfold radius_of in
    found-ListsExactly fl g seeds limit w
      (walk-IsGood fl g seeds limit keyed (enough_fuel g seeds) (start fl g seeds)
        (start-IsBreadthFirst fl g seeds limit))
      (walk-queue_empty fl g seeds max_hops)
