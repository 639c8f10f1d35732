-- ===== src/Graph/Reach/Tests.antt =====
-- Tests of the walk: from Alice to the secret that she read, and to her session.
use griefer_security_platfor.Prelude.{ℕ, String, ◌≡◌, refl, List, [], ◌∷◌, map}
use griefer_security_platfor.Prelude.Int.{pos, negsuc}
use griefer_security_platfor.Prelude.Text.{ascii, to_lower, trim_space}
use griefer_security_platfor.Graph.{BlastRadius}
use griefer_security_platfor.Graph.Store.{Graph, new_graph}
use griefer_security_platfor.Graph.Project.{project}
use griefer_security_platfor.Graph.Reach.{
  estimate_blast_radius, enough_fuel, hop_limit, start, walk,
}
use griefer_security_platfor.Graph.Project.Steps.{project_all}
use griefer_security_platfor.Graph.Reach.Keyed.{project_all-IsKeyed}
use griefer_security_platfor.Graph.Reach.Distance.{ListsExactly, estimate_blast_radius-ListsExactly}
use griefer_security_platfor.Graph.Reach.Ends.{walk-queue_empty}
use griefer_security_platfor.Samples.{other_event, sample_event, whole_numbers}

abbrev alice_graph : Graph
unfolding project new_graph
alice_graph = project ascii sample_event new_graph

abbrev ids_of : BlastRadius → List (String × ℕ)
ids_of b = map (λ r. (r.id, r.hops)) b.reachable

finds_peers :
    ids_of (
      estimate_blast_radius
        (λ n. "")
        whole_numbers
        ("identity:alice" ∷ "identity:bob" ∷ [])
        (pos 0)
        alice_graph)
    ≡ ("identity:alice", 0) ∷ ("secret:db-password", 1) ∷ ("session:s-1", 1) ∷ []
unfolding estimate_blast_radius alice_graph to_lower trim_space
finds_peers = refl

walk-queue_empty_example :
    (walk whole_numbers alice_graph
      (hop_limit (negsuc 0))
      (enough_fuel alice_graph ("identity:alice" ∷ []))
      (start whole_numbers alice_graph ("identity:alice" ∷ []))).queue
    ≡ []
walk-queue_empty_example =
    walk-queue_empty whole_numbers alice_graph ("identity:alice" ∷ []) (negsuc 0)

abbrev known_graph : Graph
known_graph = project_all ascii (sample_event ∷ other_event ∷ []) new_graph

estimate_blast_radius-ListsExactly_example :
    ListsExactly known_graph
      ("identity:alice" ∷ [])
      (hop_limit (pos 1))
      (estimate_blast_radius
        (λ n. "")
        whole_numbers
        ("identity:alice" ∷ [])
        (pos 1)
        known_graph).reachable
estimate_blast_radius-ListsExactly_example =
    estimate_blast_radius-ListsExactly (λ n. "") whole_numbers ("identity:alice" ∷ []) (pos 1)
      known_graph (project_all-IsKeyed ascii (sample_event ∷ other_event ∷ []))
