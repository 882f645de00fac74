-- ===== src/Graph/Closure.antt =====
-- internal/graph/graph.go: `DependencyClosure`.
use eventframed.Prelude.{
  ℕ, zero, suc, String, Bool, false, ◌||◌, Option, none, some, List, [], ◌∷◌, ◌++◌, str_mem,
  if◌then◌else◌,
}
use eventframed.Prelude.Dict.{Dict, get}
use eventframed.Prelude.Equal.{◌===◌}
use eventframed.Prelude.Int.{ℤ, magnitude}
use eventframed.Model.PredictiveGraph.{
  CompatibilityNode, CompatibilityEdge, PredictiveGraph, DependencyClosure, node_equal, edge_equal,
}
use eventframed.Graph.{add_key, add_keys, node_map, edge_map, map_keys, or_nil, adjacency_of}

-- The other graph has an equal node of this id.
abbrev pub same_node : CompatibilityNode → Option CompatibilityNode → Bool
same_node node none = false
same_node node (some other) = node === other

abbrev pub same_edge : CompatibilityEdge → Option CompatibilityEdge → Bool
same_edge edge none = false
same_edge edge (some other) = edge === other

-- The loops over the two maps of nodes.
unfoldable pub seed_nodes :
    Dict CompatibilityNode → Dict CompatibilityNode → List String → List String
unfolding add_key
seed_nodes [] other seed = seed
seed_nodes ((id, node) ∷ rest) other seed =
    seed_nodes rest other (if same_node node (get id other) then seed else add_key id seed)

-- The loops over the two maps of edges.
unfoldable pub seed_edges :
    Dict CompatibilityEdge → Dict CompatibilityEdge → List String → List String
unfolding add_key
seed_edges [] other seed = seed
seed_edges ((id, edge) ∷ rest) other seed =
    seed_edges rest other
      (if same_edge edge (get id other) then seed else add_key edge.to (add_key edge.from seed))

unfoldable pub seed_of : PredictiveGraph → PredictiveGraph → List String
unfolding node_map edge_map seed_nodes seed_edges
seed_of current candidate = seed_edges candidate_edges current_edges (
    seed_edges current_edges candidate_edges
      (seed_nodes candidate_nodes current_nodes (seed_nodes current_nodes candidate_nodes [])))
  where
    current_nodes : Dict CompatibilityNode
    current_nodes = node_map current.nodes []

    candidate_nodes : Dict CompatibilityNode
    candidate_nodes = node_map candidate.nodes []

    current_edges : Dict CompatibilityEdge
    current_edges = edge_map current.edges []

    candidate_edges : Dict CompatibilityEdge
    candidate_edges = edge_map candidate.edges []

-- The loop over the neighbours of one node: the affected set and the next frontier.
unfoldable pub visit : List String → List String × List String → List String × List String
visit [] (affected, next) = (affected, next)
visit (neighbor ∷ rest) (affected, next) = visit rest (
    if str_mem neighbor affected
    then (affected, next)
    else (neighbor ∷ affected, next ++ (neighbor ∷ [])))

-- The loop over the frontier.
unfoldable pub spread :
    Dict (List String) → List String → List String × List String → List String × List String
unfolding visit
spread adjacency [] state = state
spread adjacency (id ∷ frontier) state =
    spread adjacency frontier (visit (or_nil (get id adjacency)) state)

-- The loop over the radius.
unfoldable pub rounds : ℕ → Dict (List String) → List String → List String → List String
unfolding spread
rounds zero adjacency frontier affected = affected
rounds (suc radius) adjacency frontier affected =
    let (wider, next) = spread adjacency frontier (affected, []) in
    rounds radius adjacency next wider

-- The loops that collect what the affected nodes touch.
unfoldable pub collect_edges : List String → List CompatibilityEdge → List String → List String
unfolding add_key
collect_edges affected [] ids = ids
collect_edges affected (edge ∷ edges) ids =
    collect_edges affected edges
      (if str_mem edge.from affected || str_mem edge.to affected then add_key edge.id ids else ids)

unfoldable pub collect_nodes :
    (CompatibilityNode → List String)
    → List String
    → List CompatibilityNode
    → List String
    → List String
unfolding add_keys
collect_nodes keys affected [] ids = ids
collect_nodes keys affected (node ∷ nodes) ids =
    collect_nodes keys affected nodes
      (if str_mem node.id affected then add_keys (keys node) ids else ids)

-- DependencyClosure
unfoldable pub dependency_closure : PredictiveGraph → PredictiveGraph → ℤ → DependencyClosure
unfolding seed_of rounds adjacency_of collect_edges collect_nodes map_keys
dependency_closure current candidate radius = record {
  node_ids = map_keys affected;
  edge_ids =
      map_keys (collect_edges affected candidate.edges (collect_edges affected current.edges []));
  event_ids = map_keys (both (λ n. n.member_event_ids));
  posterior_keys = map_keys (both (λ n. n.posterior_keys));
}
  where
    affected : List String
    affected =
        rounds (magnitude radius) (adjacency_of candidate.edges (adjacency_of current.edges []))
          (map_keys (seed_of current candidate)) (seed_of current candidate)

    both : (CompatibilityNode → List String) → List String
    both keys =
        collect_nodes keys affected candidate.nodes (collect_nodes keys affected current.nodes [])
