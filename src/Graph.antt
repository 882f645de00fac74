-- ===== src/Graph.antt =====
-- internal/graph/graph.go: the maps of a predictive graph and the closure of a change. A set of
-- strings, which the source keeps as a map without values, is a list of its elements.
pub mod Closure
pub mod Seeds
pub mod Covers
pub mod Search
pub mod Reach
pub mod Burden
pub mod Candidate
pub mod Sound
use eventframed.Prelude.{
  String, Bool, true, false, Option, none, some, List, [], ◌∷◌, ◌++◌, str_mem, if◌then◌else◌,
}
use eventframed.Prelude.Dict.{Dict, get, put}
use eventframed.Prelude.Sort.{sort_by, lt_str}
use eventframed.Model.PredictiveGraph.{CompatibilityNode, CompatibilityEdge, PredictiveGraph}

-- set[key] = struct{}{}
unfoldable pub add_key : String → List String → List String
add_key key set = if str_mem key set then set else key ∷ set

unfoldable pub add_keys : List String → List String → List String
unfolding add_key
add_keys [] set = set
add_keys (key ∷ keys) set = add_keys keys (add_key key set)

-- nodeMap: a later node of the same id replaces an earlier one.
unfoldable pub node_map : List CompatibilityNode → Dict CompatibilityNode → Dict CompatibilityNode
node_map [] out = out
node_map (node ∷ nodes) out = node_map nodes (put node.id node out)

-- edgeMap
unfoldable pub edge_map : List CompatibilityEdge → Dict CompatibilityEdge → Dict CompatibilityEdge
edge_map [] out = out
edge_map (edge ∷ edges) out = edge_map edges (put edge.id edge out)

-- mapKeys of a set
unfoldable pub map_keys : List String → List String
unfolding sort_by
map_keys set = sort_by lt_str set

abbrev pub or_nil : Option (List String) → List String
or_nil none = []
or_nil (some xs) = xs

-- The loop that builds the adjacency in both directions.
unfoldable pub link : String → String → Dict (List String) → Dict (List String)
link from to adjacency = put from (or_nil (get from adjacency) ++ (to ∷ [])) adjacency

unfoldable pub adjacency_of : List CompatibilityEdge → Dict (List String) → Dict (List String)
unfolding link
adjacency_of [] adjacency = adjacency
adjacency_of (edge ∷ edges) adjacency =
    adjacency_of edges (link edge.to edge.from (link edge.from edge.to adjacency))
