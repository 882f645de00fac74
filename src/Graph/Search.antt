-- ===== src/Graph/Search.antt =====
-- internal/graph/graph.go: `reachable` and `UnresolvedBurden`. The sum of the weights is float64
-- arithmetic and a parameter.
use eventframed.Prelude.{
  ℕ, zero, suc, String, Bool, true, false, not, ◌||◌, Option, none, some, List, [], ◌∷◌, ◌++◌,
  str_eq, str_mem, length, if◌then◌else◌, is_some,
}
use eventframed.Prelude.Dict.{Dict, get}
use eventframed.Prelude.Float64.{Float64, le_f, zero_f}
use eventframed.Agency.Build.{finite}
use eventframed.Model.PredictiveGraph.{CompatibilityNode, PredictiveGraph, ComparisonObligation}
use eventframed.Graph.{node_map, or_nil, adjacency_of}

-- The loop over the neighbours of one node; `none` is the return of true at `to`.
unfoldable pub scan :
    String → List String → List String → List String → Option (List String × List String)
scan to [] seen queue = some (seen, queue)
scan to (next ∷ rest) seen queue =
    let visited = scan to rest seen queue in
    let fresh = scan to rest (next ∷ seen) (queue ++ (next ∷ [])) in
    if str_eq next to then none else if str_mem next seen then visited else fresh

-- The loop over the queue; `none` means that the fuel ran out.
unfoldable pub search : ℕ → Dict (List String) → String → List String → List String → Option Bool
unfolding scan
search fuel adjacency to seen [] = some false
search zero adjacency to seen (current ∷ queue) = none
search (suc fuel) adjacency to seen (current ∷ queue) =
    elim (scan to (or_nil (get current adjacency)) seen queue) [
      | none ↦ some true
      | some (seen', queue') ↦ search fuel adjacency to seen' queue'
    ]

-- All neighbours of all nodes; the search queues each of them at most once.
unfoldable pub names : Dict (List String) → List String
names [] = []
names ((key, neighbors) ∷ adjacency) = neighbors ++ names adjacency

unfoldable pub answered : Option Bool → Bool
answered none = false
answered (some b) = b

unfoldable pub search_all : Dict (List String) → String → String → Option Bool
unfolding search names
search_all adjacency from to =
    search (suc (length (names adjacency))) adjacency to (from ∷ []) (from ∷ [])

-- reachable
unfoldable pub reachable : Dict (List String) → String → String → Bool
unfolding search_all answered
reachable adjacency from to = answered (search_all adjacency from to)

module _ (add : Float64 → Float64 → Float64) where
  -- The loop over the obligations; `none` is the error.
  unfoldable pub burden_loop :
      Dict (List String)
      → Dict CompatibilityNode
      → Float64
      → List ComparisonObligation
      → Option Float64
  unfolding reachable finite
  burden_loop adjacency nodes burden [] = some burden
  burden_loop adjacency nodes burden (o ∷ rest) =
      let resolved = burden_loop adjacency nodes burden rest in
      let charged = burden_loop adjacency nodes (add burden o.weight) rest in
      if str_eq o.from o.to || not (finite o.weight) || le_f o.weight zero_f
      then none
      else if not (is_some (get o.from nodes)) || not (reachable adjacency o.from o.to)
      then charged
      else resolved

  -- UnresolvedBurden
  unfoldable pub unresolved_burden : PredictiveGraph → List ComparisonObligation → Option Float64
  unfolding burden_loop adjacency_of node_map
  unresolved_burden candidate obligations =
      burden_loop (adjacency_of candidate.edges []) (node_map candidate.nodes []) zero_f obligations
