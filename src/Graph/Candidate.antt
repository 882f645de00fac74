-- ===== src/Graph/Candidate.antt =====
-- internal/graph/graph.go: `Policy` and `ValidateCandidate`.
use eventframed.Prelude.{
  String, Bool, false, not, ◌&&◌, ◌||◌, Option, none, some, List, [], ◌∷◌, str_eq, str_mem, length,
  if◌then◌else◌,
}
use eventframed.Prelude.Float64.{Float64, le_f, lt_f, zero_f, one_f}
use eventframed.Prelude.Int.{ℤ, pos, lt_int, le_int}
use eventframed.Prelude.Text.{is_blank}
use eventframed.Agency.Build.{finite}
use eventframed.Model.PredictiveGraph.{CompatibilityNode, CompatibilityEdge, PredictiveGraph}

pub record GraphPolicy : Type 0 where
  pub max_nodes : ℤ
  pub max_edges : ℤ
  pub max_candidate_family : ℤ
  pub closure_radius : ℤ
  pub min_net_priority_gain : Float64
  pub max_proper_risk_increase : Float64
  pub max_unresolved_burden : Float64
  pub min_simultaneous_coverage : Float64
  pub min_bucket_support : Float64

-- Policy.Valid
unfoldable pub graph_policy_valid : GraphPolicy → Bool
unfolding finite
graph_policy_valid p =
    lt_int (pos 0) p.max_nodes
    && le_int (pos 0) p.max_edges
    && lt_int (pos 0) p.max_candidate_family
    && le_int (pos 0) p.closure_radius
    && finite p.min_net_priority_gain
    && lt_f zero_f p.min_net_priority_gain
    && finite p.max_proper_risk_increase
    && le_f zero_f p.max_proper_risk_increase
    && finite p.max_unresolved_burden
    && le_f zero_f p.max_unresolved_burden
    && lt_f zero_f p.min_simultaneous_coverage
    && le_f p.min_simultaneous_coverage one_f
    && lt_f zero_f p.min_bucket_support

-- The errors of ValidateCandidate, one for each message.
pub data GraphInvalid : Type 0 where
  capacity node_law node_kind node_unique node_members edge_shape edge_effect_unknown edge_source
        edge_target edge_unique :
      GraphInvalid

abbrev pub retrieval_usefulness_horizon : String
retrieval_usefulness_horizon = "retrieval-usefulness-v1"

-- The loop of hasDuplicateOrEmpty.
unfoldable pub duplicate_or_empty : List String → List String → Bool
unfolding is_blank
duplicate_or_empty seen [] = false
duplicate_or_empty seen (value ∷ rest) =
    is_blank value || str_mem value seen || duplicate_or_empty (value ∷ seen) rest

-- hasDuplicateOrEmpty
unfoldable pub has_duplicate_or_empty : List String → Bool
unfolding duplicate_or_empty
has_duplicate_or_empty values = duplicate_or_empty [] values

-- edgeEffect
unfoldable pub edge_effect : CompatibilityEdge → String
edge_effect e = if str_eq e.effect "" then "compatible" else e.effect

unfoldable pub known_kind : String → Bool
known_kind kind =
    str_eq kind "bucket"
    || str_eq kind "predictor"
    || str_eq kind "resolution"
    || str_eq kind "agent"

unfoldable pub known_effect : String → Bool
known_effect effect =
    str_eq effect "compatible" || str_eq effect "supports" || str_eq effect "supersedes"

-- One round of the loop over the nodes; `nodes` is the set so far.
unfoldable pub check_node : List String → CompatibilityNode → Option GraphInvalid
unfolding is_blank known_kind has_duplicate_or_empty
check_node nodes n =
    if is_blank n.id || not (str_eq n.law_space retrieval_usefulness_horizon)
    then some node_law
    else if not (known_kind n.kind)
    then some node_kind
    else if str_mem n.id nodes
    then some node_unique
    else if has_duplicate_or_empty n.member_event_ids || has_duplicate_or_empty n.posterior_keys
    then some node_members
    else none

unfoldable pub check_nodes : List String → List CompatibilityNode → Option GraphInvalid
unfolding check_node
check_nodes nodes [] = none
check_nodes nodes (n ∷ rest) =
    let others = check_nodes (n.id ∷ nodes) rest in
    elim (check_node nodes n) [ some e ↦ some e | none ↦ others ]

-- One round of the loop over the edges, over the ids of all nodes and the edges so far.
unfoldable pub check_edge : List String → List String → CompatibilityEdge → Option GraphInvalid
unfolding is_blank finite known_effect edge_effect
check_edge nodes edges e =
    if is_blank e.id
      || str_eq e.from e.to
      || not (str_eq e.comparison_map "identity_bernoulli")
      || not (finite e.weight)
      || le_f e.weight zero_f
    then some edge_shape
    else if not (known_effect (edge_effect e))
    then some edge_effect_unknown
    else if not (str_mem e.from nodes)
    then some edge_source
    else if not (str_mem e.to nodes)
    then some edge_target
    else if str_mem e.id edges
    then some edge_unique
    else none

unfoldable pub check_edges :
    List String → List String → List CompatibilityEdge → Option GraphInvalid
unfolding check_edge
check_edges nodes edges [] = none
check_edges nodes edges (e ∷ rest) =
    let others = check_edges nodes (e.id ∷ edges) rest in
    elim (check_edge nodes edges e) [ some invalid ↦ some invalid | none ↦ others ]

unfoldable pub node_ids : List CompatibilityNode → List String
node_ids [] = []
node_ids (n ∷ rest) = n.id ∷ node_ids rest

-- ValidateCandidate; `none` is the nil error.
unfoldable pub validate_candidate : PredictiveGraph → GraphPolicy → Option GraphInvalid
unfolding check_nodes check_edges node_ids
validate_candidate candidate policy =
    if lt_int policy.max_nodes (pos (length candidate.nodes))
      || lt_int policy.max_edges (pos (length candidate.edges))
    then some capacity
    else elim (check_nodes [] candidate.nodes) [
      | some e ↦ some e
      | none ↦ check_edges (node_ids candidate.nodes) [] candidate.edges
    ]
