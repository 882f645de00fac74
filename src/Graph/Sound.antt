-- ===== src/Graph/Sound.antt =====
-- What a validated candidate graph is like.
use eventframed.Prelude.{
  String, true, false, not, none, List, [], ◌∷◌, ◌≡◌, refl, arith, str_eq, str_mem, length, All,
  all,
}
use eventframed.Prelude.Distinct.{distinct, apart, apart-distinct}
use eventframed.Prelude.Float64.{lt_f, zero_f}
use eventframed.Prelude.Int.{pos, lt_int}
use eventframed.Prelude.Text.{is_blank}
use eventframed.Agency.Build.{finite}
use eventframed.Model.PredictiveGraph.{CompatibilityNode, CompatibilityEdge, PredictiveGraph}
use eventframed.Graph.Candidate.{
  GraphPolicy, known_kind, known_effect, edge_effect, retrieval_usefulness_horizon,
  duplicate_or_empty, has_duplicate_or_empty, check_node, check_nodes, check_edge, check_edges,
  node_ids, validate_candidate,
}

abbrev pub edge_ids : List CompatibilityEdge → List String
edge_ids [] = []
edge_ids (e ∷ rest) = e.id ∷ edge_ids rest

-- Blank in no element, and repeating none.
abbrev pub Tidy : List String → Type 0
Tidy xs = (distinct xs ≡ true) × (all (λ x. not (is_blank x)) xs ≡ true)

pub record SoundNode (n : CompatibilityNode) : Type 0 where
  pub named : is_blank n.id ≡ false
  pub law : str_eq n.law_space retrieval_usefulness_horizon ≡ true
  pub kind : known_kind n.kind ≡ true
  pub members : Tidy n.member_event_ids
  pub keys : Tidy n.posterior_keys

pub record SoundEdge (nodes : List String) (e : CompatibilityEdge) : Type 0 where
  pub named : is_blank e.id ≡ false
  pub ends : str_eq e.from e.to ≡ false
  pub source : str_mem e.from nodes ≡ true
  pub target : str_mem e.to nodes ≡ true
  pub comparison : str_eq e.comparison_map "identity_bernoulli" ≡ true
  pub effect : known_effect (edge_effect e) ≡ true
  pub finite_weight : finite e.weight ≡ true
  pub positive : lt_f zero_f e.weight ≡ true

pub record SoundGraph (g : PredictiveGraph) (policy : GraphPolicy) : Type 0 where
  pub few_nodes : lt_int policy.max_nodes (pos (length g.nodes)) ≡ false
  pub few_edges : lt_int policy.max_edges (pos (length g.edges)) ≡ false
  pub nodes_once : distinct (node_ids g.nodes) ≡ true
  pub edges_once : distinct (edge_ids g.edges) ≡ true
  pub each_node : All SoundNode g.nodes
  pub each_edge : All (SoundEdge (node_ids g.nodes)) g.edges

duplicate_or_empty-Tidy :
    (seen xs : List String)
    → duplicate_or_empty seen xs ≡ false
    → (apart seen xs ≡ true) × (all (λ x. not (is_blank x)) xs ≡ true)
unfolding duplicate_or_empty
duplicate_or_empty-Tidy seen [] h = (refl, refl)
duplicate_or_empty-Tidy seen (x ∷ xs) h =
    let (once, filled) = duplicate_or_empty-Tidy (x ∷ seen) xs (ground arith) in
    (ground arith, ground arith)

has_duplicate_or_empty-Tidy : (xs : List String) → has_duplicate_or_empty xs ≡ false → Tidy xs
unfolding has_duplicate_or_empty
has_duplicate_or_empty-Tidy xs h =
    let (once, filled) = duplicate_or_empty-Tidy [] xs h in (apart-distinct [] xs once, filled)

check_node-Sound :
    (nodes : List String) (n : CompatibilityNode)
    → check_node nodes n ≡ none
    → SoundNode n × (str_mem n.id nodes ≡ false)
unfolding check_node
check_node-Sound nodes n h = (
  record {
    named = ground arith;
    law = ground arith;
    kind = ground arith;
    members = has_duplicate_or_empty-Tidy n.member_event_ids (ground arith);
    keys = has_duplicate_or_empty-Tidy n.posterior_keys (ground arith);
  },
  ground arith,
)

check_nodes-Sound :
    (seen : List String) (nodes : List CompatibilityNode)
    → check_nodes seen nodes ≡ none
    → All SoundNode nodes × (apart seen (node_ids nodes) ≡ true)
unfolding check_nodes node_ids
check_nodes-Sound seen [] h = (tt, refl)
check_nodes-Sound seen (n ∷ nodes) h =
    let (sound, new) = check_node-Sound seen n (ground arith) in
    let (rest, once) = check_nodes-Sound (n.id ∷ seen) nodes (ground arith) in
    ((sound, rest), ground arith)

check_edge-Sound :
    (nodes edges : List String) (e : CompatibilityEdge)
    → check_edge nodes edges e ≡ none
    → SoundEdge nodes e × (str_mem e.id edges ≡ false)
unfolding check_edge finite
check_edge-Sound nodes edges e h = (ground arith, ground arith)

check_edges-Sound :
    (nodes seen : List String) (edges : List CompatibilityEdge)
    → check_edges nodes seen edges ≡ none
    → All (SoundEdge nodes) edges × (apart seen (edge_ids edges) ≡ true)
unfolding check_edges
check_edges-Sound nodes seen [] h = (tt, refl)
check_edges-Sound nodes seen (e ∷ edges) h =
    let (sound, new) = check_edge-Sound nodes seen e (ground arith) in
    let (rest, once) = check_edges-Sound nodes (e.id ∷ seen) edges (ground arith) in
    ((sound, rest), ground arith)

-- A candidate that is validated is within the policy's numbers of nodes and edges; its nodes have
-- different ids that are not blank, the supported kinds and law space, and members and keys that
-- are not blank and not repeated; and its edges have different ids that are not blank, two
-- different ends among the nodes, a finite positive weight and a supported comparison and effect.
pub validate_candidate-SoundGraph :
    (g : PredictiveGraph) (policy : GraphPolicy)
    → validate_candidate g policy ≡ none
    → SoundGraph g policy
unfolding validate_candidate
validate_candidate-SoundGraph g policy h =
    let (nodes, nodes_apart) = check_nodes-Sound [] g.nodes (ground arith) in
    let (edges, edges_apart) = check_edges-Sound (node_ids g.nodes) [] g.edges (ground arith) in
    record {
      few_nodes = ground arith;
      few_edges = ground arith;
      nodes_once = apart-distinct [] (node_ids g.nodes) nodes_apart;
      edges_once = apart-distinct [] (edge_ids g.edges) edges_apart;
      each_node = nodes;
      each_edge = edges;
    }
