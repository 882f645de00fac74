-- ===== src/Model/PredictiveGraph.antt =====
-- internal/model/graph.go: the published graph, the dependency closure and the record of a snap.
use eventframed.Prelude.{ℕ, String, Bool, List, ◌&&◌}
use eventframed.Prelude.Equal.{
  Equal, ◌===◌, number_equal, string_equal, float_equal, bool_equal, list_equal,
}
use eventframed.Prelude.Float64.{Float64}
use eventframed.Model.Snapshot.{Time}

pub record CompatibilityNode : Type 0 where
  pub id : String
  pub kind : String
  pub member_event_ids : List String
  pub posterior_keys : List String
  pub law_space : String

pub record CompatibilityEdge : Type 0 where
  pub id : String
  pub from : String
  pub to : String
  pub comparison_map : String
  pub effect : String
  pub weight : Float64

pub record PredictiveGraph : Type 0 where
  pub tenant_id : String
  pub version : ℕ
  pub nodes : List CompatibilityNode
  pub edges : List CompatibilityEdge
  pub published_at : Time
  pub source_snap_id : String

pub record ComparisonObligation : Type 0 where
  pub from : String
  pub to : String
  pub weight : Float64

pub record DependencyClosure : Type 0 where
  pub node_ids : List String
  pub edge_ids : List String
  pub event_ids : List String
  pub posterior_keys : List String

pub record PredictiveSnapRecord : Type 0 where
  pub id : String
  pub tenant_id : String
  pub previous_graph : PredictiveGraph
  pub published_graph : PredictiveGraph
  pub closure : DependencyClosure
  pub unresolved_burden : Float64
  pub simultaneous_coverage : Float64
  pub procedure : String
  pub issuer : String
  pub published_at : Time
  pub rolled_back : Bool
  pub rollback_reason : String

-- reflect.DeepEqual on these types
abbrev eq_node : CompatibilityNode → CompatibilityNode → Bool
eq_node a b =
    a.id === b.id
    && a.kind === b.kind
    && a.member_event_ids === b.member_event_ids
    && a.posterior_keys === b.posterior_keys
    && a.law_space === b.law_space

instance abbrev pub node_equal : Equal CompatibilityNode
node_equal = record { equal = eq_node }

abbrev eq_edge : CompatibilityEdge → CompatibilityEdge → Bool
eq_edge a b =
    a.id === b.id
    && a.from === b.from
    && a.to === b.to
    && a.comparison_map === b.comparison_map
    && a.effect === b.effect
    && a.weight === b.weight

instance abbrev pub edge_equal : Equal CompatibilityEdge
edge_equal = record { equal = eq_edge }

unfoldable pub eq_graph : PredictiveGraph → PredictiveGraph → Bool
eq_graph a b =
    a.tenant_id === b.tenant_id
    && a.version === b.version
    && a.nodes === b.nodes
    && a.edges === b.edges
    && a.published_at === b.published_at
    && a.source_snap_id === b.source_snap_id

eq_closure : DependencyClosure → DependencyClosure → Bool
eq_closure a b =
    a.node_ids === b.node_ids
    && a.edge_ids === b.edge_ids
    && a.event_ids === b.event_ids
    && a.posterior_keys === b.posterior_keys

unfoldable pub eq_snap : PredictiveSnapRecord → PredictiveSnapRecord → Bool
unfolding eq_graph eq_closure
eq_snap a b =
    a.id === b.id
    && a.tenant_id === b.tenant_id
    && eq_graph a.previous_graph b.previous_graph
    && eq_graph a.published_graph b.published_graph
    && eq_closure a.closure b.closure
    && a.unresolved_burden === b.unresolved_burden
    && a.simultaneous_coverage === b.simultaneous_coverage
    && a.procedure === b.procedure
    && a.issuer === b.issuer
    && a.published_at === b.published_at
    && a.rolled_back === b.rolled_back
    && a.rollback_reason === b.rollback_reason
