-- ===== src/Service/Snaps.antt =====
-- internal/service/service.go: `PublishPredictiveSnap`, `validateSnapCertificates`,
-- `GetPredictiveGraph` and `RollbackPredictiveSnap`. The sum and the difference of float64 values
-- are parameters.
pub mod Certified
pub mod Decide
pub mod Confirm
use eventframed.Prelude.{
  ℕ, String, Bool, true, false, not, ◌&&◌, ◌||◌, Option, none, some, List, [], ◌∷◌, ◌==◌, str_eq,
  length, if◌then◌else◌,
}
use eventframed.Prelude.Dict.{Dict, get, put}
use eventframed.Prelude.Float64.{Float64, is_nan, is_inf, lt_f, le_f}
use eventframed.Prelude.Int.{ℤ, pos, lt_int}
use eventframed.Prelude.Text.{is_blank}
use eventframed.Prelude.Word.{inc}
use eventframed.Model.Snapshot.{Time, Snapshot, eq_snapshot, zero_time, before, after}
use eventframed.Model.PredictiveGraph.{
  CompatibilityNode, CompatibilityEdge, PredictiveGraph, ComparisonObligation, DependencyClosure,
  PredictiveSnapRecord,
}
use eventframed.Store.{Result, ok, err, stale_snapshot}
use eventframed.Memory.{Store}
use eventframed.Memory.Graphs.{
  get_predictive_graph, publish_predictive_snap, rollback_predictive_snap,
}
use eventframed.Graph.{node_map, edge_map}
use eventframed.Graph.Candidate.{GraphPolicy, validate_candidate}
use eventframed.Graph.Closure.{dependency_closure}
use eventframed.Graph.Search.{unresolved_burden}
use eventframed.Service.{
  ServiceError, message, stored, invalid_graph, Reply, replied, failed, check_protocol, unit_open,
  finite_nonnegative, then_test,
}

pub record SnapBucketCertificate : Type 0 where
  pub node_id : String
  pub future_diameter_ucb : Float64
  pub diameter_limit : Float64
  pub effective_support : Float64

pub record SnapEdgeCertificate : Type 0 where
  pub edge_id : String
  pub defect_ucb : Float64
  pub defect_limit : Float64

pub record PredictiveSnapRequest : Type 0 where
  pub protocol_version : String
  pub id : String
  pub tenant_id : String
  pub base_snapshot : Snapshot
  pub candidate : PredictiveGraph
  pub obligations : List ComparisonObligation
  pub bucket_certificates : List SnapBucketCertificate
  pub edge_certificates : List SnapEdgeCertificate
  pub design_start : Time
  pub design_end : Time
  pub confirmation_start : Time
  pub confirmation_end : Time
  pub candidate_family_size : ℤ
  pub unchanged_candidate_included : Bool
  pub priority_gain_lcb : Float64
  pub resource_cost_ucb : Float64
  pub proper_risk_increase_ucb : Float64
  pub simultaneous_coverage : Float64
  pub procedure : String
  pub issuer : String
  pub external_audit : Bool

pub record PredictiveSnapResponse : Type 0 where
  pub accepted : Bool
  pub reason : String
  pub graph : PredictiveGraph
  pub closure : DependencyClosure
  pub snapshot : Snapshot

unfoldable pub bucket_map :
    List SnapBucketCertificate → Dict SnapBucketCertificate → Dict SnapBucketCertificate
bucket_map [] out = out
bucket_map (c ∷ rest) out = bucket_map rest (put c.node_id c out)

unfoldable pub edge_certificate_map :
    List SnapEdgeCertificate → Dict SnapEdgeCertificate → Dict SnapEdgeCertificate
edge_certificate_map [] out = out
edge_certificate_map (c ∷ rest) out = edge_certificate_map rest (put c.edge_id c out)

-- The certificate of a bucket is there and passes.
unfoldable pub bucket_passes : GraphPolicy → Option SnapBucketCertificate → Bool
unfolding finite_nonnegative
bucket_passes policy none = false
bucket_passes policy (some c) =
    finite_nonnegative c.future_diameter_ucb
    && finite_nonnegative c.diameter_limit
    && not (lt_f c.diameter_limit c.future_diameter_ucb)
    && finite_nonnegative c.effective_support
    && not (lt_f c.effective_support policy.min_bucket_support)

unfoldable pub edge_passes : Option SnapEdgeCertificate → Bool
unfolding finite_nonnegative
edge_passes none = false
edge_passes (some c) =
    finite_nonnegative c.defect_ucb
    && finite_nonnegative c.defect_limit
    && not (lt_f c.defect_limit c.defect_ucb)

abbrev pub active_bucket : Option CompatibilityNode → Bool
active_bucket none = false
active_bucket (some n) = not (length n.member_event_ids == 0)

abbrev pub retained : Option CompatibilityEdge → Bool
retained none = false
retained (some _) = true

-- The loops of validateSnapCertificates over the closure.
unfoldable pub check_buckets :
    GraphPolicy → Dict CompatibilityNode → Dict SnapBucketCertificate → List String → Bool
unfolding bucket_passes
check_buckets policy nodes buckets [] = true
check_buckets policy nodes buckets (id ∷ rest) =
    (not (active_bucket (get id nodes)) || bucket_passes policy (get id buckets))
    && check_buckets policy nodes buckets rest

unfoldable pub check_edge_certificates :
    Dict CompatibilityEdge → Dict SnapEdgeCertificate → List String → Bool
unfolding edge_passes
check_edge_certificates edges certificates [] = true
check_edge_certificates edges certificates (id ∷ rest) =
    (not (retained (get id edges)) || edge_passes (get id certificates))
    && check_edge_certificates edges certificates rest

-- validateSnapCertificates
unfoldable pub validate_snap_certificates :
    PredictiveSnapRequest → DependencyClosure → GraphPolicy → Option ServiceError
unfolding check_buckets check_edge_certificates bucket_map edge_certificate_map node_map edge_map
validate_snap_certificates r closure policy =
    if not (
      check_buckets policy (node_map r.candidate.nodes []) (bucket_map r.bucket_certificates [])
        closure.node_ids)
    then some (
        message
          "every affected active bucket requires a passing external future-diameter certificate")
    else if not (
        check_edge_certificates (edge_map r.candidate.edges [])
          (edge_certificate_map r.edge_certificates []) closure.edge_ids)
    then some
        (message "every affected retained or new edge requires a passing compatibility certificate")
    else none

-- The texts of a request, and that an audit confirmed it.
unfoldable pub check_snap_texts : PredictiveSnapRequest → Option ServiceError
unfolding is_blank
check_snap_texts r =
    if is_blank r.id || is_blank r.tenant_id || is_blank r.issuer || is_blank r.procedure
    then some (message "snap id, tenant_id, issuer, and procedure are required")
    else if not r.external_audit
    then some (message "predictive snap requires an external confirmation audit")
    else none

unfoldable pub check_snap_candidate :
    Snapshot → GraphPolicy → PredictiveSnapRequest → Option ServiceError
unfolding eq_snapshot validate_candidate
check_snap_candidate current policy r =
    if not (eq_snapshot r.base_snapshot current)
    then some (stored stale_snapshot)
    else if not (str_eq r.candidate.tenant_id r.tenant_id)
    then some (message "candidate graph tenant does not match request")
    else elim (validate_candidate r.candidate policy) [
      | some e ↦ some (invalid_graph e)
      | none ↦ none
    ]

unfoldable pub check_snap_windows : Time → PredictiveSnapRequest → Option ServiceError
check_snap_windows now r =
    if r.design_start == zero_time
      || not (before r.design_start r.design_end)
      || not (before r.design_end r.confirmation_start)
      || not (before r.confirmation_start r.confirmation_end)
      || after r.confirmation_end now
    then some (
        message
          "snap requires disjoint ordered design and confirmation windows available by the current time")
    else none

unfoldable pub check_snap_family : GraphPolicy → PredictiveSnapRequest → Option ServiceError
unfolding unit_open
check_snap_family policy r =
    if lt_int r.candidate_family_size (pos 1)
      || lt_int policy.max_candidate_family r.candidate_family_size
      || not r.unchanged_candidate_included
    then some (message "snap candidate family must be bounded and include the unchanged graph")
    else if not (unit_open r.simultaneous_coverage)
        || lt_f r.simultaneous_coverage policy.min_simultaneous_coverage
    then some (message "snap simultaneous coverage is below policy")
    else none

-- The tests before the graph is read.
unfoldable pub check_snap_request :
    Snapshot → Time → GraphPolicy → PredictiveSnapRequest → Option ServiceError
unfolding check_protocol check_snap_texts check_snap_candidate check_snap_windows check_snap_family
check_snap_request current now policy r = then_test (check_protocol r.protocol_version) (
    then_test (check_snap_texts r) (
      then_test (check_snap_candidate current policy r)
        (then_test (check_snap_windows now r) (check_snap_family policy r))))

unfoldable pub check_snap_bounds : PredictiveSnapRequest → Option ServiceError
unfolding finite_nonnegative
check_snap_bounds r =
    if not (finite_nonnegative r.resource_cost_ucb)
      || is_nan r.priority_gain_lcb
      || is_inf r.priority_gain_lcb
      || not (finite_nonnegative r.proper_risk_increase_ucb)
    then some (message "snap risk, gain, and cost bounds must be finite")
    else none

-- The record that is published.
abbrev pub snap_record :
    PredictiveSnapRequest
    → Snapshot
    → PredictiveGraph
    → DependencyClosure
    → Float64
    → Time
    → PredictiveSnapRecord
snap_record r current graph closure burden now = record {
  id = r.id;
  tenant_id = r.tenant_id;
  previous_graph = graph;
  published_graph = record r.candidate {
    version = inc current.graph_version;
    published_at = now;
    source_snap_id = r.id;
  };
  closure = closure;
  unresolved_burden = burden;
  simultaneous_coverage = r.simultaneous_coverage;
  procedure = r.procedure;
  issuer = r.issuer;
  published_at = now;
  rolled_back = false;
  rollback_reason = "";
}

abbrev pub snap_answer :
    DependencyClosure → Store × Result PredictiveGraph → Store × Reply PredictiveSnapResponse
snap_answer closure (t, err e) = (t, failed (stored e))
snap_answer closure (t, ok g) = (
  t,
  replied (record {
    accepted = true;
    reason = "confirmed predictive snap published";
    graph = g;
    closure = closure;
    snapshot = t.snapshot;
  }),
)

module _ (add subtract : Float64 → Float64 → Float64) (policy : GraphPolicy) where
  -- The acceptance gates fail.
  unfoldable pub gates_fail : PredictiveSnapRequest → Float64 → Bool
  gates_fail r burden =
      le_f (subtract r.priority_gain_lcb r.resource_cost_ucb) policy.min_net_priority_gain
      || lt_f policy.max_proper_risk_increase r.proper_risk_increase_ucb
      || lt_f policy.max_unresolved_burden burden

  -- What follows the computation of the burden.
  unfoldable pub decide_snap :
      Store
      → Time
      → PredictiveSnapRequest
      → Snapshot
      → PredictiveGraph
      → DependencyClosure
      → Float64
      → Store × Reply PredictiveSnapResponse
  unfolding validate_snap_certificates check_snap_bounds gates_fail publish_predictive_snap
  decide_snap at_publish now r current graph closure burden =
      elim (then_test (validate_snap_certificates r closure policy) (check_snap_bounds r)) [
        | some e ↦ (at_publish, failed e)
        | none ↦ elim (gates_fail r burden) [
          | true ↦ (
            at_publish,
            replied (record {
              accepted = false;
              reason = "candidate failed confirmation acceptance gates";
              graph = graph;
              closure = closure;
              snapshot = current;
            }),
          )
          | false ↦
              snap_answer closure (
                publish_predictive_snap at_publish (snap_record r current graph closure burden now))
        ]
      ]

  -- What follows the reading of the graph.
  unfoldable pub confirm_snap :
      Store
      → Time
      → PredictiveSnapRequest
      → Snapshot
      → PredictiveGraph
      → DependencyClosure
      → Store × Reply PredictiveSnapResponse
  unfolding unresolved_burden decide_snap
  confirm_snap at_publish now r current graph closure =
      if not (graph.version == r.base_snapshot.graph_version)
      then (at_publish, failed (stored stale_snapshot))
      else if length closure.node_ids == 0 && length closure.edge_ids == 0
      then (
        at_publish,
        replied (record {
          accepted = false;
          reason = "candidate is identical to the published graph";
          graph = graph;
          closure = closure;
          snapshot = current;
        }),
      )
      else elim (unresolved_burden add r.candidate r.obligations) [
        | none ↦ (
          at_publish,
          failed (message "comparison obligations require distinct endpoints and positive weight"),
        )
        | some burden ↦ decide_snap at_publish now r current graph closure burden
      ]

  -- PublishPredictiveSnap, over the states at its three calls of the store.
  unfoldable pub request_snap :
      Store → Store → Store → Time → PredictiveSnapRequest → Store × Reply PredictiveSnapResponse
  unfolding check_snap_request get_predictive_graph dependency_closure confirm_snap
  request_snap at_snapshot at_graph at_publish now r =
      elim (check_snap_request at_snapshot.snapshot now policy r) [
        | some e ↦ (at_publish, failed e)
        | none ↦
            confirm_snap at_publish now r at_snapshot.snapshot
              (get_predictive_graph at_graph r.tenant_id)
              (dependency_closure (get_predictive_graph at_graph r.tenant_id) r.candidate
                policy.closure_radius)
      ]

-- GetPredictiveGraph, over the states at its two calls of the store.
unfoldable pub request_graph : Store → Store → String → Reply (PredictiveGraph × Snapshot)
unfolding is_blank get_predictive_graph
request_graph at_graph at_snapshot tenant_id =
    if is_blank tenant_id
    then failed (message "tenant_id is required")
    else if not
        ((get_predictive_graph at_graph tenant_id).version == at_snapshot.snapshot.graph_version)
    then failed (stored stale_snapshot)
    else replied (get_predictive_graph at_graph tenant_id, at_snapshot.snapshot)

pub record RollbackSnapRequest : Type 0 where
  pub protocol_version : String
  pub tenant_id : String
  pub snap_id : String
  pub reason : String

abbrev rolled_back_answer : Store × Result PredictiveGraph → Store × Reply PredictiveSnapResponse
rolled_back_answer (t, err e) = (t, failed (stored e))
rolled_back_answer (t, ok g) = (
  t,
  replied (record {
    accepted = true;
    reason = "predictive snap rolled back; dependent state remains invalidated";
    graph = g;
    closure = record { node_ids = []; edge_ids = []; event_ids = []; posterior_keys = [] };
    snapshot = t.snapshot;
  }),
)

unfoldable pub check_rollback : RollbackSnapRequest → Option ServiceError
unfolding is_blank
check_rollback r =
    if str_eq r.tenant_id "" || str_eq r.snap_id "" || is_blank r.reason
    then some (message "tenant_id, snap_id, and reason are required")
    else none

-- RollbackPredictiveSnap
unfoldable pub request_rollback :
    Store → Time → RollbackSnapRequest → Store × Reply PredictiveSnapResponse
unfolding check_protocol check_rollback rollback_predictive_snap
request_rollback s now r = elim (then_test (check_protocol r.protocol_version) (check_rollback r)) [
  | some e ↦ (s, failed e)
  | none ↦ rolled_back_answer (rollback_predictive_snap s r.tenant_id r.snap_id r.reason now)
]
