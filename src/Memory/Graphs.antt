-- ===== src/Memory/Graphs.antt =====
-- internal/store/memorystore/store.go: the predictive graph of a tenant, its snaps and rollbacks.
pub mod Fence
pub mod Rollback
use Prim.Native.String.{◌++◌ as str_append}
use eventframed.Prelude.{
  String, true, false, not, ◌&&◌, ◌||◌, Option, none, some, List, [], ◌∷◌, ◌==◌, str_eq,
  if◌then◌else◌, str_mem,
}
use eventframed.Prelude.Dict.{Dict, get, put, ensure, get2, put2, map_values2}
use eventframed.Model.Snapshot.{Time, zero_time}
use eventframed.Model.PredictiveGraph.{
  PredictiveGraph, DependencyClosure, PredictiveSnapRecord, eq_graph, eq_snap,
}
use eventframed.Model.Posterior.{BayesianPosterior, ResidualRecord}
use eventframed.Store.{Result, ok, err, snap_conflict, snap_not_found}
use eventframed.Memory.{Store, bump_graph}

abbrev empty_graph : String → PredictiveGraph
empty_graph tenant_id = record {
  tenant_id = tenant_id;
  version = 0;
  nodes = [];
  edges = [];
  published_at = zero_time;
  source_snap_id = "";
}

-- A missing graph reads as the zero graph, whose tenant is "".
abbrev pub own_graph : String → Option PredictiveGraph → PredictiveGraph
own_graph tenant_id none = empty_graph tenant_id
own_graph tenant_id (some g) = if str_eq g.tenant_id "" then empty_graph tenant_id else g

-- GetPredictiveGraph
unfoldable pub get_predictive_graph : Store → String → PredictiveGraph
unfolding get
get_predictive_graph s tenant_id =
    let g = own_graph tenant_id (get tenant_id s.graphs) in
    record g { version = s.snapshot.graph_version }

-- The loops of `invalidateClosure`.
abbrev pub written_back :
    String
    → String
    → Option BayesianPosterior
    → Dict (Dict BayesianPosterior)
    → Dict (Dict BayesianPosterior)
written_back tenant_id key none posteriors = posteriors
written_back tenant_id key (some p) posteriors =
    put2 tenant_id key (record p { certified = false }) posteriors

unfoldable pub uncertify :
    String → List String → Dict (Dict BayesianPosterior) → Dict (Dict BayesianPosterior)
uncertify tenant_id [] posteriors = posteriors
uncertify tenant_id (key ∷ keys) posteriors =
    uncertify tenant_id keys (written_back tenant_id key (get2 tenant_id key posteriors) posteriors)

unfoldable pub deactivate : DependencyClosure → ResidualRecord → ResidualRecord
deactivate closure r =
    if str_mem r.posterior_key closure.posterior_keys || str_mem r.source_event_id closure.event_ids
    then record r { active = false }
    else r

-- invalidateClosure
unfoldable pub invalidate_closure : Store → String → DependencyClosure → Store
unfolding uncertify deactivate
invalidate_closure s tenant_id closure = record s {
  posteriors = uncertify tenant_id closure.posterior_keys s.posteriors;
  residuals = map_values2 tenant_id (deactivate closure) s.residuals;
}

-- The writes of `PublishPredictiveSnap` for a new snap.
unfoldable pub publish_snap : Store → PredictiveSnapRecord → Store × PredictiveGraph
unfolding bump_graph invalidate_closure
publish_snap s r =
    let snapshot = bump_graph s.snapshot in
    let g = record r.published_graph { version = snapshot.graph_version } in
    let t = invalidate_closure s r.tenant_id r.closure in
    (
      record t {
        snapshot = snapshot;
        graphs = put r.tenant_id g s.graphs;
        snaps = put2 r.tenant_id r.id (record r { published_graph = g }) s.snaps;
      },
      g,
    )

unfoldable pub publish_checked :
    Store → PredictiveSnapRecord → Option PredictiveSnapRecord → Store × Result PredictiveGraph
unfolding publish_snap get_predictive_graph
publish_checked s r (some existing) =
    if eq_snap existing r
    then (s, ok (get_predictive_graph s r.tenant_id))
    else (s, err snap_conflict)
publish_checked s r none = let (t, g) = publish_snap s r in (t, ok g)

-- PublishPredictiveSnap; the snapshot that it returns is the new state's.
unfoldable pub publish_predictive_snap :
    Store → PredictiveSnapRecord → Store × Result PredictiveGraph
unfolding publish_checked get_predictive_graph eq_graph ensure
publish_predictive_snap s r =
    if eq_graph (get_predictive_graph s r.tenant_id) r.previous_graph
      && s.snapshot.graph_version == r.previous_graph.version
    then publish_checked (record s { snaps = ensure r.tenant_id s.snaps }) r
        (get2 r.tenant_id r.id s.snaps)
    else (s, err snap_conflict)

abbrev pub source_of : Option PredictiveGraph → String
source_of none = ""
source_of (some g) = g.source_snap_id

-- The writes of `RollbackPredictiveSnap`, at the wall-clock time `now`.
unfoldable pub rollback_snap :
    Store → String → String → String → Time → PredictiveSnapRecord → Store × PredictiveGraph
unfolding bump_graph invalidate_closure
rollback_snap s tenant_id snap_id reason now r =
    let snapshot = bump_graph s.snapshot in
    let g = record r.previous_graph {
      version = snapshot.graph_version;
      published_at = now;
      source_snap_id = str_append "rollback:" snap_id;
    } in
    let t = invalidate_closure s tenant_id r.closure in
    (
      record t {
        snapshot = snapshot;
        graphs = put tenant_id g s.graphs;
        snaps =
            put2 tenant_id snap_id (record r { rolled_back = true; rollback_reason = reason })
              s.snaps;
      },
      g,
    )

unfoldable pub rollback_found :
    Store
    → String
    → String
    → String
    → Time
    → Option PredictiveSnapRecord
    → Store × Result PredictiveGraph
unfolding rollback_snap
rollback_found s tenant_id snap_id reason now none = (s, err snap_not_found)
rollback_found s tenant_id snap_id reason now (some r) =
    let (t, g) = rollback_snap s tenant_id snap_id reason now r in
    if r.rolled_back || not (str_eq (source_of (get tenant_id s.graphs)) snap_id)
    then (s, err snap_conflict)
    else (t, ok g)

-- RollbackPredictiveSnap
unfoldable pub rollback_predictive_snap :
    Store → String → String → String → Time → Store × Result PredictiveGraph
unfolding rollback_found
rollback_predictive_snap s tenant_id snap_id reason now =
    rollback_found s tenant_id snap_id reason now (get2 tenant_id snap_id s.snaps)
