-- ===== src/Service/Snaps/Decide.antt =====
-- An accepted answer of `PublishPredictiveSnap` is that of a publication by the store.
use eventframed.Prelude.{
  true, false, ◌&&◌, none, some, ◌≡◌, inl, inr, refl, arith, ◌==◌, length, Bool-cases, Option-cases,
}
use eventframed.Prelude.Float64.{Float64}
use eventframed.Model.Snapshot.{Time, Snapshot}
use eventframed.Model.PredictiveGraph.{PredictiveGraph, DependencyClosure}
use eventframed.Store.{Result, ok, err}
use eventframed.Memory.{Store}
use eventframed.Memory.Graphs.{publish_predictive_snap}
use eventframed.Graph.Candidate.{GraphPolicy}
use eventframed.Graph.Search.{unresolved_burden}
use eventframed.Service.{Reply, replied, then_test, then_test-none}
use eventframed.Service.Snaps.{
  PredictiveSnapRequest, PredictiveSnapResponse, validate_snap_certificates, check_snap_bounds,
  snap_record, snap_answer, gates_fail, decide_snap, confirm_snap,
}

module _ (add subtract : Float64 → Float64 → Float64) (policy : GraphPolicy) where
  -- An accepted answer is that of a publication.
  pub record Publication (at_publish : Store) (now : Time) (r : PredictiveSnapRequest)
      (current : Snapshot) (graph : PredictiveGraph) (closure : DependencyClosure)
      (outcome : Store × Reply PredictiveSnapResponse) : Type 0 where
    pub burden : Float64
    pub weighed : unresolved_burden add r.candidate r.obligations ≡ some burden
    pub version : (graph.version == r.base_snapshot.graph_version) ≡ true
    pub certificates : validate_snap_certificates r closure policy ≡ none
    pub gates : gates_fail add subtract policy r burden ≡ false
    pub answer : PredictiveGraph
    pub accepted :
        (publish_predictive_snap at_publish (snap_record r current graph closure burden now)).1
        ≡ ok answer
    pub state :
        outcome.0
        ≡ (publish_predictive_snap at_publish (snap_record r current graph closure burden now)).0

  snap_answer-ok :
      (closure : DependencyClosure) (x : Store × Result PredictiveGraph)
      {a : PredictiveSnapResponse}
      → (snap_answer closure x).1 ≡ replied a
      → (g : PredictiveGraph) × (x.1 ≡ ok g) × ((snap_answer closure x).0 ≡ x.0)
  snap_answer-ok closure (t, err e) h = absurd (ground arith)
  snap_answer-ok closure (t, ok g) h = (g, refl, refl)

  decide_snap-Publication :
      (at_publish : Store) (now : Time) (r : PredictiveSnapRequest) (current : Snapshot)
      (graph : PredictiveGraph) (closure : DependencyClosure) (burden : Float64)
      {a : PredictiveSnapResponse}
      → unresolved_burden add r.candidate r.obligations ≡ some burden
      → (graph.version == r.base_snapshot.graph_version) ≡ true
      → (decide_snap add subtract policy at_publish now r current graph closure burden).1
        ≡ replied a
      → a.accepted ≡ true
      → Publication at_publish now r current graph closure
          (decide_snap add subtract policy at_publish now r current graph closure burden)
  unfolding decide_snap
  decide_snap-Publication at_publish now r current graph closure burden {a} weighed same h k =
      elim (Option-cases
        (then_test (validate_snap_certificates r closure policy) (check_snap_bounds r))) [
          | inr (x, e) ↦ absurd (ground arith)
          | inl e ↦ elim (Bool-cases (gates_fail add subtract policy r burden)) [
            | inl fails ↦ absurd (ground arith)
            | inr passes ↦
                let (g, accepted, state) =
                  snap_answer-ok closure
                    (publish_predictive_snap at_publish
                      (snap_record r current graph closure burden now))
                    {a = a} (rw (e, passes, decide_snap) at h) in
                record {
                  burden = burden;
                  weighed = weighed;
                  version = same;
                  certificates =
                      (then_test-none (validate_snap_certificates r closure policy) _ e).0;
                  gates = passes;
                  answer = g;
                  accepted = accepted;
                  state = rw (e, passes, decide_snap) state;
                }
          ]
        ]

  pub confirm_snap-Publication :
      (at_publish : Store) (now : Time) (r : PredictiveSnapRequest) (current : Snapshot)
      (graph : PredictiveGraph) (closure : DependencyClosure) {a : PredictiveSnapResponse}
      → (confirm_snap add subtract policy at_publish now r current graph closure).1 ≡ replied a
      → a.accepted ≡ true
      → Publication at_publish now r current graph closure
          (confirm_snap add subtract policy at_publish now r current graph closure)
  unfolding confirm_snap
  confirm_snap-Publication at_publish now r current graph closure {a} h k =
      elim (Bool-cases (graph.version == r.base_snapshot.graph_version)) [
        | inr moved ↦ absurd (ground arith)
        | inl same ↦
            elim (Bool-cases (length closure.node_ids == 0 && length closure.edge_ids == 0)) [
              | inl nothing ↦ absurd (ground arith)
              | inr something ↦
                  elim (Option-cases (unresolved_burden add r.candidate r.obligations)) [
                    | inl e ↦ absurd (ground arith)
                    | inr (burden, e) ↦
                        rw (same, something, e)
                          (decide_snap-Publication at_publish now r current graph closure burden
                            {a = a} e same (rw (same, something, e) at h) k)
                  ]
            ]
      ]
