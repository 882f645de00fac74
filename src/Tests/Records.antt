-- ===== src/Tests/Records.antt =====
-- Events, snaps, certificates and uncertain executions.
use eventframed.Prelude.{List, ◌≡◌, refl, [], ◌∷◌, none, String, true, false, arith}
use eventframed.Prelude.Dict.{get, get2, put}
use eventframed.Prelude.Float64.{zero_f, half_f, one_f}
use eventframed.Model.Proposal.{
  AgencyProposalRecord, ResolveAgencyProposalRequest, uncertain, rejected,
}
use eventframed.Model.Certificate.{AntiPigeonCertificate}
use eventframed.Model.PredictiveGraph.{CompatibilityNode, PredictiveGraph, PredictiveSnapRecord}
use eventframed.Store.{ok, err, snap_conflict, idempotency_conflict, certificate_not_found}
use eventframed.Store.Tau.{agency_uncertain_record, tau_cancellation_matches}
use eventframed.Store.Handles.{Remembered, agency_uncertain_record-covered}
use eventframed.Memory.{new}
use eventframed.Prelude.Int.{pos}
use eventframed.Graph.Closure.{dependency_closure}
use eventframed.Graph.Covers.{Covered, dependency_closure-Covered}
use eventframed.Memory.Events.{put_event}
use eventframed.Memory.Events.Replay.{put_event-replay, put_event-get_events}
use eventframed.Memory.Retrieval.{get_events}
use eventframed.Memory.Certificates.{
  publish_anti_pigeon_certificate, get_anti_pigeon_certificate, revoke_anti_pigeon,
}
use eventframed.Memory.Certificates.Groups.{
  publish-get_anti_pigeon_certificate, revoke-get_anti_pigeon_certificate,
}
use eventframed.Memory.Graphs.{
  publish_predictive_snap, rollback_predictive_snap, get_predictive_graph,
}
use eventframed.Memory.Graphs.Fence.{Fenced}
use eventframed.Memory.Graphs.Rollback.{
  restored, publish_predictive_snap-retry, publish_predictive_snap-Fenced,
  publish_predictive_snap-rollback,
}
use eventframed.Memory.History.{puts, run}
use eventframed.Memory.History.Evidence.{AllFiled, run-AllFiled, new-AllFiled}
use eventframed.Tests.Samples.{event, proposal, pending_record, resolution}
use eventframed.Tests.Histories.{agency_calls}

run-AllFiled_example : AllFiled (run new (puts (event "e1" 5) [] "d1" ∷ agency_calls))
run-AllFiled_example =
    run-AllFiled new (puts (event "e1" 5) [] "d1" ∷ agency_calls) new-AllFiled refl

put_event-replay_example :
    put_event (put_event new (event "e1" 5) [] "d1").0 (event "e1" 9) [] "d2"
    ≡ ((put_event new (event "e1" 5) [] "d1").0, err idempotency_conflict)
unfolding put_event get2 get
put_event-replay_example =
    put_event-replay new (event "e1" 5) [] "d1" (event "e1" 9) [] "d2" refl refl refl

put_event-get_events_example :
    get_events (put_event new (event "e1" 5) (half_f ∷ []) "d1").0 "t" ("e1" ∷ []) 7 true
    ≡ ok (record (event "e1" 5) { embedding = half_f ∷ [] } ∷ [])
unfolding get2 get
put_event-get_events_example =
    put_event-get_events new (event "e1" 5) (half_f ∷ []) "d1" 7 true refl (omega arith)

abbrev graph : String → PredictiveGraph
graph source = record {
  tenant_id = "t";
  version = 1;
  nodes = [];
  edges = [];
  published_at = 0;
  source_snap_id = source;
}

abbrev snap : PredictiveSnapRecord
snap = record {
  id = "snap-1";
  tenant_id = "t";
  previous_graph = graph "";
  published_graph = graph "snap-1";
  closure = record { node_ids = []; edge_ids = []; event_ids = []; posterior_keys = [] };
  unresolved_burden = zero_f;
  simultaneous_coverage = one_f;
  procedure = "test";
  issuer = "issuer";
  published_at = 5;
  rolled_back = false;
  rollback_reason = "";
}

publish_predictive_snap-retry_example :
    publish_predictive_snap (publish_predictive_snap new snap).0 snap
    ≡ ((publish_predictive_snap new snap).0, err snap_conflict)
unfolding get2 get publish_predictive_snap
publish_predictive_snap-retry_example = publish_predictive_snap-retry new snap refl refl

publish_predictive_snap-Fenced_example :
    Fenced (publish_predictive_snap new snap).0 "t" snap.closure
unfolding get2 get publish_predictive_snap
publish_predictive_snap-Fenced_example = publish_predictive_snap-Fenced new snap refl refl

publish_predictive_snap-rollback_example :
    ((rollback_predictive_snap (publish_predictive_snap new snap).0 "t" "snap-1" "why" 9).1
      ≡ ok (restored (publish_predictive_snap new snap).0 snap 9))
    × (get_predictive_graph
          (rollback_predictive_snap (publish_predictive_snap new snap).0 "t" "snap-1" "why" 9).0
          "t"
        ≡ restored (publish_predictive_snap new snap).0 snap 9)
unfolding get2 get publish_predictive_snap
publish_predictive_snap-rollback_example =
    publish_predictive_snap-rollback new snap "why" 9 refl refl refl refl refl

abbrev pub group : AntiPigeonCertificate
group = record {
  id = "g";
  tenant_id = "t";
  member_event_ids = "e1" ∷ "e2" ∷ [];
  horizon_key = "h";
  graph_version = 1;
  evidence_epoch = 0;
  target_diameter_ucb = zero_f;
  diameter_limit = half_f;
  effective_support = one_f;
  min_effective_support = half_f;
  simultaneous_coverage = one_f;
  procedure = "test";
  issuer = "issuer";
  external_audit = true;
  valid_until = 100;
}

publish-get_anti_pigeon_certificate_example :
    get_anti_pigeon_certificate (publish_anti_pigeon_certificate new group).0 "t" ("e2" ∷ "e1" ∷ [])
    ≡ ok group
unfolding publish_anti_pigeon_certificate
publish-get_anti_pigeon_certificate_example =
    publish-get_anti_pigeon_certificate new group "e2" ("e1" ∷ []) refl refl refl

revoke-get_anti_pigeon_certificate_example :
    get_anti_pigeon_certificate
      (revoke_anti_pigeon (publish_anti_pigeon_certificate new group).0 group)
      "t"
      ("e2" ∷ [])
    ≡ err certificate_not_found
unfolding publish_anti_pigeon_certificate
revoke-get_anti_pigeon_certificate_example =
    revoke-get_anti_pigeon_certificate new group "e2" [] refl refl refl

-- A record with one handle, and a second one that is reported.
abbrev executing : AgencyProposalRecord
executing = record (pending_record (proposal none "p1")) { execution_ref = "job-0" }

abbrev reported : AgencyProposalRecord
reported = record executing {
  status = uncertain;
  resolution_reason = "authorized";
  execution_ref = "job-1";
  resolved_at = 9;
  uncertain_execution_refs = "job-0" ∷ "job-1" ∷ [];
}

abbrev cancellation : ResolveAgencyProposalRequest
cancellation = record (resolution rejected "p1" "c") {
  cancelled_execution_refs = "job-1" ∷ "job-0" ∷ [];
}

agency_uncertain_record-covered_example :
    Remembered executing reported (resolution uncertain "p1" "c")
unfolding agency_uncertain_record
agency_uncertain_record-covered_example =
    agency_uncertain_record-covered executing reported (resolution uncertain "p1" "c") 9 refl
      (omega arith)

cancellation_test : tau_cancellation_matches reported cancellation ≡ true
unfolding tau_cancellation_matches
cancellation_test = refl

abbrev node : String → List String → CompatibilityNode
node id keys = record {
  id = id;
  kind = "bucket";
  member_event_ids = "e1" ∷ [];
  posterior_keys = keys;
  law_space = "retrieval-usefulness-v1";
}

abbrev linked : List String → PredictiveGraph
linked keys = record (graph "") {
  nodes = node "a" keys ∷ node "b" [] ∷ [];
  edges =
      record {
        id = "ab";
        from = "a";
        to = "b";
        comparison_map = "identity_bernoulli";
        effect = "";
        weight = one_f;
      }
      ∷ [];
}

-- Only the keys of one node change; the radius brings in its neighbour.
closure_test : dependency_closure (linked []) (linked ("k" ∷ [])) (pos 1) ≡ record {
  node_ids = "a" ∷ "b" ∷ [];
  edge_ids = "ab" ∷ [];
  event_ids = "e1" ∷ [];
  posterior_keys = "k" ∷ [];
}
unfolding dependency_closure put get
closure_test = refl

dependency_closure-Covered_example :
    Covered
      (linked [])
      (linked ("k" ∷ []))
      (dependency_closure (linked []) (linked ("k" ∷ [])) (pos 1))
dependency_closure-Covered_example =
    dependency_closure-Covered (linked []) (linked ("k" ∷ [])) (pos 1)
