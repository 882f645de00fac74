-- ===== src/Service/Snaps/Confirm.antt =====
-- What an accepted predictive snap has passed.
use eventframed.Prelude.{
  ◌≤◌, ◌<◌, true, false, none, ◌≡◌, inl, inr, eq_iff, arith, str_eq, Option-cases,
}
use eventframed.Prelude.Dict.{get2}
use eventframed.Prelude.Float64.{Float64, lt_f, le_f, zero_f}
use eventframed.Prelude.Int.{lt_int}
use eventframed.Prelude.Text.{is_blank-filled}
use eventframed.Prelude.Word.{inc}
use eventframed.Model.Snapshot.{Time, Snapshot, eq_snapshot}
use eventframed.Model.PredictiveGraph.{eq_graph}
use eventframed.Memory.{Store}
use eventframed.Memory.Graphs.{get_predictive_graph}
use eventframed.Memory.Graphs.Rollback.{publish-Accepted, publish_snap-graph}
use eventframed.Graph.Burden.{Accounted, unresolved_burden_iff}
use eventframed.Graph.Candidate.{GraphPolicy, validate_candidate}
use eventframed.Graph.Closure.{dependency_closure}
use eventframed.Graph.Sound.{SoundGraph, validate_candidate-SoundGraph}
use eventframed.Service.{Reply, replied, check_protocol, then_test-none}
use eventframed.Service.Snaps.{
  PredictiveSnapRequest, PredictiveSnapResponse, check_snap_texts, check_snap_candidate,
  check_snap_windows, check_snap_family, check_snap_request, gates_fail, request_snap,
}
use eventframed.Service.Snaps.Decide.{Publication, confirm_snap-Publication}
use eventframed.Service.Snaps.Certified.{Certified, validate_snap_certificates-Certified}

-- What the tests before the graph is read let through.
pub record Proposed (current : Snapshot) (now : Time) (policy : GraphPolicy)
    (r : PredictiveSnapRequest) : Type 0 where
  pub audited : r.external_audit ≡ true
  pub based : eq_snapshot r.base_snapshot current ≡ true
  pub sound : SoundGraph r.candidate policy
  pub design : r.design_start < r.design_end
  pub disjoint : r.design_end < r.confirmation_start
  pub confirmation : r.confirmation_start < r.confirmation_end
  pub past : r.confirmation_end ≤ now
  pub family : lt_int policy.max_candidate_family r.candidate_family_size ≡ false
  pub unchanged : r.unchanged_candidate_included ≡ true
  pub coverage : lt_f r.simultaneous_coverage policy.min_simultaneous_coverage ≡ false

check_snap_candidate_sound :
    (current : Snapshot) (policy : GraphPolicy) (r : PredictiveSnapRequest)
    → check_snap_candidate current policy r ≡ none
    → (eq_snapshot r.base_snapshot current ≡ true) × SoundGraph r.candidate policy
unfolding check_snap_candidate
check_snap_candidate_sound current policy r h =
    elim (Option-cases (validate_candidate r.candidate policy)) [
      | inl e ↦ (ground arith, validate_candidate-SoundGraph r.candidate policy e)
      | inr (x, e) ↦ absurd (ground arith)
    ]

check_snap_request-Proposed :
    (current : Snapshot) (now : Time) (policy : GraphPolicy) (r : PredictiveSnapRequest)
    → check_snap_request current now policy r ≡ none
    → Proposed current now policy r
unfolding check_snap_request check_snap_texts check_snap_windows check_snap_family
check_snap_request-Proposed current now policy r h =
    let (_, a) = then_test-none (check_protocol r.protocol_version) _ h in
    let (texts, b) = then_test-none (check_snap_texts r) _ a in
    let (candidate, c) = then_test-none (check_snap_candidate current policy r) _ b in
    let (windows, family) = then_test-none (check_snap_windows now r) _ c in
    let (based, sound) = check_snap_candidate_sound current policy r candidate in
    record {
      audited = ground (arith, texts);
      based = based;
      sound = sound;
      design = ground (arith, windows);
      disjoint = ground (arith, windows);
      confirmation = ground (arith, windows);
      past = ground (arith, windows);
      family = ground (arith, family);
      unchanged = ground (arith, family);
      coverage = ground (arith, family);
    }

module _ (add subtract : Float64 → Float64 → Float64) (policy : GraphPolicy) where
  -- What an accepted snap has passed, between the three calls of the store and the new state.
  pub record Confirmed (at_snapshot at_graph at_publish t : Store) (now : Time)
      (r : PredictiveSnapRequest) : Type 0 where
    pub proposed : Proposed at_snapshot.snapshot now policy r
    pub certified : Certified policy r (
        dependency_closure
          (get_predictive_graph at_graph r.tenant_id)
          r.candidate
          policy.closure_radius)
    pub burden : Float64
    pub accounted : Accounted add r.candidate zero_f burden r.obligations
    pub light : lt_f policy.max_unresolved_burden burden ≡ false
    pub gain :
        le_f (subtract r.priority_gain_lcb r.resource_cost_ucb) policy.min_net_priority_gain ≡ false
    pub risk : lt_f policy.max_proper_risk_increase r.proper_risk_increase_ucb ≡ false
    pub unmoved :
        eq_graph
          (get_predictive_graph at_publish r.tenant_id)
          (get_predictive_graph at_graph r.tenant_id)
        ≡ true
    pub version : at_publish.snapshot.graph_version ≡ r.base_snapshot.graph_version
    pub published : get_predictive_graph t r.tenant_id ≡ record r.candidate {
      version = inc r.base_snapshot.graph_version;
      published_at = now;
      source_snap_id = r.id;
    }

  Publication-Confirmed :
      (at_snapshot at_graph at_publish : Store) (now : Time) (r : PredictiveSnapRequest)
      (outcome : Store × Reply PredictiveSnapResponse)
      → Proposed at_snapshot.snapshot now policy r
      → str_eq r.candidate.tenant_id "" ≡ false
      → get2 r.tenant_id r.id at_publish.snaps ≡ none
      → Publication add subtract policy at_publish now r at_snapshot.snapshot
          (get_predictive_graph at_graph r.tenant_id)
          (dependency_closure
            (get_predictive_graph at_graph r.tenant_id)
            r.candidate
            policy.closure_radius)
          outcome
      → Confirmed at_snapshot at_graph at_publish outcome.0 now r
  unfolding gates_fail
  Publication-Confirmed at_snapshot at_graph at_publish now r outcome proposed named absent p =
      let taken = publish-Accepted at_publish _ absent p.accepted in
      let based : at_publish.snapshot.graph_version ≡ r.base_snapshot.graph_version =
        ground (arith, taken.version, p.version) in
      record {
        proposed = proposed;
        certified = validate_snap_certificates-Certified policy r _ proposed.sound p.certificates;
        burden = p.burden;
        accounted = (unresolved_burden_iff add r.candidate r.obligations p.burden).0 p.weighed;
        light = ground (arith, p.gates);
        gain = ground (arith, p.gates);
        risk = ground (arith, p.gates);
        unmoved = taken.same;
        version = based;
        published = rw (p.state, taken.state, ← based) (publish_snap-graph _ _ named);
      }

  check_snap_request-named :
      (current : Snapshot) (now : Time) (r : PredictiveSnapRequest)
      → check_snap_request current now policy r ≡ none
      → str_eq r.candidate.tenant_id "" ≡ false
  unfolding check_snap_request check_snap_texts check_snap_candidate
  check_snap_request-named current now r h =
      let (_, a) = then_test-none (check_protocol r.protocol_version) _ h in
      let (texts, b) = then_test-none (check_snap_texts r) _ a in
      let (candidate, _) = then_test-none (check_snap_candidate current policy r) _ b in
      let own : r.candidate.tenant_id ≡ r.tenant_id =
        (eq_iff r.candidate.tenant_id r.tenant_id).0 (ground (arith, candidate)) in
      rw own (is_blank-filled r.tenant_id (ground (arith, texts)))

  -- If the service answers that a snap of a new id has been accepted, whatever other calls came
  -- between its three calls of the store, then the request was confirmed by an external audit on the
  -- snapshot that it read, its candidate is a sound graph, its windows are ordered and past, every
  -- bucket and edge that the change affects is certified, the unresolved burden, the gain and the
  -- risk pass the policy's gates, the tenant's graph is at the publication the one that was read, of
  -- the base's version, and the candidate is the graph after it, under the next version.
  pub request_snap-Confirmed :
      (at_snapshot at_graph at_publish : Store) (now : Time) (r : PredictiveSnapRequest)
      {a : PredictiveSnapResponse}
      → get2 r.tenant_id r.id at_publish.snaps ≡ none
      → (request_snap add subtract policy at_snapshot at_graph at_publish now r).1 ≡ replied a
      → a.accepted ≡ true
      → Confirmed at_snapshot at_graph at_publish
          (request_snap add subtract policy at_snapshot at_graph at_publish now r).0
          now
          r
  unfolding request_snap
  request_snap-Confirmed at_snapshot at_graph at_publish now r {a} absent h k =
      elim (Option-cases (check_snap_request at_snapshot.snapshot now policy r)) [
        | inr (x, e) ↦ absurd (ground arith)
        | inl e ↦
            rw (e, request_snap)
              (Publication-Confirmed at_snapshot at_graph at_publish now r _
                (check_snap_request-Proposed at_snapshot.snapshot now policy r e)
                (check_snap_request-named at_snapshot.snapshot now r e) absent
                (confirm_snap-Publication add subtract policy at_publish now r at_snapshot.snapshot
                  _ _ {a = a} (rw (e, request_snap) at h) k))
      ]
