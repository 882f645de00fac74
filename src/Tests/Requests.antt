-- ===== src/Tests/Requests.antt =====
-- Requests to the service: a snap, a certificate of each kind, and the agency.
use eventframed.Prelude.{String, true, [], ◌∷◌, ◌≡◌, ◌↔◌, refl, if◌then◌else◌}
use eventframed.Prelude.Dict.{get, get2, put}
use eventframed.Prelude.Float64.{Float64, eq_f, zero_f, half_f, one_f}
use eventframed.Prelude.Int.{pos}
use eventframed.Model.Snapshot.{Time, Snapshot}
use eventframed.Model.Certificate.{SelectionSupportCertificate, AntiPigeonCertificate}
use eventframed.Store.{ok}
use eventframed.Memory.{new, initial_snapshot}
use eventframed.Memory.Certificates.{get_selection_certificate}
use eventframed.Service.{protocol_version}
use eventframed.Service.Snaps.{PredictiveSnapRequest, SnapBucketCertificate, request_snap}
use eventframed.Service.Snaps.Confirm.{Confirmed, request_snap-Confirmed}
use eventframed.Service.Certificates.{
  request_selection, selection_certificate_active, request_anti_pigeon,
}
use eventframed.Service.Certificates.Active.{InForce, request_selection-InForce}
use eventframed.Service.Certificates.Group.{Grouped, request_anti_pigeon-Grouped}
use eventframed.Tests.Graphs.{candidate, limits}

-- The sum and the difference where one of the two is 0, and 1 elsewhere.
abbrev sum : Float64 → Float64 → Float64
sum x y = if eq_f x zero_f then y else if eq_f y zero_f then x else one_f

abbrev difference : Float64 → Float64 → Float64
difference x y = if eq_f y zero_f then x else one_f

abbrev snap_request : PredictiveSnapRequest
snap_request = record {
  protocol_version = protocol_version;
  id = "s";
  tenant_id = "t";
  base_snapshot = initial_snapshot;
  candidate = candidate;
  obligations = record { from = "b"; to = "a"; weight = one_f } ∷ [];
  bucket_certificates = bucket "a" ∷ bucket "b" ∷ bucket "c" ∷ [];
  edge_certificates = record { edge_id = "ab"; defect_ucb = zero_f; defect_limit = half_f } ∷ [];
  design_start = 1;
  design_end = 2;
  confirmation_start = 3;
  confirmation_end = 4;
  candidate_family_size = pos 2;
  unchanged_candidate_included = true;
  priority_gain_lcb = one_f;
  resource_cost_ucb = zero_f;
  proper_risk_increase_ucb = zero_f;
  simultaneous_coverage = one_f;
  procedure = "p";
  issuer = "i";
  external_audit = true;
}
  where
    bucket : String → SnapBucketCertificate
    bucket id = record {
      node_id = id;
      future_diameter_ucb = zero_f;
      diameter_limit = half_f;
      effective_support = one_f;
    }

request_snap-Confirmed_example :
    Confirmed sum difference limits new new new
      (request_snap sum difference limits new new new 9 snap_request).0
      9
      snap_request
unfolding request_snap get get2 put
request_snap-Confirmed_example =
    request_snap-Confirmed sum difference limits new new new 9 snap_request refl refl refl

abbrev selection : SelectionSupportCertificate
selection = record {
  id = "c";
  tenant_id = "t";
  policy_version = initial_snapshot.policy_version;
  evidence_epoch = initial_snapshot.evidence_epoch;
  min_selection_probability = half_f;
  simultaneous_coverage = half_f;
  procedure = "p";
  issuer = "i";
  external_audit = true;
  valid_from = 1;
  valid_until = 20;
}

request_selection-InForce_example :
    (get_selection_certificate (request_selection new new 9 protocol_version selection).0 "t"
      ≡ ok selection)
    × ((current : Snapshot) (later : Time)
        → (selection_certificate_active selection current later ≡ true)
          ↔ InForce selection current later)
unfolding request_selection
request_selection-InForce_example =
    request_selection-InForce new new 9 protocol_version selection refl

abbrev pair_group : AntiPigeonCertificate
pair_group = record {
  id = "g";
  tenant_id = "t";
  member_event_ids = "e1" ∷ "e2" ∷ [];
  horizon_key = "retrieval-usefulness-v1";
  graph_version = initial_snapshot.graph_version;
  evidence_epoch = initial_snapshot.evidence_epoch;
  target_diameter_ucb = zero_f;
  diameter_limit = half_f;
  effective_support = one_f;
  min_effective_support = half_f;
  simultaneous_coverage = half_f;
  procedure = "p";
  issuer = "i";
  external_audit = true;
  valid_until = 20;
}

request_anti_pigeon-Grouped_example :
    Grouped new (request_anti_pigeon new new 9 protocol_version pair_group).0 pair_group
unfolding request_anti_pigeon
request_anti_pigeon-Grouped_example =
    request_anti_pigeon-Grouped new new 9 protocol_version pair_group refl
