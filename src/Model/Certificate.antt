-- ===== src/Model/Certificate.antt =====
-- internal/model/bayesian.go, the three certificates, and internal/model/composition.go, the
-- tombstone of a decomposed event.
use eventframed.Prelude.{ℕ, String, Bool, List}
use eventframed.Prelude.Float64.{Float64}
use eventframed.Model.Snapshot.{Time}

pub record SelectionSupportCertificate : Type 0 where
  pub id : String
  pub tenant_id : String
  pub policy_version : ℕ
  pub evidence_epoch : ℕ
  pub min_selection_probability : Float64
  pub simultaneous_coverage : Float64
  pub procedure : String
  pub issuer : String
  pub external_audit : Bool
  pub valid_from : Time
  pub valid_until : Time

pub record AntiPigeonCertificate : Type 0 where
  pub id : String
  pub tenant_id : String
  pub member_event_ids : List String
  pub horizon_key : String
  pub graph_version : ℕ
  pub evidence_epoch : ℕ
  pub target_diameter_ucb : Float64
  pub diameter_limit : Float64
  pub effective_support : Float64
  pub min_effective_support : Float64
  pub simultaneous_coverage : Float64
  pub procedure : String
  pub issuer : String
  pub external_audit : Bool
  pub valid_until : Time

pub record OmittedInfluenceCertificate : Type 0 where
  pub id : String
  pub tenant_id : String
  pub policy_version : ℕ
  pub evidence_epoch : ℕ
  pub divergence_ucb : Float64
  pub divergence_limit : Float64
  pub audit_probability : Float64
  pub simultaneous_coverage : Float64
  pub procedure : String
  pub issuer : String
  pub external_audit : Bool
  pub runtime_estimated : Bool
  pub query_digest : String
  pub population_digest : String
  pub valid_until : Time

pub record CompositionTombstone : Type 0 where
  pub tenant_id : String
  pub event_id : String
  pub member_event_ids : List String
  pub anti_pigeon_certificate_id : String
  pub reason : String
  pub decomposed_at : Time
