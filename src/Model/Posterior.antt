-- ===== src/Model/Posterior.antt =====
-- internal/model/bayesian.go, the durable posterior, and internal/model/residual.go, the residual
-- record. Fixed arrays of floats are lists.
use eventframed.Prelude.{ℕ, String, Bool, List, Option}
use eventframed.Prelude.Dict.{Dict}
use eventframed.Prelude.Float64.{Float64}
use eventframed.Prelude.Int.{ℤ}
use eventframed.Model.Snapshot.{Time}

pub record WorkingBelief : Type 0 where
  pub policy_id : String
  pub log_odds : Float64
  pub predictive_useful : Float64
  pub grid_weights : List Float64

pub record BayesianMemberEvidence : Type 0 where
  pub useful_weight : Float64
  pub not_useful_weight : Float64

pub record BayesianRunLengthState : Type 0 where
  pub probabilities : List Float64
  pub alpha : List Float64
  pub beta : List Float64

pub record BayesianDriftState : Type 0 where
  pub fast_mean : Float64
  pub slow_mean : Float64
  pub samples : ℤ
  pub streak : ℤ
  pub direction : ℤ
  pub upward_cusum : Float64
  pub downward_cusum : Float64
  pub cooldown : ℤ

pub record BayesianPosterior : Type 0 where
  pub forecast_weights : List Float64
  pub forecast_policy_version : ℕ
  pub evidence_trust : String
  pub working_belief : Option WorkingBelief
  pub tenant_id : String
  pub posterior_key : String
  pub alpha : Float64
  pub beta : Float64
  pub effective_support : Float64
  pub evidence_epoch : ℕ
  pub certified : Bool
  pub updated_at : Time
  pub change_point_probability : Float64
  pub recent_change_probability : Float64
  pub run_length_state : BayesianRunLengthState
  pub drift_state : BayesianDriftState
  pub calibration_weight : Float64
  pub brier_loss_sum : Float64
  pub forecast_useful_sum : Float64
  pub observed_useful_sum : Float64
  pub member_evidence : Dict BayesianMemberEvidence

-- The type is a string in Go; the program makes these two values.
pub data ResidualScope : Type 0 where
  exact_action general_posterior : ResidualScope

pub record ResidualRecord : Type 0 where
  pub id : String
  pub tenant_id : String
  pub scope : ResidualScope
  pub key : String
  pub horizon_key : String
  pub correction : Float64
  pub effective_support : Float64
  pub improvement_alpha : Float64
  pub improvement_beta : Float64
  pub gain_sum : Float64
  pub gain_count : Float64
  pub consecutive_harm : ℤ
  pub reference_probability : Float64
  pub motion_limit : Float64
  pub approximation_error_bound : Float64
  pub policy_version : ℕ
  pub evidence_epoch : ℕ
  pub residual_version : ℕ
  pub source_journal_id : String
  pub source_event_id : String
  pub posterior_key : String
  pub created_at : Time
  pub updated_at : Time
  pub active : Bool

pub record ResidualCandidates : Type 0 where
  pub exact : Option ResidualRecord
  pub general : Option ResidualRecord
