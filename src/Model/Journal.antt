-- ===== src/Model/Journal.antt =====
-- internal/model/bayesian.go, the journal entry, with the report and forecasts of internal/model/
-- api.go and forecast.go, and `reflect.DeepEqual` on them.
use eventframed.Prelude.{ℕ, String, Bool, List, Option, ◌&&◌}
use eventframed.Prelude.Equal.{
  Equal, ◌===◌, number_equal, string_equal, float_equal, bool_equal, list_equal, option_equal,
}
use eventframed.Prelude.Float64.{Float64}
use eventframed.Model.Snapshot.{Time, Snapshot, eq_snapshot}

pub record BernoulliLaw : Type 0 where
  pub useful : Float64
  pub not_useful : Float64

pub record ForecastTemplate : Type 0 where
  pub event_id : String
  pub predicted_useful : Bool
  pub confidence : Float64

pub record ExpertForecasts : Type 0 where
  pub enabled : Bool
  pub probabilities : List Float64
  pub policy_version : ℕ
  pub evidence_epoch : ℕ

pub record ForecastBundle : Type 0 where
  pub expert_mixture : ExpertForecasts
  pub model_kind : String
  pub rank_score : Float64
  pub horizon_key : String
  pub base_law : BernoulliLaw
  pub belief_law : Option BernoulliLaw
  pub pre_residual_law : BernoulliLaw
  pub corrected_law : BernoulliLaw
  pub template : ForecastTemplate
  pub posterior_key : String
  pub posterior_version : ℕ
  pub residual_applied : Bool
  pub residual_shadow_eligible : Bool
  pub residual_record_id : String

pub record BayesianDecision : Type 0 where
  pub event_id : String
  pub activation_score : Float64
  pub activated : Bool
  pub cheap_update : Bool
  pub deep_review : Bool
  pub evidence_ready : Bool
  pub audit_selected : Bool
  pub audit_probability : Float64
  pub nomination_probability_lower_bound : Float64
  pub activation_probability : Float64
  pub total_selection_probability_lower_bound : Float64
  pub posterior_key : String
  pub parent_posterior_key : String
  pub evidence_group_key : String
  pub correlated_suppressed : Bool
  pub forecast : ForecastBundle

pub record BayesianShadowReport : Type 0 where
  pub mode : String
  pub journal_id : String
  pub journal_durable : Bool
  pub nominated : ℕ
  pub activated : ℕ
  pub deep_reviewed : ℕ
  pub selection_support_certified : Bool
  pub omitted_influence_certified : Bool
  pub residual_applied : ℕ
  pub residual_shadow_eligible : ℕ
  pub decisions : List BayesianDecision

pub record BayesianJournalEntry : Type 0 where
  pub id : String
  pub tenant_id : String
  pub session_id : String
  pub as_of : Time
  pub query_digest : String
  pub snapshot : Snapshot
  pub report : BayesianShadowReport

eq_law : BernoulliLaw → BernoulliLaw → Bool
eq_law a b = a.useful === b.useful && a.not_useful === b.not_useful

instance abbrev law_equal : Equal BernoulliLaw
unfolding eq_law
law_equal = record { equal = eq_law }

eq_template : ForecastTemplate → ForecastTemplate → Bool
eq_template a b =
    a.event_id === b.event_id
    && a.predicted_useful === b.predicted_useful
    && a.confidence === b.confidence

eq_experts : ExpertForecasts → ExpertForecasts → Bool
eq_experts a b =
    a.enabled === b.enabled
    && a.probabilities === b.probabilities
    && a.policy_version === b.policy_version
    && a.evidence_epoch === b.evidence_epoch

eq_forecast : ForecastBundle → ForecastBundle → Bool
unfolding eq_law eq_template eq_experts
eq_forecast a b =
    eq_experts a.expert_mixture b.expert_mixture
    && a.model_kind === b.model_kind
    && a.rank_score === b.rank_score
    && a.horizon_key === b.horizon_key
    && eq_law a.base_law b.base_law
    && a.belief_law === b.belief_law
    && eq_law a.pre_residual_law b.pre_residual_law
    && eq_law a.corrected_law b.corrected_law
    && eq_template a.template b.template
    && a.posterior_key === b.posterior_key
    && a.posterior_version === b.posterior_version
    && a.residual_applied === b.residual_applied
    && a.residual_shadow_eligible === b.residual_shadow_eligible
    && a.residual_record_id === b.residual_record_id

eq_decision : BayesianDecision → BayesianDecision → Bool
unfolding eq_forecast
eq_decision a b =
    a.event_id === b.event_id
    && a.activation_score === b.activation_score
    && a.activated === b.activated
    && a.cheap_update === b.cheap_update
    && a.deep_review === b.deep_review
    && a.evidence_ready === b.evidence_ready
    && a.audit_selected === b.audit_selected
    && a.audit_probability === b.audit_probability
    && a.nomination_probability_lower_bound === b.nomination_probability_lower_bound
    && a.activation_probability === b.activation_probability
    && a.total_selection_probability_lower_bound === b.total_selection_probability_lower_bound
    && a.posterior_key === b.posterior_key
    && a.parent_posterior_key === b.parent_posterior_key
    && a.evidence_group_key === b.evidence_group_key
    && a.correlated_suppressed === b.correlated_suppressed
    && eq_forecast a.forecast b.forecast

instance abbrev decision_equal : Equal BayesianDecision
unfolding eq_decision
decision_equal = record { equal = eq_decision }

eq_report : BayesianShadowReport → BayesianShadowReport → Bool
unfolding eq_decision
eq_report a b =
    a.mode === b.mode
    && a.journal_id === b.journal_id
    && a.journal_durable === b.journal_durable
    && a.nominated === b.nominated
    && a.activated === b.activated
    && a.deep_reviewed === b.deep_reviewed
    && a.selection_support_certified === b.selection_support_certified
    && a.omitted_influence_certified === b.omitted_influence_certified
    && a.residual_applied === b.residual_applied
    && a.residual_shadow_eligible === b.residual_shadow_eligible
    && a.decisions === b.decisions

-- journalEqual of internal/store/memorystore/store.go
unfoldable pub journal_equal : BayesianJournalEntry → BayesianJournalEntry → Bool
unfolding eq_report eq_snapshot
journal_equal a b =
    a.id === b.id
    && a.tenant_id === b.tenant_id
    && a.session_id === b.session_id
    && a.as_of === b.as_of
    && a.query_digest === b.query_digest
    && eq_snapshot a.snapshot b.snapshot
    && eq_report a.report b.report
