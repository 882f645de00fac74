-- ===== src/Config.antt =====
-- internal/config/config.go: the tests of `Parse` on the parsed flags, and what
-- cmd/eventframed/main.go makes of the settings of the background audits. Reading the flags, the
-- home directory and the making of directories are input and output.
pub mod Paths
pub mod Flags
pub mod Check
pub mod Background
use eventframed.Prelude.{String, Bool}
use eventframed.Prelude.Float64.{Float64}
use eventframed.Prelude.Int.{ℤ}

pub record Config : Type 0 where
  pub listen : String
  pub database_path : String
  pub dimension : ℤ
  pub quantization : String
  pub recall_k : ℤ
  pub pack_k : ℤ
  pub token_budget : ℤ
  pub evidence_occupancy_limit : ℤ
  pub evidence_similarity : Float64
  pub log_level : String
  pub embedder : String
  pub embedding_url : String
  pub embedding_model : String
  pub embedding_api_key_env : String
  pub embedding_timeout_seconds : ℤ
  pub embedding_document_prefix : String
  pub embedding_query_prefix : String
  pub calibration_scale : Float64
  pub calibration_bias : Float64
  pub calibration_floor : Float64
  pub predictive_calibration_scale : Float64
  pub predictive_calibration_bias : Float64
  pub predictive_calibration_floor : Float64
  pub contextual_scoring : Bool
  pub hierarchical_posterior : Bool
  pub shared_evidence_weight : Float64
  pub libra_vdb_contract_endpoint : String
  pub libra_vdb_contract_tls_mode : String
  pub libra_vdb_contract_tls_ca : String
  pub libra_vdb_contract_tls_cert : String
  pub libra_vdb_contract_tls_key : String
  pub libra_vdb_contract_concurrency : ℤ
  pub libra_vdb_contract_timeout_ms : ℤ
  pub libra_vdb_contract_attempts : ℤ
  pub libra_vdb_circuit_failures : ℤ
  pub libra_vdb_circuit_cooldown_ms : ℤ
  pub libra_vdb_ranker_endpoint : String
  pub rank_delta_sqlite_path : String
  pub rank_delta_cache_entries : ℤ
  pub elastic_rank_delta : Bool
  pub elastic_rank_delta_min_scale : Float64
  pub elastic_rank_delta_max_scale : Float64
  pub residual_mode : String
  pub migrate_v1 : Bool
  pub migrate_event_frame_corpus : Bool
  pub reindex_event_frame_contract : Bool
  pub migration_backup : String
  pub agency_enabled : Bool
  pub agency_private_key : String
  pub agency_public_key : String
  pub agency_issuer_token : String
  pub agency_authority_token : String
  pub evidence_trust_file : String
  pub working_belief : Bool
  pub grid_belief : Bool
  pub forecast_rescue : Bool
  pub background_fuzz : Bool
  pub background_fuzz_certainty : Float64
  pub background_fuzz_queue : ℤ
  pub background_fuzz_interval_ms : ℤ
  pub background_fuzz_timeout_ms : ℤ
  pub background_fuzz_cooldown_sec : ℤ
  pub background_fuzz_max_events : ℤ
  pub background_fuzz_max_trials : ℤ
