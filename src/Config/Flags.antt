-- ===== src/Config/Flags.antt =====
-- internal/config/config.go: the flags of `Parse` with their defaults, for a home directory.
use eventframed.Prelude.{String, concat, true, false}
use eventframed.Prelude.Float64.{Float64, zero_f, half_f, one_f, nonneg}
use eventframed.Prelude.Int.{pos}
use eventframed.Config.{Config}
use eventframed.Config.Paths.{clean}

-- filepath.Join, where the first part is not empty.
abbrev join : String → String → String
join root path = clean (concat root (concat "/" path))

-- 1e-6, .20, .85 and 2.5
abbrev millionth : Float64
millionth = nonneg 0x3eb0c6f7a0b5ed8d

abbrev fifth : Float64
fifth = nonneg 0x3fc999999999999a

abbrev close : Float64
close = nonneg 0x3feb333333333333

abbrev two_and_a_half : Float64
two_and_a_half = nonneg 0x4004000000000000

unfoldable pub default_flags : String → Config
unfolding clean
default_flags home = record {
  listen = concat "unix://" (join defaults_root "run/eventframed.sock");
  database_path = join defaults_root "data/eventframe.libravdb";
  dimension = pos 768;
  quantization = "sq8";
  recall_k = pos 50;
  pack_k = pos 10;
  token_budget = pos 2000;
  evidence_occupancy_limit = pos 1;
  evidence_similarity = close;
  log_level = "info";
  embedder = "hash";
  embedding_url = "";
  embedding_model = "";
  embedding_api_key_env = "EVENTFRAMED_EMBEDDING_API_KEY";
  embedding_timeout_seconds = pos 10;
  embedding_document_prefix = "";
  embedding_query_prefix = "";
  calibration_scale = one_f;
  calibration_bias = zero_f;
  calibration_floor = millionth;
  predictive_calibration_scale = zero_f;
  predictive_calibration_bias = zero_f;
  predictive_calibration_floor = zero_f;
  contextual_scoring = false;
  hierarchical_posterior = false;
  shared_evidence_weight = half_f;
  libra_vdb_contract_endpoint = "";
  libra_vdb_contract_tls_mode = "auto";
  libra_vdb_contract_tls_ca = "";
  libra_vdb_contract_tls_cert = "";
  libra_vdb_contract_tls_key = "";
  libra_vdb_contract_concurrency = pos 16;
  libra_vdb_contract_timeout_ms = pos 2000;
  libra_vdb_contract_attempts = pos 2;
  libra_vdb_circuit_failures = pos 5;
  libra_vdb_circuit_cooldown_ms = pos 5000;
  libra_vdb_ranker_endpoint = "";
  rank_delta_sqlite_path = join defaults_root "data/rank-deltas.sqlite";
  rank_delta_cache_entries = pos 100000;
  elastic_rank_delta = true;
  elastic_rank_delta_min_scale = half_f;
  elastic_rank_delta_max_scale = two_and_a_half;
  residual_mode = "apply";
  migrate_v1 = false;
  migrate_event_frame_corpus = false;
  reindex_event_frame_contract = false;
  migration_backup = "";
  agency_enabled = false;
  agency_private_key = join defaults_root "keys/agency_ed25519";
  agency_public_key = join defaults_root "keys/agency_ed25519.pub";
  agency_issuer_token = join defaults_root "keys/agency_issuer.token";
  agency_authority_token = join defaults_root "keys/agency_authority.token";
  evidence_trust_file = "";
  working_belief = false;
  grid_belief = false;
  forecast_rescue = false;
  background_fuzz = true;
  background_fuzz_certainty = fifth;
  background_fuzz_queue = pos 128;
  background_fuzz_interval_ms = pos 30000;
  background_fuzz_timeout_ms = pos 30000;
  background_fuzz_cooldown_sec = pos 900;
  background_fuzz_max_events = pos 8;
  background_fuzz_max_trials = pos 8;
}
  where
    defaults_root : String
    defaults_root = join home ".eventframed"
