-- ===== src/Config/Check.antt =====
-- internal/config/config.go: the tests of `Parse` after the flags have been read, in its order.
use eventframed.Prelude.{Bool, not, ◌&&◌, ◌||◌, Option, none, some, [], ◌∷◌, str_eq, if◌then◌else◌}
use eventframed.Prelude.Equal.{◌===◌, bool_equal}
use eventframed.Prelude.Float64.{
  Float64, is_nan, is_inf, lt_f, le_f, eq_f, zero_f, half_f, one_f, nonneg,
}
use eventframed.Prelude.Int.{pos, lt_int, le_int}
use eventframed.Prelude.Text.{is_blank}
use eventframed.Config.{Config}
use eventframed.Config.Paths.{has_prefix, is_abs, clean, distinct_absolute_paths}

-- The errors of the source, one for each message.
pub data ConfigError : Type 0 where
  grid_belief rescue working_belief budgets pack_k occupancy similarity quantization listen embedder
        embedder_endpoint embedding_timeout calibration predictive_calibration shared_weight
        residual_mode rank_delta elastic_scales same_database endpoints_disagree contract_endpoint
        tls_mode tls_pair tls_insecure concurrency resilience migrations reindex_alone
        reindex_endpoint migration_backup agency_paths agency_socket background_fuzz :
      ConfigError

pub data Parsed : Type 0 where
  accepted : Config → Parsed
  rejected : ConfigError → Parsed

-- 10
abbrev pub ten_f : Float64
ten_f = nonneg 0x4024000000000000

abbrev pub or_else : Option ConfigError → Option ConfigError → Option ConfigError
or_else none b = b
or_else (some e) b = some e

-- x <= 0 and x >= .5
abbrev pub bad_scale : Float64 → Float64 → Bool
bad_scale scale floor = le_f scale zero_f || le_f floor zero_f || le_f half_f floor

unfoldable pub check_belief : Config → Option ConfigError
unfolding is_blank
check_belief c =
    if c.grid_belief && not c.working_belief
    then some grid_belief
    else if c.forecast_rescue
        && (not c.grid_belief || c.contextual_scoring || not (str_eq c.residual_mode "disabled"))
    then some rescue
    else if c.working_belief && (is_blank c.evidence_trust_file || c.hierarchical_posterior)
    then some working_belief
    else none

unfoldable pub check_budgets : Config → Option ConfigError
check_budgets c =
    if le_int c.dimension (pos 0)
      || le_int c.recall_k (pos 0)
      || le_int c.pack_k (pos 0)
      || le_int c.token_budget (pos 0)
    then some budgets
    else if lt_int c.recall_k c.pack_k
    then some pack_k
    else if le_int c.evidence_occupancy_limit (pos 0) || lt_int c.pack_k c.evidence_occupancy_limit
    then some occupancy
    else if is_nan c.evidence_similarity
        || is_inf c.evidence_similarity
        || le_f c.evidence_similarity zero_f
        || lt_f one_f c.evidence_similarity
    then some similarity
    else none

unfoldable pub check_embedder : Config → Option ConfigError
unfolding has_prefix
check_embedder c =
    if not (str_eq c.quantization "none")
      && not (str_eq c.quantization "sq8")
      && not (str_eq c.quantization "fsq6")
      && not (str_eq c.quantization "pq8")
    then some quantization
    else if not (has_prefix c.listen "unix://") && not (has_prefix c.listen "tcp://")
    then some listen
    else if not (str_eq c.embedder "hash") && not (str_eq c.embedder "openai-compatible")
    then some embedder
    else if str_eq c.embedder "openai-compatible"
        && (str_eq c.embedding_url "" || str_eq c.embedding_model "")
    then some embedder_endpoint
    else if le_int c.embedding_timeout_seconds (pos 0)
    then some embedding_timeout
    else none

unfoldable pub check_scores : Config → Option ConfigError
unfolding is_abs clean
check_scores c =
    if bad_scale c.calibration_scale c.calibration_floor
    then some calibration
    else if not (eq_f c.predictive_calibration_scale zero_f)
        && bad_scale c.predictive_calibration_scale c.predictive_calibration_floor
    then some predictive_calibration
    else if le_f c.shared_evidence_weight zero_f || lt_f one_f c.shared_evidence_weight
    then some shared_weight
    else if not (str_eq c.residual_mode "apply")
        && not (str_eq c.residual_mode "shadow")
        && not (str_eq c.residual_mode "disabled")
    then some residual_mode
    else if not (is_abs c.rank_delta_sqlite_path) || le_int c.rank_delta_cache_entries (pos 0)
    then some rank_delta
    else if lt_f c.elastic_rank_delta_min_scale zero_f
        || lt_f c.elastic_rank_delta_max_scale c.elastic_rank_delta_min_scale
        || lt_f ten_f c.elastic_rank_delta_max_scale
    then some elastic_scales
    else if str_eq (clean c.rank_delta_sqlite_path) (clean c.database_path)
    then some same_database
    else if not (str_eq c.libra_vdb_contract_endpoint "")
        && not (str_eq c.libra_vdb_ranker_endpoint "")
        && not (str_eq c.libra_vdb_contract_endpoint c.libra_vdb_ranker_endpoint)
    then some endpoints_disagree
    else none

-- The deprecated name of the endpoint stands in for the new one.
unfoldable pub with_endpoint : Config → Config
with_endpoint c =
    if str_eq c.libra_vdb_contract_endpoint ""
    then record c { libra_vdb_contract_endpoint = c.libra_vdb_ranker_endpoint }
    else c

unfoldable pub check_contract : Config → Option ConfigError
unfolding has_prefix
check_contract c =
    if not (str_eq c.libra_vdb_contract_endpoint "")
      && not (has_prefix c.libra_vdb_contract_endpoint "unix:")
      && not (has_prefix c.libra_vdb_contract_endpoint "tcp:")
    then some contract_endpoint
    else if not (str_eq c.libra_vdb_contract_tls_mode "auto")
        && not (str_eq c.libra_vdb_contract_tls_mode "tls")
        && not (str_eq c.libra_vdb_contract_tls_mode "insecure")
    then some tls_mode
    else if not (str_eq c.libra_vdb_contract_tls_cert "" === str_eq c.libra_vdb_contract_tls_key "")
    then some tls_pair
    else if str_eq c.libra_vdb_contract_tls_mode "insecure"
        && (not (str_eq c.libra_vdb_contract_tls_ca "")
            || not (str_eq c.libra_vdb_contract_tls_cert ""))
    then some tls_insecure
    else if le_int c.libra_vdb_contract_concurrency (pos 0)
        || lt_int (pos 1024) c.libra_vdb_contract_concurrency
    then some concurrency
    else if le_int c.libra_vdb_contract_timeout_ms (pos 0)
        || le_int c.libra_vdb_contract_attempts (pos 0)
        || lt_int (pos 4) c.libra_vdb_contract_attempts
        || le_int c.libra_vdb_circuit_failures (pos 0)
        || le_int c.libra_vdb_circuit_cooldown_ms (pos 0)
    then some resilience
    else none

unfoldable pub check_modes : Config → Option ConfigError
unfolding has_prefix is_abs distinct_absolute_paths
check_modes c =
    if c.migrate_v1 && c.migrate_event_frame_corpus
    then some migrations
    else if c.reindex_event_frame_contract && (c.migrate_v1 || c.migrate_event_frame_corpus)
    then some reindex_alone
    else if c.reindex_event_frame_contract && str_eq c.libra_vdb_contract_endpoint ""
    then some reindex_endpoint
    else if (c.migrate_v1 || c.migrate_event_frame_corpus) && not (is_abs c.migration_backup)
    then some migration_backup
    else if c.agency_enabled
        && not (
            distinct_absolute_paths (
              c.agency_private_key ∷ c.agency_public_key ∷ c.agency_issuer_token
              ∷ c.agency_authority_token ∷ []))
    then some agency_paths
    else if c.agency_enabled && not (has_prefix c.listen "unix://")
    then some agency_socket
    else none

unfoldable pub check_background : Config → Option ConfigError
check_background c =
    if c.background_fuzz
      && (le_f c.background_fuzz_certainty zero_f
          || lt_f one_f c.background_fuzz_certainty
          || le_int c.background_fuzz_queue (pos 0)
          || lt_int (pos 4096) c.background_fuzz_queue
          || le_int c.background_fuzz_interval_ms (pos 0)
          || le_int c.background_fuzz_timeout_ms (pos 0)
          || lt_int c.background_fuzz_cooldown_sec (pos 0)
          || lt_int c.background_fuzz_max_events (pos 2)
          || lt_int (pos 64) c.background_fuzz_max_events
          || le_int c.background_fuzz_max_trials (pos 0)
          || lt_int (pos 512) c.background_fuzz_max_trials)
    then some background_fuzz
    else none

unfoldable pub check_all : Config → Option ConfigError
unfolding check_belief check_budgets check_embedder check_scores check_contract check_modes
    check_background with_endpoint
check_all c = or_else (check_belief c) (
    or_else (check_budgets c) (
      or_else (check_embedder c) (
        or_else (check_scores c) (
          or_else (check_contract (with_endpoint c))
            (or_else (check_modes (with_endpoint c)) (check_background (with_endpoint c)))))))

-- Parse, from the parsed flags on.
unfoldable pub parse_checked : Config → Parsed
unfolding check_all with_endpoint
parse_checked c = elim (check_all c) [ some e ↦ rejected e | none ↦ accepted (with_endpoint c) ]
