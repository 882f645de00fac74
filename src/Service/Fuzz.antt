-- ===== src/Service/Fuzz.antt =====
-- internal/service/background_fuzz.go: the policy and the queue of background audits. `Enqueue` and
-- `execute` hold the queue's lock in parts, so each part under the lock, each attempt to send and
-- each receive is a step of its own, and a schedule of steps is an interleaving of any number of
-- calls of `Enqueue` with the one worker. The audit itself is outside: a step brings its outcome.
pub mod Defaults
pub mod Queue
pub mod Live
pub mod Bundles
pub mod Enqueue
pub mod Execute
use eventframed.Prelude.{
  ℕ, zero, suc, ◌+◌, min, String, Bool, true, false, not, ◌&&◌, ◌||◌, Option, none, some, List, [],
  ◌∷◌, ◌++◌, ltb, ◌==◌, str_eq, length, if◌then◌else◌, is_some,
}
use eventframed.Prelude.Dict.{Dict, get, put, remove}
use eventframed.Prelude.Float64.{Float64, eq_f, le_f, zero_f, nonneg, in_unit}
use eventframed.Prelude.Int.{ℤ, pos, negsuc, eq_int, lt_int, le_int, magnitude}
use eventframed.Prelude.Word.{inc}
use eventframed.Model.Event.{Field}
use eventframed.Model.Snapshot.{Time, Duration, Snapshot, zero_time, before}

-- Durations are nanoseconds.
pub record BackgroundFuzzPolicy : Type 0 where
  pub enabled : Bool
  pub answer_certainty_threshold : Float64
  pub queue_capacity : ℤ
  pub worker_interval : ℤ
  pub job_timeout : ℤ
  pub cooldown : ℤ
  pub max_events : ℤ
  pub max_perturbations : ℤ
  pub stability_threshold : Float64
  pub required_stable_probability : Float64
  pub confidence_level : Float64
  pub min_trials : ℤ

-- 0.05, 0.2, 0.9, 0.95 and 0.99
abbrev pub five_percent : Float64
five_percent = nonneg 0x3fa999999999999a

abbrev pub twenty_percent : Float64
twenty_percent = nonneg 0x3fc999999999999a

abbrev pub ninety_percent : Float64
ninety_percent = nonneg 0x3feccccccccccccd

abbrev pub ninety_five_percent : Float64
ninety_five_percent = nonneg 0x3fee666666666666

abbrev pub ninety_nine_percent : Float64
ninety_nine_percent = nonneg 0x3fefae147ae147ae

abbrev pub or_float : Float64 → Float64 → Float64
or_float x default = if eq_f x zero_f then default else x

abbrev pub or_int : ℤ → ℤ → ℤ
or_int x default = if eq_int x (pos 0) then default else x

abbrev pub min_int : ℤ → ℤ → ℤ
min_int a b = if lt_int b a then b else a

-- withDefaults
unfoldable pub with_defaults : BackgroundFuzzPolicy → BackgroundFuzzPolicy
with_defaults p = record p {
  answer_certainty_threshold = or_float p.answer_certainty_threshold twenty_percent;
  queue_capacity = or_int p.queue_capacity (pos 128);
  worker_interval = or_int p.worker_interval (pos 30000000000);
  job_timeout = or_int p.job_timeout (pos 30000000000);
  cooldown = or_int p.cooldown (pos 900000000000);
  max_events = or_int p.max_events (pos 8);
  max_perturbations = or_int p.max_perturbations (pos 8);
  stability_threshold = or_float p.stability_threshold five_percent;
  required_stable_probability = or_float p.required_stable_probability ninety_percent;
  confidence_level = or_float p.confidence_level ninety_five_percent;
  min_trials = or_int p.min_trials (min_int (pos 8) (or_int p.max_perturbations (pos 8)));
}

-- The errors of `validate`, one for each message.
pub data FuzzInvalid : Type 0 where
  certainty_threshold queue_controls audit_bounds stability_controls confidence : FuzzInvalid

abbrev positive_unit : Float64 → Bool
positive_unit x = in_unit x && not (le_f x zero_f)

-- validate; `none` is the nil error.
unfoldable pub validate_policy : BackgroundFuzzPolicy → Option FuzzInvalid
validate_policy p =
    if not p.enabled
    then none
    else if not (positive_unit p.answer_certainty_threshold)
    then some certainty_threshold
    else if le_int p.queue_capacity (pos 0)
        || lt_int (pos 4096) p.queue_capacity
        || le_int p.worker_interval (pos 0)
        || le_int p.job_timeout (pos 0)
        || lt_int p.cooldown (pos 0)
    then some queue_controls
    else if lt_int p.max_events (pos 2)
        || lt_int (pos 64) p.max_events
        || le_int p.max_perturbations (pos 0)
        || lt_int (pos 512) p.max_perturbations
        || le_int p.min_trials (pos 0)
        || lt_int p.max_perturbations p.min_trials
    then some audit_bounds
    else if not (positive_unit p.stability_threshold)
        || not (positive_unit p.required_stable_probability)
    then some stability_controls
    else if not (eq_f p.confidence_level ninety_percent)
        && not (eq_f p.confidence_level ninety_five_percent)
        && not (eq_f p.confidence_level ninety_nine_percent)
    then some confidence
    else none

pub record FuzzPerturbation : Type 0 where
  pub id : String
  pub property_id : String
  pub event_id : String
  pub validity_rule_id : String
  pub validation_kind : String
  pub source_event_id : String
  pub replacements : Dict Field

pub record BackgroundFuzzJob : Type 0 where
  pub id : String
  pub dedup_key : String
  pub tenant_id : String
  pub as_of : Time
  pub snapshot : Snapshot
  pub query_digest : String
  pub query_vector : List Float64
  pub event_ids : List String
  pub perturbations : List FuzzPerturbation
  pub answer_certainty : Float64
  pub trigger_reason : String

-- The kinds of error that `execute` tells apart, or the counts of a response.
pub data AuditOutcome : Type 0 where
  audited : (trials properties invariants : ℕ) → AuditOutcome
  stale_snapshot deadline_exceeded canceled other_error : AuditOutcome

pub record BackgroundFuzzResultSummary : Type 0 where
  pub job_id : String
  pub trigger_reason : String
  pub answer_certainty : Float64
  pub event_count : ℕ
  pub perturbation_count : ℕ
  pub completed_at : Time
  pub status : String
  pub error : String
  pub trial_count : ℕ
  pub property_count : ℕ
  pub conditional_invariants : ℕ
