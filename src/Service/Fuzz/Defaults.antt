-- ===== src/Service/Fuzz/Defaults.antt =====
-- What a policy of background audits is once its defaults have been filled in.
use eventframed.Prelude.{ℕ, true, false, not, ◌&&◌, none, ◌≡◌, refl, arith}
use eventframed.Prelude.Float64.{Float64, zero_f, le_f, in_unit}
use eventframed.Prelude.Int.{ℤ, pos, eq_int, lt_int, le_int}
use eventframed.Service.Fuzz.{
  BackgroundFuzzPolicy, with_defaults, validate_policy, or_int, or_float, min_int, twenty_percent,
  five_percent, ninety_percent, ninety_five_percent,
}

-- A policy whose settings pass and whose other controls are left to the defaults.
pub record Usable (p : BackgroundFuzzPolicy) : Type 0 where
  pub certain :
      in_unit p.answer_certainty_threshold && not (le_f p.answer_certainty_threshold zero_f) ≡ true
  pub queue : lt_int (pos 0) p.queue_capacity ≡ true
  pub queue_most : lt_int (pos 4096) p.queue_capacity ≡ false
  pub interval : lt_int (pos 0) p.worker_interval ≡ true
  pub timeout : lt_int (pos 0) p.job_timeout ≡ true
  pub cooldown : lt_int p.cooldown (pos 0) ≡ false
  pub events : lt_int p.max_events (pos 2) ≡ false
  pub events_most : lt_int (pos 64) p.max_events ≡ false
  pub trials : lt_int (pos 0) p.max_perturbations ≡ true
  pub trials_most : lt_int (pos 512) p.max_perturbations ≡ false
  pub stability : p.stability_threshold ≡ zero_f
  pub probability : p.required_stable_probability ≡ zero_f
  pub level : p.confidence_level ≡ zero_f
  pub least : p.min_trials ≡ pos 0

or_int-kept : (x d : ℤ) → lt_int (pos 0) x ≡ true → or_int x d ≡ x
or_int-kept x d h = ground arith

or_int-not_neg :
    (x : ℤ) (d : ℕ) → lt_int x (pos 0) ≡ false → lt_int (or_int x (pos d)) (pos 0) ≡ false
or_int-not_neg x d h = ground arith

or_float-kept : (x d : Float64) → in_unit x && not (le_f x zero_f) ≡ true → or_float x d ≡ x
or_float-kept x d h = ground arith

least_trials :
    (m : ℤ)
    → lt_int (pos 0) m ≡ true
    → (le_int (min_int (pos 8) m) (pos 0) ≡ false)
      × (lt_int m (min_int (pos 8) m) ≡ false)
      × (eq_int (min_int (pos 8) m) (pos 0) ≡ false)
least_trials m h = ground arith

record Fit (p : BackgroundFuzzPolicy) : Type 0 where
  certain :
      in_unit p.answer_certainty_threshold && not (le_f p.answer_certainty_threshold zero_f) ≡ true
  queue : lt_int (pos 0) p.queue_capacity ≡ true
  queue_most : lt_int (pos 4096) p.queue_capacity ≡ false
  interval : lt_int (pos 0) p.worker_interval ≡ true
  timeout : lt_int (pos 0) p.job_timeout ≡ true
  cooldown : lt_int p.cooldown (pos 0) ≡ false
  events : lt_int p.max_events (pos 2) ≡ false
  events_most : lt_int (pos 64) p.max_events ≡ false
  trials : lt_int (pos 0) p.max_perturbations ≡ true
  trials_most : lt_int (pos 512) p.max_perturbations ≡ false
  least : lt_int (pos 0) p.min_trials ≡ true
  most : lt_int p.max_perturbations p.min_trials ≡ false
  stability : p.stability_threshold ≡ five_percent
  probability : p.required_stable_probability ≡ ninety_percent
  level : p.confidence_level ≡ ninety_five_percent

Fit-valid : (p : BackgroundFuzzPolicy) → Fit p → validate_policy p ≡ none
unfolding validate_policy
Fit-valid p u = ground arith

Usable-Fit : (p : BackgroundFuzzPolicy) → Usable p → Fit (with_defaults p)
unfolding with_defaults
Usable-Fit p u = record {
  certain = rw (or_float-kept p.answer_certainty_threshold twenty_percent u.certain) u.certain;
  queue = rw (or_int-kept p.queue_capacity (pos 128) u.queue) u.queue;
  queue_most = rw (or_int-kept p.queue_capacity (pos 128) u.queue) u.queue_most;
  interval = rw (or_int-kept p.worker_interval (pos 30000000000) u.interval) u.interval;
  timeout = rw (or_int-kept p.job_timeout (pos 30000000000) u.timeout) u.timeout;
  cooldown = or_int-not_neg p.cooldown 900000000000 u.cooldown;
  events = rw events u.events;
  events_most = rw events u.events_most;
  trials = rw trials u.trials;
  trials_most = rw trials u.trials_most;
  least = rw (u.least, trials) (ground (arith, least_trials p.max_perturbations u.trials));
  most = rw (u.least, trials) (ground (arith, least_trials p.max_perturbations u.trials));
  stability = rw u.stability refl;
  probability = rw u.probability refl;
  level = rw u.level refl;
}
  where
    events : or_int p.max_events (pos 8) ≡ p.max_events
    events = or_int-kept p.max_events (pos 8) (ground arith)

    trials : or_int p.max_perturbations (pos 8) ≡ p.max_perturbations
    trials = or_int-kept p.max_perturbations (pos 8) u.trials

pub Usable-valid : (p : BackgroundFuzzPolicy) → Usable p → validate_policy (with_defaults p) ≡ none
Usable-valid p u = Fit-valid (with_defaults p) (Usable-Fit p u)
