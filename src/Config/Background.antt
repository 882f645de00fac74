-- ===== src/Config/Background.antt =====
-- cmd/eventframed/main.go: the policy of the background audits that the settings give, and the test
-- that `service.New` makes of it.
use native.Mathlib.Nat.{mul-le-mul_right}
use eventframed.Prelude.{
  ℕ, zero, suc, ◌-◌, ◌*◌, ◌%◌, ◌≤◌, ◌<◌, true, false, not, ◌&&◌, Option, none, some, ◌≡◌, inl, inr,
  refl, sym, ◌∙◌, arith, if_elim, ltb, if◌then◌else◌, Option-cases,
}
use eventframed.Prelude.Float64.{is_nan, zero_f, le_f, in_unit}
use eventframed.Prelude.Int.{ℤ, pos, negsuc, lt_int, le_int, magnitude}
use eventframed.Prelude.Word.{u64_mod}
use eventframed.Config.{Config}
use eventframed.Config.Check.{
  ConfigError, accepted, or_else, check_background, check_belief, check_budgets, check_embedder,
  check_scores, check_contract, check_modes, check_all, with_endpoint, parse_checked,
}
use eventframed.Service.Fuzz.{BackgroundFuzzPolicy, FuzzInvalid, with_defaults, validate_policy}
use eventframed.Service.Fuzz.Defaults.{Usable, Usable-valid}

-- The int64 with the bit pattern n.
unfoldable pub signed : ℕ → ℤ
signed n = if ltb n 9223372036854775808 then pos n else negsuc (u64_mod - 1 - n)

-- time.Duration(value) * unit, in int64
unfoldable pub duration_of : ℤ → ℕ → ℤ
unfolding signed
duration_of (pos n) unit = signed ((n * unit) % u64_mod)
duration_of (negsuc n) unit = signed ((u64_mod - suc n * unit % u64_mod) % u64_mod)

-- The policy of main.go; the fields that it leaves out are zero.
unfoldable pub background_policy : Config → BackgroundFuzzPolicy
unfolding duration_of
background_policy c = record {
  enabled = c.background_fuzz;
  answer_certainty_threshold = c.background_fuzz_certainty;
  queue_capacity = c.background_fuzz_queue;
  worker_interval = duration_of c.background_fuzz_interval_ms 1000000;
  job_timeout = duration_of c.background_fuzz_timeout_ms 1000000;
  cooldown = duration_of c.background_fuzz_cooldown_sec 1000000000;
  max_events = c.background_fuzz_max_events;
  max_perturbations = c.background_fuzz_max_trials;
  stability_threshold = zero_f;
  required_stable_probability = zero_f;
  confidence_level = zero_f;
  min_trials = pos 0;
}

-- The part of service.New on background audits.
unfoldable pub new_background : BackgroundFuzzPolicy → Option FuzzInvalid
unfolding with_defaults validate_policy
new_background p = if p.enabled then validate_policy (with_defaults p) else none

-- What lies in the range of the settings, apart from the one test of them.
pub record InRange (c : Config) : Type 0 where
  pub a_number : is_nan c.background_fuzz_certainty ≡ false
  pub interval : le_int c.background_fuzz_interval_ms (pos 9223372036854) ≡ true
  pub timeout : le_int c.background_fuzz_timeout_ms (pos 9223372036854) ≡ true
  pub cooldown : le_int c.background_fuzz_cooldown_sec (pos 9223372036) ≡ true

or_else-none : (a b : Option ConfigError) → or_else a b ≡ none → (a ≡ none) × (b ≡ none)
or_else-none none b h = (refl, h)
or_else-none (some e) b h = cc

check_all-background : (c : Config) → check_all c ≡ none → check_background (with_endpoint c) ≡ none
unfolding check_all
check_all-background c h =
    let (_, a) = or_else-none (check_belief c) _ h in
    let (_, b) = or_else-none (check_budgets c) _ a in
    let (_, d) = or_else-none (check_embedder c) _ b in
    let (_, e) = or_else-none (check_scores c) _ d in
    let (_, f) = or_else-none (check_contract (with_endpoint c)) _ e in
    let (_, g) = or_else-none (check_modes (with_endpoint c)) _ f in g

parse_checked-background :
    (c : Config) {d : Config} → parse_checked c ≡ accepted d → check_background d ≡ none
unfolding parse_checked
parse_checked-background c {d} h = elim (Option-cases (check_all c)) [
  | inl e ↦ let same : with_endpoint c ≡ d = ground arith in rw (← same) (check_all-background c e)
  | inr (e, f) ↦ absurd (ground arith)
]

duration_of-pos :
    (v : ℤ) (unit most : ℕ)
    → lt_int v (pos 0) ≡ false
    → le_int v (pos most) ≡ true
    → most * unit < 9223372036854775808
    → duration_of v unit ≡ pos (magnitude v * unit)
unfolding duration_of signed
duration_of-pos (pos n) unit most h k room =
    let small : n ≤ most = ground arith in
    let below : n * unit ≤ most * unit = mul-le-mul_right unit small in ground arith
duration_of-pos (negsuc n) unit most h k room = absurd (ground arith)

positive_duration :
    (v : ℤ) (unit : ℕ)
    → lt_int (pos 0) v ≡ true
    → lt_int (pos 0) (pos (magnitude v * suc unit)) ≡ true
positive_duration (pos (suc n)) unit h = grind arith
positive_duration (pos zero) unit h = absurd (ground arith)
positive_duration (negsuc n) unit h = absurd (ground arith)

-- What the test of the settings leaves of them.
record Settled (c : Config) : Type 0 where
  certain :
      in_unit c.background_fuzz_certainty && not (le_f c.background_fuzz_certainty zero_f) ≡ true
  queue : lt_int (pos 0) c.background_fuzz_queue ≡ true
  queue_most : lt_int (pos 4096) c.background_fuzz_queue ≡ false
  interval : lt_int (pos 0) c.background_fuzz_interval_ms ≡ true
  timeout : lt_int (pos 0) c.background_fuzz_timeout_ms ≡ true
  cooldown : lt_int c.background_fuzz_cooldown_sec (pos 0) ≡ false
  events : lt_int c.background_fuzz_max_events (pos 2) ≡ false
  events_most : lt_int (pos 64) c.background_fuzz_max_events ≡ false
  trials : lt_int (pos 0) c.background_fuzz_max_trials ≡ true
  trials_most : lt_int (pos 512) c.background_fuzz_max_trials ≡ false

check_background-Settled :
    (c : Config)
    → c.background_fuzz ≡ true
    → is_nan c.background_fuzz_certainty ≡ false
    → check_background c ≡ none
    → Settled c
unfolding check_background
check_background-Settled c enabled number h = ground arith

Usable-background_policy : (c : Config) → InRange c → Settled c → Usable (background_policy c)
unfolding background_policy
Usable-background_policy c r t =
    let interval =
      duration_of-pos c.background_fuzz_interval_ms 1000000 9223372036854
        (ground (arith, t.interval)) r.interval (omega arith) in
    let timeout =
      duration_of-pos c.background_fuzz_timeout_ms 1000000 9223372036854 (ground (arith, t.timeout))
        r.timeout (omega arith) in
    let cooldown =
      duration_of-pos c.background_fuzz_cooldown_sec 1000000000 9223372036 t.cooldown r.cooldown
        (omega arith) in
    record {
      certain = t.certain;
      queue = t.queue;
      queue_most = t.queue_most;
      interval = rw interval (positive_duration c.background_fuzz_interval_ms 999999 t.interval);
      timeout = rw timeout (positive_duration c.background_fuzz_timeout_ms 999999 t.timeout);
      cooldown = rw cooldown (ground arith);
      events = t.events;
      events_most = t.events_most;
      trials = t.trials;
      trials_most = t.trials_most;
      stability = refl;
      probability = refl;
      level = refl;
      least = refl;
    }

new_background-none :
    (p : BackgroundFuzzPolicy)
    → (p.enabled ≡ true → validate_policy (with_defaults p) ≡ none)
    → new_background p ≡ none
unfolding new_background
new_background-none p h = if_elim (λ (o : Option FuzzInvalid). o ≡ none) p.enabled _ _ h (λ _. refl)

background_policy-enabled : (c : Config) → (background_policy c).enabled ≡ c.background_fuzz
unfolding background_policy
background_policy-enabled c = refl

-- Settings that `Parse` accepts, with a certainty that is a number and with durations that fit into
-- an int64 of nanoseconds, give background audits that `service.New` accepts.
pub parse_checked-new_background :
    (c : Config) {settings : Config}
    → parse_checked c ≡ accepted settings
    → InRange settings
    → new_background (background_policy settings) ≡ none
parse_checked-new_background c {settings} h r =
    new_background-none (background_policy settings) (λ enabled.
      Usable-valid (background_policy settings) (
        Usable-background_policy settings r (
          check_background-Settled settings (sym (background_policy-enabled settings) ∙ enabled)
            r.a_number (parse_checked-background c h))))
