-- ===== src/Model/Snapshot.antt =====
-- internal/model/api.go, `Snapshot`: the version counters, uint64 each, and instants.
use eventframed.Prelude.{ℕ, Bool, ◌&&◌, ltb, ◌==◌}

-- time.Time as an instant: nanoseconds since Go's zero time, which is 0. `UTC()` keeps the instant.
abbrev pub Time : Type 0
Time = ℕ

-- time.Duration, in nanoseconds; the durations that the program passes on are not negative.
abbrev pub Duration : Type 0
Duration = ℕ

abbrev pub zero_time : Time
zero_time = 0

-- t.Before(u) and t.After(u)
abbrev pub before : Time → Time → Bool
before t u = ltb t u

abbrev pub after : Time → Time → Bool
after t u = ltb u t

pub record Snapshot : Type 0 where
  pub runtime_version : ℕ
  pub policy_version : ℕ
  pub contract_version : ℕ
  pub graph_version : ℕ
  pub posterior_version : ℕ
  pub residual_version : ℕ
  pub abstraction_version : ℕ
  pub agency_version : ℕ
  pub evidence_epoch : ℕ

abbrev pub contract_version : ℕ
contract_version = 17

-- a == b on the struct
unfoldable pub eq_snapshot : Snapshot → Snapshot → Bool
eq_snapshot a b =
    a.runtime_version == b.runtime_version
    && a.policy_version == b.policy_version
    && a.contract_version == b.contract_version
    && a.graph_version == b.graph_version
    && a.posterior_version == b.posterior_version
    && a.residual_version == b.residual_version
    && a.abstraction_version == b.abstraction_version
    && a.agency_version == b.agency_version
    && a.evidence_epoch == b.evidence_epoch
