-- ===== src/RankDelta.antt =====
-- internal/rankdelta/store.go: the records of rank deltas and their cache. The SQLite database is
-- outside.
pub mod Cache
pub mod Row
pub mod Batch
use eventframed.Prelude.{
  ℕ, String, concat, Bool, true, false, not, ◌&&◌, ◌||◌, Option, none, some, ◌==◌, str_eq,
  if◌then◌else◌,
}
use eventframed.Prelude.Float64.{Float64, neg, is_nan, is_inf, le_f, lt_f, eq_f, zero_f, one_f}
use eventframed.Model.Snapshot.{Time, Snapshot, zero_time, before, after}

-- `Record` of the package. `expires_form` is what == sees of ExpiresAt beside the instant, its location
-- and its clock reading; 0 is UTC without a reading.
pub record DeltaRecord : Type 0 where
  pub tenant_id : String
  pub key : String
  pub event_id : String
  pub delta : Float64
  pub reliability : Float64
  pub policy_version : ℕ
  pub evidence_epoch : ℕ
  pub graph_version : ℕ
  pub posterior_version : ℕ
  pub residual_version : ℕ
  pub abstraction_version : ℕ
  pub updated_at : Time
  pub expires_at : Time
  pub expires_form : ℕ

-- -1
abbrev pub minus_one : Float64
minus_one = neg 0x3fefffffffffffff

-- Record.ValidFor
unfoldable pub valid_for : DeltaRecord → Snapshot → Time → Bool
valid_for r snapshot now =
    not (str_eq r.tenant_id "")
    && not (str_eq r.key "")
    && not (str_eq r.event_id "")
    && not (is_nan r.delta)
    && not (is_inf r.delta)
    && le_f minus_one r.delta
    && le_f r.delta one_f
    && le_f zero_f r.reliability
    && le_f r.reliability one_f
    && r.policy_version == snapshot.policy_version
    && r.evidence_epoch == snapshot.evidence_epoch
    && r.graph_version == snapshot.graph_version
    && r.posterior_version == snapshot.posterior_version
    && r.residual_version == snapshot.residual_version
    && r.abstraction_version == snapshot.abstraction_version
    && not (after r.updated_at now)
    && (r.expires_at == zero_time || before now r.expires_at)

pub data DeltaError : Type 0 where
  delta_fields delta_range : DeltaError

-- validateRecord; `none` is the nil error.
unfoldable pub validate_record : DeltaRecord → Option DeltaError
validate_record r =
    if str_eq r.tenant_id "" || str_eq r.key "" || str_eq r.event_id "" || r.updated_at == zero_time
    then some delta_fields
    else if is_nan r.delta
        || is_inf r.delta
        || lt_f r.delta minus_one
        || lt_f one_f r.delta
        || lt_f r.reliability zero_f
        || lt_f one_f r.reliability
    then some delta_range
    else none

-- materiallyEqual
unfoldable pub materially_equal : DeltaRecord → DeltaRecord → Bool
materially_equal a b =
    str_eq a.tenant_id b.tenant_id
    && str_eq a.key b.key
    && str_eq a.event_id b.event_id
    && eq_f a.delta b.delta
    && eq_f a.reliability b.reliability
    && a.policy_version == b.policy_version
    && a.evidence_epoch == b.evidence_epoch
    && a.graph_version == b.graph_version
    && a.posterior_version == b.posterior_version
    && a.residual_version == b.residual_version
    && a.abstraction_version == b.abstraction_version
    && a.expires_at == b.expires_at
    && a.expires_form == b.expires_form
