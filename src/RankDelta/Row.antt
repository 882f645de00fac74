-- ===== src/RankDelta/Row.antt =====
-- internal/rankdelta/store.go: the rows of the table, whose times are int64 nanoseconds of the Unix
-- epoch.
use eventframed.Prelude.{
  ℕ, ◌+◌, ◌-◌, ◌*◌, ◌%◌, ◌≤◌, ◌<◌, suc, String, Bool, true, false, not, ◌&&◌, ◌||◌, ◌≡◌, ◌⊎◌, inl,
  inr, ap, sym, ◌∙◌, arith, ltb, leb, ◌==◌, ==→≡, if◌then◌else◌, Bool-cases,
}
use eventframed.Prelude.Float64.{Float64}
use eventframed.Prelude.Int.{ℤ, pos, negsuc, eq_int, eq_int→≡}
use eventframed.Prelude.Word.{u64_mod}
use eventframed.Model.Snapshot.{Time, zero_time}
use eventframed.RankDelta.{DeltaRecord}

-- The columns of rank_deltas.
pub record DeltaRow : Type 0 where
  pub tenant_id : String
  pub key : String
  pub event_id : String
  pub delta : Float64
  pub reliability : Float64
  pub policy_version : ℕ
  pub evidence_epoch : ℕ
  pub graph_version : ℕ
  pub posterior_version : ℕ
  pub residual_version : ℕ
  pub abstraction_version : ℕ
  pub updated_at_ns : ℤ
  pub expires_at_ns : ℤ

-- The Unix epoch: nanoseconds since Go's zero time.
abbrev pub unix_epoch : ℕ
unix_epoch = 62135596800000000000

abbrev half_word : ℕ
half_word = 9223372036854775808

-- An int64 from its 64 bits.
abbrev signed : ℕ → ℤ
signed w = if ltb w half_word then pos w else negsuc (u64_mod - 1 - w)

-- t.UnixNano(), which wraps; 4 * 2^64 is more than the epoch.
unfoldable pub unix_nano : Time → ℤ
unix_nano t = signed ((t + (4 * u64_mod - unix_epoch)) % u64_mod)

-- time.Unix(0, n).UTC()
unfoldable pub from_nano : ℤ → Time
from_nano (pos n) = unix_epoch + n
from_nano (negsuc n) = unix_epoch - suc n

-- timeToUnixNano
unfoldable pub time_to_unix_nano : Time → ℤ
unfolding unix_nano
time_to_unix_nano value = if value == zero_time then pos 0 else unix_nano value

-- The arguments of the upsert.
unfoldable pub encode_record : DeltaRecord → DeltaRow
unfolding unix_nano time_to_unix_nano
encode_record r = record {
  tenant_id = r.tenant_id;
  key = r.key;
  event_id = r.event_id;
  delta = r.delta;
  reliability = r.reliability;
  policy_version = r.policy_version;
  evidence_epoch = r.evidence_epoch;
  graph_version = r.graph_version;
  posterior_version = r.posterior_version;
  residual_version = r.residual_version;
  abstraction_version = r.abstraction_version;
  updated_at_ns = unix_nano r.updated_at;
  expires_at_ns = time_to_unix_nano r.expires_at;
}

-- scanRecord, of a row that the database has scanned
unfoldable pub scan_record : DeltaRow → DeltaRecord
unfolding from_nano
scan_record row = record {
  tenant_id = row.tenant_id;
  key = row.key;
  event_id = row.event_id;
  delta = row.delta;
  reliability = row.reliability;
  policy_version = row.policy_version;
  evidence_epoch = row.evidence_epoch;
  graph_version = row.graph_version;
  posterior_version = row.posterior_version;
  residual_version = row.residual_version;
  abstraction_version = row.abstraction_version;
  updated_at = from_nano row.updated_at_ns;
  expires_at = if eq_int row.expires_at_ns (pos 0) then zero_time else from_nano row.expires_at_ns;
  expires_form = 0;
}

-- The instants that an int64 of nanoseconds reaches, from 1677 to 2262.
abbrev pub fits : Time → Bool
fits t = leb (unix_epoch - half_word) t && ltb t (unix_epoch + half_word)

-- A record that a row can hold: both times fit, an expiry is not the epoch itself, which stands for
-- none, and is in UTC without a clock reading.
abbrev pub storable : DeltaRecord → Bool
storable r =
    fits r.updated_at
    && (r.expires_at == zero_time || (fits r.expires_at && not (r.expires_at == unix_epoch)))
    && r.expires_form == 0

from_nano-signed :
    (w t : ℕ)
    → (w + unix_epoch ≡ t × w < half_word)
      ⊎ (w + unix_epoch ≡ t + u64_mod × half_word ≤ w × w < u64_mod)
    → from_nano (signed w) ≡ t
unfolding from_nano
from_nano-signed w t (inl (e, small)) =
    let low : ltb w half_word ≡ true = ground arith in rw low (omega arith)
from_nano-signed w t (inr (e, large, bound)) =
    let high : ltb w half_word ≡ false = ground arith in rw high (omega arith)

from_nano-unix_nano : (t : Time) → fits t ≡ true → from_nano (unix_nano t) ≡ t
unfolding unix_nano
from_nano-unix_nano t h =
    let low : unix_epoch - half_word ≤ t = ground arith in
    let high : t < unix_epoch + half_word = ground arith in
    from_nano-signed ((t + (4 * u64_mod - unix_epoch)) % u64_mod) t
      (elim (Bool-cases (ltb t unix_epoch)) [
        | inl past ↦
            let k : t < unix_epoch = ground arith in inr (omega arith, omega arith, omega arith)
        | inr since ↦ let k : unix_epoch ≤ t = ground arith in inl (omega arith, omega arith)
      ])

expires-scan :
    (t : Time)
    → (t == zero_time || (fits t && not (t == unix_epoch))) ≡ true
    → (if eq_int (time_to_unix_nano t) (pos 0) then zero_time else from_nano (time_to_unix_nano t))
      ≡ t
unfolding time_to_unix_nano from_nano
expires-scan t h = elim (Bool-cases (t == zero_time)) [
  | inl none_set ↦ rw none_set (ground (arith, ==→≡ t zero_time))
  | inr set ↦
      let back = from_nano-unix_nano t (ground arith) in
      rw set (elim (Bool-cases (eq_int (unix_nano t) (pos 0))) [
        | inl epoch ↦
            let zero_nanos = eq_int→≡ (unix_nano t) (pos 0) epoch in
            let here : unix_epoch ≡ t = ap from_nano (sym zero_nanos) ∙ back in
            absurd (ground (arith, here))
        | inr other ↦ rw other back
      ])
]

-- What is written and read again is the record, if a row can hold it.
pub scan_record-encode_record :
    (r : DeltaRecord) → storable r ≡ true → scan_record (encode_record r) ≡ r
unfolding scan_record encode_record
scan_record-encode_record r h =
    let updated = from_nano-unix_nano r.updated_at (ground arith) in
    let expires = expires-scan r.expires_at (ground arith) in
    let form : 0 ≡ r.expires_form = ground arith in
    λ i. record r { updated_at = updated i; expires_at = expires i; expires_form = form i }
