-- ===== src/Agency.antt =====
-- internal/agency/agency.go: the policy of the agency and the construction of proposals. Keys,
-- tokens and signatures are files and cryptography and are left out.
pub mod Build
pub mod Bounds
use eventframed.Prelude.{ℕ, String, Bool, true, ◌&&◌}
use eventframed.Prelude.Int.{ℤ, pos, lt_int, le_int}

-- The counts are Go's `int`; the durations are in nanoseconds.
pub record Policy : Type 0 where
  pub enabled : Bool
  pub max_evidence : ℤ
  pub max_reason_bytes : ℤ
  pub max_claims : ℤ
  pub max_chain_depth : ℤ
  pub max_proposals_per_chain : ℤ
  pub max_pending_per_tenant : ℤ
  pub max_future : ℤ
  pub max_ttl : ℤ
  pub lease_duration : ℤ

-- DefaultPolicy
unfoldable pub default_policy : Bool → Policy
default_policy enabled = record {
  enabled = enabled;
  max_evidence = pos 32;
  max_reason_bytes = pos 4096;
  max_claims = pos 50;
  max_chain_depth = pos 3;
  max_proposals_per_chain = pos 8;
  max_pending_per_tenant = pos 1000;
  max_future = pos 2592000000000000;
  max_ttl = pos 604800000000000;
  lease_duration = pos 30000000000;
}

-- Policy.Valid
unfoldable pub valid : Policy → Bool
valid p =
    lt_int (pos 0) p.max_evidence
    && lt_int (pos 0) p.max_reason_bytes
    && lt_int (pos 0) p.max_claims
    && le_int (pos 0) p.max_chain_depth
    && lt_int (pos 0) p.max_proposals_per_chain
    && lt_int (pos 0) p.max_pending_per_tenant
    && lt_int (pos 0) p.max_future
    && lt_int (pos 0) p.max_ttl
    && lt_int (pos 0) p.lease_duration
