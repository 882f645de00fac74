-- ===== src/Memory/Agency/Grants.antt =====
-- Which proposals `ClaimAgencyProposals` hands out.
use eventframed.Prelude.{String, Bool, true, false, ◌&&◌, ◌≡◌, ◌≤◌, ◌<◌, ◌⊎◌}
use eventframed.Prelude.Dict.{Dict}
use eventframed.Model.Snapshot.{Time, Snapshot}
use eventframed.Model.Proposal.{AgencyProposalRecord, pending, claimed}
use eventframed.Store.Tau.{tau_snapshot_compatible, tau_scope_of}
use eventframed.Memory.{Store}
use eventframed.Memory.Agency.Claim.{has_tau, scope_blocked, lease_to}

-- A proposal that may be handed out at `now`.
pub record Claimable (blocked : Bool) (current : Snapshot) (now : Time) (r : AgencyProposalRecord)
    : Type 0 where
  pub free : (r.status ≡ pending) ⊎ ((r.status ≡ claimed) × (r.lease_until ≤ now))
  pub begun : r.proposal.not_before ≤ now
  pub alive : now < r.proposal.expires_at
  pub forecast : tau_snapshot_compatible r.proposal.tau current ≡ true
  pub unblocked : (has_tau r.proposal.tau && blocked) ≡ false

abbrev pub ClaimableIn : Dict AgencyProposalRecord → Snapshot → Time → AgencyProposalRecord → Type 0
ClaimableIn records current now r =
    Claimable (scope_blocked records (tau_scope_of r.proposal)) current now r

-- The answer's record is a claimable one, leased to the consumer.
abbrev pub LeasedFrom :
    (AgencyProposalRecord → Type 0) → String → Time → AgencyProposalRecord → Type 0
LeasedFrom P consumer until a = (r : AgencyProposalRecord) × P r × (a ≡ lease_to consumer until r)
