-- ===== src/Tests/Authority.antt =====
-- The requests of the agency: a draft is issued, claimed, and approved.
use mathlib.Core.List.{Memᴰ}
use eventframed.Prelude.{
  String, true, Option, none, some, [], ◌∷◌, ◌≡◌, ◌⊎◌, inl, refl, arith, str_eq,
}
use eventframed.Prelude.Dict.{get, get2, put, put2, inner, count_values, map_values, map_values2}
use eventframed.Prelude.Float64.{half_f}
use eventframed.Prelude.Int.{pos}
use eventframed.Model.Proposal.{
  AgencyProposal, SignedAgencyProposal, AgencyProposalRecord, ResolveAgencyProposalRequest,
  approved, wake,
}
use eventframed.Agency.{default_policy}
use eventframed.Store.Tau.{tau_snapshot_compatible}
use eventframed.Memory.{Store}
use eventframed.Memory.Agency.{admission, put_agency_proposal}
use eventframed.Memory.Agency.Approval.{Held, blocked_in}
use eventframed.Memory.Agency.Claim.{claim_agency_proposals, lease_to}
use eventframed.Memory.Agency.Served.{claim_serves}
use eventframed.Memory.Agency.Resolve.{outcome}
use eventframed.Memory.Events.{ingest}
use eventframed.Service.{protocol_version}
use eventframed.Service.Agency.{
  AgencyConfig, IssueAgencyProposalRequest, ClaimAgencyProposalsRequest, issue_agency_proposal,
  request_resolution, trimmed_resolution,
}
use eventframed.Service.Agency.Issued.{
  Issued, Served, issue_agency_proposal-Issued, request_resolution-Held,
}
use eventframed.Tests.Samples.{proposal, pending_record}
use eventframed.Tests.Histories.{seeded}

abbrev sign : AgencyProposal → Option SignedAgencyProposal
sign p = some (record { payload = p.id; signature = "sig"; key_id = "k" })

abbrev hash : AgencyProposal → Option String
hash p = some p.id

abbrev config : AgencyConfig
config = record {
  agency_policy = default_policy true;
  agency_signer = some sign;
  agency_issuer_token = "issuer";
  agency_authority_token = "authority";
}

abbrev issue : IssueAgencyProposalRequest
issue = record {
  protocol_version = protocol_version;
  issuer_token = "issuer";
  proposal = record {
    id = " p1";
    tenant_id = "t";
    session_id = "s";
    action = wake;
    reason = "because";
    evidence_ids = "e1" ∷ [];
    expected_utility = half_f;
    priority = half_f;
    not_before = 10;
    scheduled_for = none;
    expires_at = 100;
    idempotency_key = "p1";
    causal_chain_id = "chain";
    parent_proposal_id = "";
    causal_chain_depth = pos 0;
  };
}

abbrev issued : Store
issued = (issue_agency_proposal hash seeded config 9 issue).0

issue_agency_proposal-Issued_example : Issued seeded issued config 9 issue
unfolding ingest issue_agency_proposal get2 get put2 put tau_snapshot_compatible count_values inner
    default_policy admission
issue_agency_proposal-Issued_example =
    issue_agency_proposal-Issued hash seeded config 9 issue refl refl

abbrev claim : ClaimAgencyProposalsRequest
claim = record {
  protocol_version = protocol_version;
  authority_token = "authority";
  tenant_id = "t ";
  consumer_id = "c";
  limit = pos 0;
}

abbrev waiting : AgencyProposalRecord
waiting = pending_record (proposal none "p1")

abbrev queued : Store
queued = (put_agency_proposal seeded waiting "pd" 8 100 9).0

claim_serves_example :
    Memᴰ (lease_to "c" 42 waiting) (claim_agency_proposals queued "t" "c" 12 1 30).1
unfolding ingest put_agency_proposal get2 get put2 put tau_snapshot_compatible admission
    count_values inner
claim_serves_example =
    claim_serves queued "t" "c" 12 1 30 "p1" {r = waiting} refl
      (record {
        free = inl refl;
        begun = omega arith;
        alive = omega arith;
        forecast = refl;
        unblocked = refl;
      })
      (omega arith)

abbrev leased : Store
leased = (claim_agency_proposals queued "t" "c" 12 1 30).0

abbrev approval : ResolveAgencyProposalRequest
approval = record {
  cancelled_execution_refs = [];
  protocol_version = protocol_version;
  authority_token = "authority";
  tenant_id = "t";
  proposal_id = "p1";
  consumer_id = " c";
  decision = approved;
  reason = "authorized";
  execution_ref = "job-1";
}

request_resolution-Held_example :
    ((lease_to "c" 42 waiting).status ≡ approved)
    ⊎ ((str_eq "authority" "authority" ≡ true)
        × Held
            (blocked_in leased (trimmed_resolution approval).tenant_id (lease_to "c" 42 waiting))
            leased.snapshot
            (lease_to "c" 42 waiting)
            (trimmed_resolution approval)
            15)
unfolding ingest put_agency_proposal get2 get put2 put tau_snapshot_compatible admission
    count_values inner claim_agency_proposals map_values2 map_values request_resolution
    default_policy trimmed_resolution outcome
request_resolution-Held_example = request_resolution-Held leased config 15 approval refl refl refl
