-- ===== src/Service/Agency.antt =====
-- internal/service/service.go: `IssueAgencyProposal`, `ClaimAgencyProposals` and
-- `ResolveAgencyProposal`. Signing and hashing are parameters. Each handler calls the store once. The
-- counts of a policy are positive where the store gets them, so `magnitude` is the count itself.
pub mod Issued
use eventframed.Prelude.{
  ℕ, String, len, Bool, true, false, not, ◌&&◌, ◌||◌, Option, none, some, List, [], ◌∷◌, str_eq,
  leb, ltb, length, if◌then◌else◌, ◌==◌,
}
use eventframed.Prelude.Int.{ℤ, pos, eq_int, lt_int, magnitude}
use eventframed.Prelude.Text.{trim_space}
use eventframed.Model.Snapshot.{Time, Snapshot, zero_time}
use eventframed.Model.Proposal.{
  AgencyProposal, AgencyProposalDraft, SignedAgencyProposal, AgencyProposalStatus,
  AgencyProposalRecord, ResolveAgencyProposalRequest, pending, approved, rejected, uncertain,
  eq_status,
}
use eventframed.Agency.{Policy}
use eventframed.Agency.Build.{Built, built, refused, build_proposal}
use eventframed.Store.{Result, ok, err, AgencyResult}
use eventframed.Memory.{Store}
use eventframed.Memory.Agency.{put_agency_proposal, get_agency_proposal}
use eventframed.Memory.Agency.Claim.{claim_agency_proposals}
use eventframed.Memory.Agency.Resolve.{resolve_agency_proposal}
use eventframed.Service.{
  ServiceError, message, stored, refusal, outside, Reply, replied, failed, check_protocol,
  then_test,
}

-- The part of the service's configuration on the agency. A signer fails or gives a signed proposal.
pub record AgencyConfig : Type 0 where
  pub agency_policy : Policy
  pub agency_signer : Option (AgencyProposal → Option SignedAgencyProposal)
  pub agency_issuer_token : String
  pub agency_authority_token : String

pub record IssueAgencyProposalRequest : Type 0 where
  pub protocol_version : String
  pub issuer_token : String
  pub proposal : AgencyProposalDraft

pub record ClaimAgencyProposalsRequest : Type 0 where
  pub protocol_version : String
  pub authority_token : String
  pub tenant_id : String
  pub consumer_id : String
  pub limit : ℤ

-- boundedAgencyIdentifier
unfoldable pub bounded_agency_identifier : String → Bool
bounded_agency_identifier value = not (str_eq value "") && leb (len value) 256

abbrev pub stored_answer {ℓ} : {A : Type ℓ} → Store × Result A → Store × Reply A
stored_answer (t, err e) = (t, failed (stored e))
stored_answer (t, ok a) = (t, replied a)

abbrev pub issued_record : AgencyProposal → SignedAgencyProposal → AgencyProposalRecord
issued_record p signed = record {
  uncertain_execution_refs = [];
  proposal = p;
  signed = signed;
  status = pending;
  claimed_by = "";
  lease_until = zero_time;
  resolution_reason = "";
  execution_ref = "";
  resolved_at = zero_time;
}

module _ (hash : AgencyProposal → Option String) where
  -- agencyProposalDigest
  unfoldable pub agency_proposal_digest : AgencyProposal → Option String
  agency_proposal_digest p = hash (record p { created_at = zero_time })

  unfoldable pub persist_signed :
      Store
      → Policy
      → AgencyProposal
      → Time
      → Option SignedAgencyProposal
      → Option String
      → Store × Reply AgencyResult
  unfolding put_agency_proposal
  persist_signed s policy p now none digest = (s, failed outside)
  persist_signed s policy p now (some signed) none = (s, failed outside)
  persist_signed s policy p now (some signed) (some digest) = stored_answer (
      put_agency_proposal s (issued_record p signed) digest
        (magnitude policy.max_proposals_per_chain) (magnitude policy.max_pending_per_tenant) now)

  -- persistAgencyProposal
  unfoldable pub persist_agency_proposal :
      Store
      → Policy
      → (AgencyProposal → Option SignedAgencyProposal)
      → AgencyProposal
      → Time
      → Store × Reply AgencyResult
  unfolding persist_signed agency_proposal_digest
  persist_agency_proposal s policy sign p now =
      persist_signed s policy p now (sign p) (agency_proposal_digest p)

  unfoldable pub persist_built :
      Store
      → Policy
      → (AgencyProposal → Option SignedAgencyProposal)
      → Time
      → Built
      → Store × Reply AgencyResult
  unfolding persist_agency_proposal
  persist_built s policy sign now (refused e) = (s, failed (refusal e))
  persist_built s policy sign now (built p) = persist_agency_proposal s policy sign p now

  -- What follows the test that there is a signer.
  unfoldable pub issue_signed :
      Store
      → AgencyConfig
      → Time
      → IssueAgencyProposalRequest
      → Option (AgencyProposal → Option SignedAgencyProposal)
      → Store × Reply AgencyResult
  unfolding persist_built build_proposal
  issue_signed s c now q none = (s, failed (message "agency is disabled"))
  issue_signed s c now q (some sign) =
      if not c.agency_policy.enabled
      then (s, failed (message "agency is disabled"))
      else if not (str_eq q.issuer_token c.agency_issuer_token)
      then (s, failed (message "agency issuer authentication failed"))
      else persist_built s c.agency_policy sign now (build_proposal q.proposal now c.agency_policy)

  -- IssueAgencyProposal
  unfoldable pub issue_agency_proposal :
      Store → AgencyConfig → Time → IssueAgencyProposalRequest → Store × Reply AgencyResult
  unfolding check_protocol issue_signed
  issue_agency_proposal s c now q = elim (check_protocol q.protocol_version) [
    | some e ↦ (s, failed e)
    | none ↦ issue_signed s c now q c.agency_signer
  ]

-- The tests of the caller of a claim or a resolution.
unfoldable pub check_authority : AgencyConfig → String → String → Option ServiceError
unfolding check_protocol
check_authority c version token = then_test (check_protocol version) (
    if not c.agency_policy.enabled
    then some (message "agency is disabled")
    else if not (str_eq token c.agency_authority_token)
    then some (message "agency authority authentication failed")
    else none)

-- A limit of 0 stands for the least of 10 and the policy's.
unfoldable pub claim_limit : AgencyConfig → ℤ → ℤ
claim_limit c limit =
    if eq_int limit (pos 0)
    then if lt_int c.agency_policy.max_claims (pos 10) then c.agency_policy.max_claims else pos 10
    else limit

unfoldable pub check_claim : AgencyConfig → ClaimAgencyProposalsRequest → Option ServiceError
unfolding trim_space bounded_agency_identifier claim_limit
check_claim c q =
    if not (bounded_agency_identifier (trim_space q.tenant_id))
      || not (bounded_agency_identifier (trim_space q.consumer_id))
    then some (message "tenant_id and consumer_id are required")
    else if lt_int (claim_limit c q.limit) (pos 1)
        || lt_int c.agency_policy.max_claims (claim_limit c q.limit)
    then some (message "agency claim limit exceeds policy")
    else none

abbrev pub claim_answer :
    Store × List AgencyProposalRecord → Store × Reply (List AgencyProposalRecord × Snapshot)
claim_answer (t, records) = (t, replied (records, t.snapshot))

-- ClaimAgencyProposals
unfoldable pub request_claim :
    Store
    → AgencyConfig
    → Time
    → ClaimAgencyProposalsRequest
    → Store × Reply (List AgencyProposalRecord × Snapshot)
unfolding check_authority check_claim claim_agency_proposals
request_claim s c now q =
    elim (then_test (check_authority c q.protocol_version q.authority_token) (check_claim c q)) [
      | some e ↦ (s, failed e)
      | none ↦ claim_answer (
          claim_agency_proposals s (trim_space q.tenant_id) (trim_space q.consumer_id) now
            (magnitude (claim_limit c q.limit)) (magnitude c.agency_policy.lease_duration))
    ]

pub record GetAgencyProposalRequest : Type 0 where
  pub protocol_version : String
  pub authority_token : String
  pub tenant_id : String
  pub proposal_id : String

abbrev found_answer : Store → Result AgencyProposalRecord → Reply (AgencyProposalRecord × Snapshot)
found_answer s (err e) = failed (stored e)
found_answer s (ok r) = replied (r, s.snapshot)

-- GetAgencyProposal of internal/service/tau.go
unfoldable pub request_proposal :
    Store → AgencyConfig → GetAgencyProposalRequest → Reply (AgencyProposalRecord × Snapshot)
unfolding check_protocol bounded_agency_identifier get_agency_proposal
request_proposal s c q =
    elim (then_test (check_protocol q.protocol_version) (
      if not c.agency_policy.enabled
        || not (str_eq q.authority_token c.agency_authority_token)
        || not (bounded_agency_identifier q.tenant_id)
        || not (bounded_agency_identifier q.proposal_id)
      then some (message "agency authority authentication and bounded identity required")
      else none)) [
        | some e ↦ failed e
        | none ↦ found_answer s (get_agency_proposal s q.tenant_id q.proposal_id)
      ]

-- The request with its texts trimmed.
unfoldable pub trimmed_resolution : ResolveAgencyProposalRequest → ResolveAgencyProposalRequest
unfolding trim_space
trimmed_resolution q = record q {
  tenant_id = trim_space q.tenant_id;
  proposal_id = trim_space q.proposal_id;
  consumer_id = trim_space q.consumer_id;
  reason = trim_space q.reason;
  execution_ref = trim_space q.execution_ref;
}

-- The loop over the handles of a cancellation.
unfoldable pub bad_handle : List String → Bool
bad_handle [] = false
bad_handle (ref ∷ rest) = str_eq ref "" || ltb 512 (len ref) || bad_handle rest

-- The tests of a trimmed request.
unfoldable pub check_resolution : ResolveAgencyProposalRequest → Option ServiceError
unfolding bounded_agency_identifier bad_handle
check_resolution q =
    if not (bounded_agency_identifier q.tenant_id)
      || not (bounded_agency_identifier q.proposal_id)
      || not (bounded_agency_identifier q.consumer_id)
      || str_eq q.reason ""
      || ltb 1024 (len q.reason)
      || ltb 512 (len q.execution_ref)
    then some (message "bounded tenant, proposal, consumer, and resolution reason are required")
    else if not (eq_status q.decision approved)
        && not (eq_status q.decision rejected)
        && not (eq_status q.decision uncertain)
    then some (message "agency resolution must be approved, rejected or uncertain")
    else if (eq_status q.decision approved || eq_status q.decision uncertain)
        && str_eq q.execution_ref ""
    then some (message "approved agency resolution requires an execution_ref")
    else if eq_status q.decision rejected && not (str_eq q.execution_ref "")
    then some (message "rejected agency resolution cannot carry an execution_ref")
    else if ltb 32 (length q.cancelled_execution_refs)
        || (ltb 0 (length q.cancelled_execution_refs) && not (eq_status q.decision rejected))
    then some (message "cancellation acknowledgment requires rejection and at most 32 handles")
    else if bad_handle q.cancelled_execution_refs
    then some (message "invalid cancellation acknowledgment handle")
    else none

-- ResolveAgencyProposal
unfoldable pub request_resolution :
    Store → AgencyConfig → Time → ResolveAgencyProposalRequest → Store × Reply AgencyResult
unfolding check_authority trimmed_resolution check_resolution resolve_agency_proposal
request_resolution s c now q =
    elim (then_test (check_authority c q.protocol_version q.authority_token)
      (check_resolution (trimmed_resolution q))) [
        | some e ↦ (s, failed e)
        | none ↦ stored_answer (resolve_agency_proposal s (trimmed_resolution q) now)
      ]
