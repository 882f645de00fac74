-- ===== src/Service/Agency/Issued.antt =====
-- What the requests of the agency let through to the store.
use eventframed.Prelude.{
  ◌+◌, String, true, false, not, Option, none, some, List, ◌≡◌, ◌⊎◌, inl, inr, refl, arith, str_eq,
  length, All, if_elim, Option-cases,
}
use eventframed.Prelude.Dict.{inner, get2}
use eventframed.Prelude.Int.{pos, lt_int, magnitude}
use eventframed.Prelude.Text.{trim_space}
use eventframed.Model.Snapshot.{Time, Snapshot}
use eventframed.Model.Proposal.{
  AgencyProposal, SignedAgencyProposal, AgencyProposalRecord, ResolveAgencyProposalRequest,
  approved,
}
use eventframed.Agency.Build.{Built, built, refused, build_proposal}
use eventframed.Agency.Bounds.{Bounded, build_proposal-Bounded}
use eventframed.Store.{Result, ok, err, AgencyResult}
use eventframed.Memory.{Store}
use eventframed.Memory.Agency.Admission.{Taken, put_agency_proposal-Taken}
use eventframed.Memory.Agency.Approval.{Held, blocked_in, resolve_approves}
use eventframed.Memory.Agency.Grants.{ClaimableIn, LeasedFrom}
use eventframed.Memory.Agency.Resolve.{resolve_agency_proposal}
use eventframed.Service.{Reply, replied, check_protocol, then_test, then_test-none}
use eventframed.Service.Agency.{
  AgencyConfig, IssueAgencyProposalRequest, ClaimAgencyProposalsRequest, stored_answer,
  issued_record, persist_signed, persist_agency_proposal, persist_built, issue_signed,
  issue_agency_proposal, agency_proposal_digest, check_authority, trimmed_resolution,
  check_resolution, request_resolution,
}

-- A draft that became a proposal of the store.
pub record Issued (s t : Store) (c : AgencyConfig) (now : Time) (q : IssueAgencyProposalRequest)
    : Type 0 where
  pub token : str_eq q.issuer_token c.agency_issuer_token ≡ true
  pub proposal : AgencyProposal
  pub signed : SignedAgencyProposal
  pub bounded : Bounded q.proposal now c.agency_policy proposal
  pub taken :
      Taken s t
        (issued_record proposal signed)
        (magnitude c.agency_policy.max_proposals_per_chain)
        (magnitude c.agency_policy.max_pending_per_tenant)
        now

stored_answer-ok :
    (x : Store × Result AgencyResult) {a : AgencyResult}
    → (stored_answer x).1 ≡ replied a
    → (x.1 ≡ ok a) × ((stored_answer x).0 ≡ x.0)
stored_answer-ok (t, err e) h = absurd (ground arith)
stored_answer-ok (t, ok b) h = (ground arith, refl)

module _ (hash : AgencyProposal → Option String) (s : Store) (c : AgencyConfig) (now : Time)
    (q : IssueAgencyProposalRequest) where
  persist_signed-Issued :
      (p : AgencyProposal) (signed : Option SignedAgencyProposal) (digest : Option String)
      {a : AgencyResult}
      → str_eq q.issuer_token c.agency_issuer_token ≡ true
      → Bounded q.proposal now c.agency_policy p
      → (persist_signed hash s c.agency_policy p now signed digest).1 ≡ replied a
      → a.duplicate ≡ false
      → Issued s (persist_signed hash s c.agency_policy p now signed digest).0 c now q
  unfolding persist_signed
  persist_signed-Issued p none digest token bounded h k = absurd (ground arith)
  persist_signed-Issued p (some x) none token bounded h k = absurd (ground arith)
  persist_signed-Issued p (some x) (some d) token bounded h k =
      let (taken, same) = stored_answer-ok _ h in
      record {
        token = token;
        proposal = p;
        signed = x;
        bounded = bounded;
        taken = rw same (
            put_agency_proposal-Taken s (issued_record p x) d
              (magnitude c.agency_policy.max_proposals_per_chain)
              (magnitude c.agency_policy.max_pending_per_tenant) now taken k);
      }

  persist_built-Issued :
      (sign : AgencyProposal → Option SignedAgencyProposal) (b : Built) {a : AgencyResult}
      → build_proposal q.proposal now c.agency_policy ≡ b
      → str_eq q.issuer_token c.agency_issuer_token ≡ true
      → (persist_built hash s c.agency_policy sign now b).1 ≡ replied a
      → a.duplicate ≡ false
      → Issued s (persist_built hash s c.agency_policy sign now b).0 c now q
  unfolding persist_built persist_agency_proposal
  persist_built-Issued sign (refused e) made token h k = absurd (ground arith)
  persist_built-Issued sign (built p) made token h k =
      persist_signed-Issued p (sign p) (agency_proposal_digest hash p) token
        (build_proposal-Bounded q.proposal now c.agency_policy made) h k

  issue_signed-Issued :
      (signer : Option (AgencyProposal → Option SignedAgencyProposal)) {a : AgencyResult}
      → (issue_signed hash s c now q signer).1 ≡ replied a
      → a.duplicate ≡ false
      → Issued s (issue_signed hash s c now q signer).0 c now q
  unfolding issue_signed
  issue_signed-Issued none h k = absurd (ground arith)
  issue_signed-Issued (some sign) {a} h k =
      if_elim P (not c.agency_policy.enabled) _ _ (λ _ g. absurd (ground arith))
        (λ _.
          if_elim P (not (str_eq q.issuer_token c.agency_issuer_token)) _ _
            (λ _ g. absurd (ground arith))
            (λ token g. persist_built-Issued sign _ {a = a} refl (ground arith) g k))
        h
    where
      P : Store × Reply AgencyResult → Type 0
      P x = x.1 ≡ replied a → Issued s x.0 c now q

  -- If the service answers with a proposal that is not a duplicate, then the caller has the issuer's
  -- token, and the draft has become a bounded proposal, under an unused id, that is stored as
  -- pending, with its evidence in the store, its parent valid, and the limits of the policy kept.
  pub issue_agency_proposal-Issued :
      {a : AgencyResult}
      → (issue_agency_proposal hash s c now q).1 ≡ replied a
      → a.duplicate ≡ false
      → Issued s (issue_agency_proposal hash s c now q).0 c now q
  unfolding issue_agency_proposal
  issue_agency_proposal-Issued {a} h k = elim (Option-cases (check_protocol q.protocol_version)) [
    | inr (x, e) ↦ absurd (ground arith)
    | inl e ↦
        rw (e, issue_agency_proposal)
          (issue_signed-Issued c.agency_signer {a = a} (rw (e, issue_agency_proposal) at h) k)
  ]

-- The limits and the grants of a claim that the service answers.
pub record Served (s : Store) (c : AgencyConfig) (now : Time) (q : ClaimAgencyProposalsRequest)
    (records : List AgencyProposalRecord) : Type 0 where
  pub token : str_eq q.authority_token c.agency_authority_token ≡ true
  pub few : lt_int c.agency_policy.max_claims (pos (length records)) ≡ false
  pub leased :
      All
        (LeasedFrom
          (ClaimableIn (inner (trim_space q.tenant_id) s.agency_records) s.snapshot now)
          (trim_space q.consumer_id)
          (now + magnitude c.agency_policy.lease_duration))
        records

-- The state of a stored answer is the store's.
stored_answer-state : (x : Store × Result AgencyResult) → (stored_answer x).0 ≡ x.0
stored_answer-state (t, err e) = refl
stored_answer-state (t, ok a) = refl

-- A request makes a proposal approved only where it was approved already, or where the caller has the
-- authority's token and the trimmed consumer holds the proposal under a running lease, unexpired,
-- with a forecast that the snapshot fits and no other unresolved execution for its tau target.
pub request_resolution-Held :
    (s : Store) (c : AgencyConfig) (now : Time) (q : ResolveAgencyProposalRequest)
    {r u : AgencyProposalRecord}
    → get2 (trimmed_resolution q).tenant_id (trimmed_resolution q).proposal_id s.agency_records
      ≡ some r
    → get2
        (trimmed_resolution q).tenant_id
        (trimmed_resolution q).proposal_id
        (request_resolution s c now q).0.agency_records
      ≡ some u
    → u.status ≡ approved
    → (r.status ≡ approved)
      ⊎ ((str_eq q.authority_token c.agency_authority_token ≡ true)
          × Held
              (blocked_in s (trimmed_resolution q).tenant_id r)
              s.snapshot
              r
              (trimmed_resolution q)
              now)
unfolding request_resolution check_authority
request_resolution-Held s c now q {r} {u} before after h =
    elim (Option-cases (
      then_test (check_authority c q.protocol_version q.authority_token)
        (check_resolution (trimmed_resolution q)))) [
          | inr (x, e) ↦ inl (ground arith)
          | inl e ↦
              let (authority, _) =
                then_test-none (check_authority c q.protocol_version q.authority_token) _ e in
              let token : str_eq q.authority_token c.agency_authority_token ≡ true =
                ground
                  (arith, (then_test-none (check_protocol q.protocol_version) _ authority).1) in
              let state =
                stored_answer-state (resolve_agency_proposal s (trimmed_resolution q) now) in
              elim (resolve_approves s (trimmed_resolution q) now before
                (rw (e, request_resolution, state) at after) h) [
                  | inl old ↦ inl old
                  | inr held ↦ inr (token, held)
                ]
        ]
