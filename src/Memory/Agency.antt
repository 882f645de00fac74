-- ===== src/Memory/Agency.antt =====
-- internal/store/memorystore/store.go: the durable queue of agency proposals.
pub mod Claim
pub mod Resolve
pub mod Approval
pub mod Grants
pub mod Admission
pub mod Filed
pub mod Cited
pub mod Settled
pub mod Served
use eventframed.Prelude.{
  ℕ, String, Bool, true, false, not, ◌&&◌, ◌||◌, Option, none, some, List, [], ◌∷◌, leb, str_eq,
  if◌then◌else◌,
}
use eventframed.Prelude.Dict.{Dict, get, put, inner, get2, put2, count_values}
use eventframed.Prelude.Int.{ℤ, pos, add_one, eq_int}
use eventframed.Model.Snapshot.{Time, Snapshot, after}
use eventframed.Model.Proposal.{
  TauTurnBinding, AgencyProposal, AgencyProposalRecord, eq_status, pending, claimed, uncertain,
}
use eventframed.Store.{
  Error, Result, ok, err, agency_conflict, stale_snapshot, agency_chain_budget, agency_evidence,
  agency_not_found, AgencyResult,
}
use eventframed.Store.Tau.{tau_snapshot_compatible, tau_opportunity_blocked}
use eventframed.Memory.{Entry, Store, bump_agency}

-- validAgencyParent
unfoldable pub valid_agency_parent : Dict AgencyProposalRecord → AgencyProposal → Bool
valid_agency_parent records p =
    if eq_int p.causal_chain_depth (pos 0)
    then str_eq p.parent_proposal_id ""
    else elim (get p.parent_proposal_id records) [
      | none ↦ false
      | some parent ↦
          str_eq parent.proposal.causal_chain_id p.causal_chain_id
          && eq_int (add_one parent.proposal.causal_chain_depth) p.causal_chain_depth
    ]

abbrev pub in_chain : String → AgencyProposalRecord → Bool
in_chain chain_id r = str_eq r.proposal.causal_chain_id chain_id

-- countAgencyChain
unfoldable pub count_agency_chain : Dict AgencyProposalRecord → String → ℕ
count_agency_chain records chain_id = count_values (in_chain chain_id) records

abbrev pub is_pending_at : Time → AgencyProposalRecord → Bool
is_pending_at now r =
    eq_status r.status uncertain
    || ((eq_status r.status pending || eq_status r.status claimed)
        && after r.proposal.expires_at now)

-- countPendingAgency
unfoldable pub count_pending_agency : Dict AgencyProposalRecord → Time → ℕ
count_pending_agency records now = count_values (is_pending_at now) records

abbrev pub forecast_conflict : Option TauTurnBinding → Option TauTurnBinding → Bool
forecast_conflict none _ = false
forecast_conflict (some a) none = false
forecast_conflict (some a) (some b) =
    str_eq a.forecast_id b.forecast_id && not (str_eq a.forecast_digest b.forecast_digest)

-- The loop over the records: the first one that the new proposal clashes with decides the error.
unfoldable pub clash :
    Dict AgencyProposalRecord → AgencyProposalRecord → Snapshot → Time → Option Error
unfolding tau_opportunity_blocked
clash [] r current now = none
clash ((id, existing) ∷ rest) r current now =
    let later = clash rest r current now in
    if forecast_conflict r.proposal.tau existing.proposal.tau
    then some agency_conflict
    else if tau_opportunity_blocked r existing current now
    then some agency_chain_budget
    else later

abbrev pub evidence_available : Time → Option Entry → Bool
evidence_available available_by none = false
evidence_available available_by (some e) = not (after e.event.available_at available_by)

-- The loop over the evidence ids.
unfoldable pub evidence_ok : Store → String → List String → Time → Bool
evidence_ok s tenant_id [] available_by = true
evidence_ok s tenant_id (id ∷ ids) available_by =
    evidence_available available_by (get2 tenant_id id s.entries)
    && evidence_ok s tenant_id ids available_by

-- The checks of `PutAgencyProposal` for a new id, in their order; `none` admits.
unfoldable pub admission : Store → AgencyProposalRecord → ℕ → ℕ → Time → Option Error
unfolding valid_agency_parent count_agency_chain count_pending_agency clash evidence_ok
admission s r max_per_chain max_pending available_by =
    if not (tau_snapshot_compatible p.tau s.snapshot)
    then some stale_snapshot
    else elim (clash records r s.snapshot available_by) [
      | some e ↦ some e
      | none ↦
          if not (evidence_ok s p.tenant_id p.evidence_ids available_by)
          then some agency_evidence
          else if not (valid_agency_parent records p)
              || leb max_per_chain (count_agency_chain records p.causal_chain_id)
              || leb max_pending (count_pending_agency records available_by)
          then some agency_chain_budget
          else none
    ]
  where
    open r use {proposal as p}

    records : Dict AgencyProposalRecord
    records = inner r.proposal.tenant_id s.agency_records

-- The writes for an admitted proposal.
unfoldable pub enqueue : Store → AgencyProposalRecord → String → Store
unfolding bump_agency
enqueue s r digest = record s {
  agency_records = put2 r.proposal.tenant_id r.proposal.id r s.agency_records;
  agency_digests = put2 r.proposal.tenant_id r.proposal.id digest s.agency_digests;
  snapshot = bump_agency s.snapshot;
}

abbrev pub same_digest : Option String → String → Bool
same_digest none digest = str_eq "" digest
same_digest (some d) digest = str_eq d digest

unfoldable pub put_existing :
    Store
    → AgencyProposalRecord
    → String
    → Option AgencyProposalRecord
    → Option Error
    → Store × Result AgencyResult
unfolding enqueue
put_existing s r digest (some existing) refusal =
    if same_digest (get2 r.proposal.tenant_id r.proposal.id s.agency_digests) digest
    then (s, ok (record { duplicate = true; agency_record = existing; snapshot = s.snapshot }))
    else (s, err agency_conflict)
put_existing s r digest none (some e) = (s, err e)
put_existing s r digest none none =
    let t = enqueue s r digest in
    (t, ok (record { duplicate = false; agency_record = r; snapshot = t.snapshot }))

-- The inner maps of a tenant that has none yet.
abbrev pub open_tenant : Store → String → Option (Dict AgencyProposalRecord) → Store
open_tenant s tenant_id (some m) = s
open_tenant s tenant_id none = record s {
  agency_records = put tenant_id [] s.agency_records;
  agency_digests = put tenant_id [] s.agency_digests;
}

unfoldable pub with_tenant : Store → String → Store
with_tenant s tenant_id = open_tenant s tenant_id (get tenant_id s.agency_records)

-- PutAgencyProposal
unfoldable pub put_agency_proposal :
    Store → AgencyProposalRecord → String → ℕ → ℕ → Time → Store × Result AgencyResult
unfolding put_existing with_tenant
put_agency_proposal s r digest max_per_chain max_pending available_by =
    put_existing (with_tenant s r.proposal.tenant_id) r digest
      (get2 r.proposal.tenant_id r.proposal.id s.agency_records)
      (admission s r max_per_chain max_pending available_by)

-- GetAgencyProposal
unfoldable pub get_agency_proposal : Store → String → String → Result AgencyProposalRecord
get_agency_proposal s tenant_id id = elim (get2 tenant_id id s.agency_records) [
  | none ↦ err agency_not_found
  | some r ↦ ok r
]
