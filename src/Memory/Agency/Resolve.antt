-- ===== src/Memory/Agency/Resolve.antt =====
-- internal/store/memorystore/store.go: `ResolveAgencyProposal`.
use eventframed.Prelude.{
  Bool, true, false, not, ◌&&◌, ◌||◌, Option, none, some, str_eq, if◌then◌else◌,
}
use eventframed.Prelude.Dict.{inner, get2, put2}
use eventframed.Model.Snapshot.{Time, Snapshot, zero_time, before}
use eventframed.Model.Proposal.{
  AgencyProposalRecord, ResolveAgencyProposalRequest, eq_status, claimed, approved, rejected,
  expired, uncertain,
}
use eventframed.Store.{
  Error, Result, ok, err, agency_conflict, agency_not_found, agency_lease, agency_expired,
  stale_snapshot, handle_bound, AgencyResult,
}
use eventframed.Store.Tau.{
  agency_uncertain_record, tau_cancellation_matches, tau_snapshot_compatible, tau_scope_of,
}
use eventframed.Memory.{Store, bump_agency}
use eventframed.Memory.Agency.Claim.{has_tau, scope_blocked}

-- What a resolution does: refuse, answer as a duplicate, write the record, or write it and report
-- the error.
pub data Outcome : Type 0 where
  refuses : Error → Outcome
  repeats : Outcome
  writes : AgencyProposalRecord → Outcome
  fails : AgencyProposalRecord → Error → Outcome

abbrev pub same_report : AgencyProposalRecord → ResolveAgencyProposalRequest → Bool
same_report r q = str_eq r.resolution_reason q.reason && str_eq r.execution_ref q.execution_ref

unfoldable pub uncertain_outcome :
    AgencyProposalRecord → ResolveAgencyProposalRequest → Time → Outcome
unfolding agency_uncertain_record
uncertain_outcome r q now = elim (agency_uncertain_record r q now) [
  | none ↦ refuses handle_bound
  | some updated ↦ writes updated
]

abbrev pub resolved :
    AgencyProposalRecord → ResolveAgencyProposalRequest → Time → AgencyProposalRecord
resolved r q now = record r {
  status = q.decision;
  resolution_reason = q.reason;
  execution_ref = q.execution_ref;
  resolved_at = now;
}

abbrev pub is_closed : AgencyProposalRecord → Bool
is_closed r =
    eq_status r.status approved
    || eq_status r.status rejected
    || eq_status r.status expired
    || eq_status r.status uncertain

-- The part behind the lease tests. `blocked` is whether another execution for the same tau target
-- is unresolved.
unfoldable pub leased_outcome :
    Bool → Snapshot → AgencyProposalRecord → ResolveAgencyProposalRequest → Time → Outcome
unfolding tau_snapshot_compatible
leased_outcome blocked current r q now =
    if not (before now r.proposal.expires_at)
    then fails
        (record r {
          status = expired;
          resolution_reason = "proposal expired before authorization completed";
          resolved_at = now;
          claimed_by = "";
          lease_until = zero_time;
          execution_ref = "";
        })
        agency_expired
    else if not (before now r.lease_until)
    then refuses agency_lease
    else if eq_status q.decision approved && has_tau r.proposal.tau && blocked
    then refuses agency_conflict
    else if eq_status q.decision approved && not (tau_snapshot_compatible r.proposal.tau current)
    then refuses stale_snapshot
    else writes (record r {
      status = q.decision;
      resolution_reason = q.reason;
      execution_ref = q.execution_ref;
      resolved_at = now;
      claimed_by = "";
      lease_until = zero_time;
    })

unfoldable pub outcome :
    Bool → Snapshot → AgencyProposalRecord → ResolveAgencyProposalRequest → Time → Outcome
unfolding uncertain_outcome leased_outcome tau_cancellation_matches
outcome blocked current r q now =
    if eq_status q.decision uncertain && eq_status r.status uncertain && same_report r q
    then repeats
    else if eq_status q.decision uncertain
    then uncertain_outcome r q now
    else if eq_status r.status uncertain && eq_status q.decision rejected
    then (if tau_cancellation_matches r q
        then writes (resolved r q now)
        else refuses agency_conflict)
    else if is_closed r
    then (if eq_status r.status q.decision && same_report r q
        then repeats
        else refuses agency_conflict)
    else if not (eq_status r.status claimed) || not (str_eq r.claimed_by q.consumer_id)
    then refuses agency_lease
    else leased_outcome blocked current r q now

-- The write of a resolution.
unfoldable pub write_record : Store → ResolveAgencyProposalRequest → AgencyProposalRecord → Store
unfolding bump_agency
write_record s q r = record s {
  agency_records = put2 q.tenant_id q.proposal_id r s.agency_records;
  snapshot = bump_agency s.snapshot;
}

unfoldable pub apply_outcome :
    Store
    → ResolveAgencyProposalRequest
    → AgencyProposalRecord
    → Outcome
    → Store × Result AgencyResult
unfolding write_record
apply_outcome s q r (refuses e) = (s, err e)
apply_outcome s q r repeats =
    (s, ok (record { duplicate = true; agency_record = r; snapshot = s.snapshot }))
apply_outcome s q r (writes updated) =
    let t = write_record s q updated in
    (t, ok (record { duplicate = false; agency_record = updated; snapshot = t.snapshot }))
apply_outcome s q r (fails updated e) = (write_record s q updated, err e)

unfoldable pub resolve_found :
    Store
    → ResolveAgencyProposalRequest
    → Time
    → Option AgencyProposalRecord
    → Store × Result AgencyResult
unfolding apply_outcome
resolve_found s q now none = (s, err agency_not_found)
resolve_found s q now (some r) = apply_outcome s q r (
    outcome (scope_blocked (inner q.tenant_id s.agency_records) (tau_scope_of r.proposal))
      s.snapshot r q now)

-- ResolveAgencyProposal
unfoldable pub resolve_agency_proposal :
    Store → ResolveAgencyProposalRequest → Time → Store × Result AgencyResult
unfolding resolve_found
resolve_agency_proposal s q now =
    resolve_found s q now (get2 q.tenant_id q.proposal_id s.agency_records)
