-- ===== src/Memory/Agency/Approval.antt =====
-- What a resolution may do to a proposal: the guards of `ResolveAgencyProposal`.
use eventframed.Prelude.{
  String, Bool, true, false, ◌&&◌, some, ◌≡◌, ◌<◌, ◌⊎◌, inl, inr, refl, arith, eq_iff,
}
use eventframed.Prelude.Dict.{get2, get2-put2_self, inner}
use eventframed.Model.Snapshot.{Time, Snapshot}
use eventframed.Model.Proposal.{
  AgencyProposalRecord, ResolveAgencyProposalRequest, claimed, approved, expired,
}
use eventframed.Store.Tau.{tau_snapshot_compatible, tau_scope_of}
use eventframed.Store.{Error}
use eventframed.Memory.{Store}
use eventframed.Memory.Agency.Claim.{has_tau, scope_blocked}
use eventframed.Memory.Agency.Resolve.{
  Outcome, refuses, repeats, writes, fails, outcome, uncertain_outcome, leased_outcome,
  apply_outcome, write_record, resolve_found, resolve_agency_proposal,
}

-- The proposal is held by the consumer, in time, and its forecast stands.
pub record Held (blocked : Bool) (current : Snapshot) (r : AgencyProposalRecord)
    (q : ResolveAgencyProposalRequest) (now : Time) : Type 0 where
  pub status : r.status ≡ claimed
  pub consumer : r.claimed_by ≡ q.consumer_id
  pub lease : now < r.lease_until
  pub alive : now < r.proposal.expires_at
  pub forecast : tau_snapshot_compatible r.proposal.tau current ≡ true
  pub unblocked : (has_tau r.proposal.tau && blocked) ≡ false

writes_approved :
    (blocked : Bool) (current : Snapshot) (r : AgencyProposalRecord)
    (q : ResolveAgencyProposalRequest) (now : Time) {updated : AgencyProposalRecord}
    → outcome blocked current r q now ≡ writes updated
    → updated.status ≡ approved
    → Held blocked current r q now
unfolding outcome uncertain_outcome leased_outcome
writes_approved blocked current r q now h k = ground (arith, eq_iff r.claimed_by q.consumer_id)

fails_expired :
    (blocked : Bool) (current : Snapshot) (r : AgencyProposalRecord)
    (q : ResolveAgencyProposalRequest) (now : Time) {updated : AgencyProposalRecord} {e : Error}
    → outcome blocked current r q now ≡ fails updated e
    → updated.status ≡ expired
unfolding outcome uncertain_outcome leased_outcome
fails_expired blocked current r q now h = ground arith

abbrev pub blocked_in : Store → String → AgencyProposalRecord → Bool
blocked_in s tenant_id r =
    scope_blocked (inner tenant_id s.agency_records) (tau_scope_of r.proposal)

Outcome-cases :
    (o : Outcome)
    → ((e : Error) × (o ≡ refuses e))
      ⊎ (o ≡ repeats)
      ⊎ ((u : AgencyProposalRecord) × (o ≡ writes u))
      ⊎ ((u : AgencyProposalRecord) × (e : Error) × (o ≡ fails u e))
Outcome-cases (refuses e) = inl (e, refl)
Outcome-cases repeats = inr (inl refl)
Outcome-cases (writes u) = inr (inr (inl (u, refl)))
Outcome-cases (fails u e) = inr (inr (inr (u, e, refl)))

written :
    (s : Store) (q : ResolveAgencyProposalRequest) (updated : AgencyProposalRecord)
    → get2 q.tenant_id q.proposal_id (write_record s q updated).agency_records ≡ some updated
unfolding write_record
written s q updated = get2-put2_self q.tenant_id q.proposal_id updated s.agency_records

-- A resolution makes a proposal approved only where it was approved already, or where it was claimed
-- by the resolving consumer under a lease that still runs, had not expired, was bound to a forecast
-- that the store's snapshot still fits, and no other execution for its tau target was unresolved.
pub resolve_approves :
    (s : Store) (q : ResolveAgencyProposalRequest) (now : Time) {r u : AgencyProposalRecord}
    → get2 q.tenant_id q.proposal_id s.agency_records ≡ some r
    → get2 q.tenant_id q.proposal_id (resolve_agency_proposal s q now).0.agency_records ≡ some u
    → u.status ≡ approved
    → (r.status ≡ approved) ⊎ Held (blocked_in s q.tenant_id r) s.snapshot r q now
unfolding resolve_agency_proposal apply_outcome
resolve_approves s q now {r} {u} before after h =
    by_outcome (outcome (blocked_in s q.tenant_id r) s.snapshot r q now) refl
      (rw (before, resolve_found) at after)
  where
    by_outcome :
        (o : Outcome)
        → outcome (blocked_in s q.tenant_id r) s.snapshot r q now ≡ o
        → get2 q.tenant_id q.proposal_id (apply_outcome s q r o).0.agency_records ≡ some u
        → (r.status ≡ approved) ⊎ Held (blocked_in s q.tenant_id r) s.snapshot r q now
    by_outcome (refuses e) p g = inl (ground arith)
    by_outcome repeats p g = inl (ground arith)
    by_outcome (writes updated) p g = inr (
        writes_approved (blocked_in s q.tenant_id r) s.snapshot r q now p
          (ground (arith, written s q updated)))
    by_outcome (fails updated e) p g = absurd (
        ground (
          arith,
          written s q updated,
          fails_expired (blocked_in s q.tenant_id r) s.snapshot r q now p,
        ))
