-- ===== src/Memory/History/Refine/Queue.antt =====
-- The moves of the agency queue.
use eventframed.Prelude.{ℕ, String, ◌||◌, Option, none, some, refl, inl, inr, Bool, Bool-cases}
use eventframed.Prelude.Dict.{Dict, get, get2, inner, any_value}
use eventframed.Model.Snapshot.{Time, Duration}
use eventframed.Model.Proposal.{AgencyProposalRecord, ResolveAgencyProposalRequest}
use eventframed.Store.{Error}
use eventframed.Memory.{Store}
use eventframed.Memory.Agency.{
  put_agency_proposal, put_existing, open_tenant, with_tenant, same_digest, admission, enqueue,
}
use eventframed.Memory.Agency.Claim.{claim_agency_proposals, granted, sweep_in, is_close, nonempty}
use eventframed.Memory.Agency.Resolve.{
  Outcome, refuses, repeats, writes, fails, outcome, apply_outcome, resolve_found,
  resolve_agency_proposal,
}
use eventframed.Memory.History.Moves.{stays, if_Move, Move, idle, queues}

open_tenant-idle :
    (s : Store) (tenant_id : String) (o : Option (Dict AgencyProposalRecord))
    → Move s (open_tenant s tenant_id o)
open_tenant-idle s tenant_id none = idle refl refl refl
open_tenant-idle s tenant_id (some m) = stays s

open_tenant-queues :
    (s : Store) (tenant_id : String) (r : AgencyProposalRecord) (digest : String)
    → (o : Option (Dict AgencyProposalRecord))
    → Move s (enqueue (open_tenant s tenant_id o) r digest)
unfolding enqueue
open_tenant-queues s tenant_id r digest none = queues refl refl refl
open_tenant-queues s tenant_id r digest (some m) = queues refl refl refl

pub proposal-Move :
    (s : Store) (r : AgencyProposalRecord) (digest : String) (chain waiting : ℕ) (by : Time)
    → Move s (put_agency_proposal s r digest chain waiting by).0
unfolding put_agency_proposal with_tenant
proposal-Move s r digest chain waiting by =
    found (get2 r.proposal.tenant_id r.proposal.id s.agency_records)
      (admission s r chain waiting by)
  where
    tenant : Option (Dict AgencyProposalRecord)
    tenant = get r.proposal.tenant_id s.agency_records

    found :
        (o : Option AgencyProposalRecord) (refusal : Option Error)
        → Move s (put_existing (open_tenant s r.proposal.tenant_id tenant) r digest o refusal).0
    found (some existing) refusal =
        if_Move s
          (same_digest
            (get2 r.proposal.tenant_id r.proposal.id
              (open_tenant s r.proposal.tenant_id tenant).agency_digests)
            digest)
          _ _ (λ _. open_tenant-idle s r.proposal.tenant_id tenant)
          (λ _. open_tenant-idle s r.proposal.tenant_id tenant)
    found none (some e) = open_tenant-idle s r.proposal.tenant_id tenant
    found none none = open_tenant-queues s r.proposal.tenant_id r digest tenant

pub claim-Move :
    (s : Store) (tenant_id consumer : String) (now : Time) (limit : ℕ) (lease : Duration)
    → Move s (claim_agency_proposals s tenant_id consumer now limit lease).0
unfolding claim_agency_proposals
claim-Move s tenant_id consumer now limit lease = elim (Bool-cases changed) [
  | inl e ↦ queues (rw e refl) refl refl
  | inr e ↦ idle (rw e refl) refl refl
]
  where
    records : Dict AgencyProposalRecord
    records = inner tenant_id s.agency_records

    changed : Bool
    changed =
        any_value (λ r. is_close (sweep_in records s.snapshot now r)) records
        || nonempty (granted s tenant_id now limit)

pub resolve-Move :
    (s : Store) (q : ResolveAgencyProposalRequest) (now : Time)
    → Move s (resolve_agency_proposal s q now).0
unfolding resolve_agency_proposal
resolve-Move s q now = found (get2 q.tenant_id q.proposal_id s.agency_records)
  where
    applied : (r : AgencyProposalRecord) (o : Outcome) → Move s (apply_outcome s q r o).0
    applied r (refuses e) = stays s
    applied r repeats = stays s
    applied r (writes updated) = queues refl refl refl
    applied r (fails updated e) = queues refl refl refl

    found : (o : Option AgencyProposalRecord) → Move s (resolve_found s q now o).0
    found none = stays s
    found (some r) = applied r (outcome _ s.snapshot r q now)
