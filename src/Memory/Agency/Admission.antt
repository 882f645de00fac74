-- ===== src/Memory/Agency/Admission.antt =====
-- Which proposals `PutAgencyProposal` takes, and what a refusal leaves.
use eventframed.Prelude.{
  ℕ, String, true, false, Option, none, some, List, [], ◌∷◌, ◌≡◌, ◌≤◌, ◌<◌, inl, inr, refl, ap, ◌∙◌,
  arith, All, Option-cases,
}
use eventframed.Prelude.Dict.{
  Dict, get, put, inner, get2, count_values-put-le, get-put, get2-put2_self, inner-put2_self,
}
use eventframed.Model.Snapshot.{Time}
use eventframed.Model.Proposal.{AgencyProposalRecord}
use eventframed.Store.{Error, ok, AgencyResult}
use eventframed.Store.Tau.{tau_snapshot_compatible}
use eventframed.Memory.{Entry, Store}
use eventframed.Memory.Agency.{
  valid_agency_parent, count_agency_chain, count_pending_agency, in_chain, is_pending_at,
  evidence_ok, admission, enqueue, put_existing, open_tenant, with_tenant, put_agency_proposal,
}

-- The event stands in the store and was available in time.
abbrev pub Available : Store → String → Time → String → Type 0
Available s tenant_id available_by id =
    (e : Entry) × (get2 tenant_id id s.entries ≡ some e) × (e.event.available_at ≤ available_by)

evidence_All :
    (s : Store) (tenant_id : String) (ids : List String) (available_by : Time)
    → evidence_ok s tenant_id ids available_by ≡ true
    → All (Available s tenant_id available_by) ids
unfolding evidence_ok
evidence_All s tenant_id [] available_by h = tt
evidence_All s tenant_id (id ∷ ids) available_by h =
    elim (Option-cases (get2 tenant_id id s.entries)) [
      | inl e ↦ absurd (ground arith)
      | inr (x, e) ↦
          ((x, e, ground arith), evidence_All s tenant_id ids available_by (ground arith))
    ]

-- What the checks of a new proposal establish.
record Fits (s : Store) (r : AgencyProposalRecord) (max_per_chain max_pending : ℕ) (by : Time)
    : Type 0 where
  forecast : tau_snapshot_compatible r.proposal.tau s.snapshot ≡ true
  evidence : evidence_ok s r.proposal.tenant_id r.proposal.evidence_ids by ≡ true
  parent : valid_agency_parent (inner r.proposal.tenant_id s.agency_records) r.proposal ≡ true
  chain :
      count_agency_chain (inner r.proposal.tenant_id s.agency_records) r.proposal.causal_chain_id
      < max_per_chain
  waiting : count_pending_agency (inner r.proposal.tenant_id s.agency_records) by < max_pending

admission-Fits :
    (s : Store) (r : AgencyProposalRecord) (max_per_chain max_pending : ℕ) (by : Time)
    → admission s r max_per_chain max_pending by ≡ none
    → Fits s r max_per_chain max_pending by
unfolding admission
admission-Fits s r max_per_chain max_pending by h = ground arith

open_tenant-inner :
    (s : Store) (tenant_id : String) (o : Option (Dict AgencyProposalRecord))
    → get tenant_id s.agency_records ≡ o
    → inner tenant_id (open_tenant s tenant_id o).agency_records ≡ inner tenant_id s.agency_records
unfolding inner
open_tenant-inner s tenant_id (some m) e = refl
open_tenant-inner s tenant_id none e =
    ground (arith, get-put tenant_id tenant_id [] s.agency_records)

-- A new proposal that was taken.
pub record Taken (s t : Store) (r : AgencyProposalRecord) (max_per_chain max_pending : ℕ)
    (by : Time) : Type 0 where
  pub fresh : get2 r.proposal.tenant_id r.proposal.id s.agency_records ≡ none
  pub forecast : tau_snapshot_compatible r.proposal.tau s.snapshot ≡ true
  pub evidence : All (Available s r.proposal.tenant_id by) r.proposal.evidence_ids
  pub parent : valid_agency_parent (inner r.proposal.tenant_id s.agency_records) r.proposal ≡ true
  pub stored : get2 r.proposal.tenant_id r.proposal.id t.agency_records ≡ some r
  pub chain :
      count_agency_chain (inner r.proposal.tenant_id t.agency_records) r.proposal.causal_chain_id
      ≤ max_per_chain
  pub waiting : count_pending_agency (inner r.proposal.tenant_id t.agency_records) by ≤ max_pending

enqueued :
    (s : Store) (r : AgencyProposalRecord) (digest : String)
    → (inner r.proposal.tenant_id
          (enqueue (with_tenant s r.proposal.tenant_id) r digest).agency_records
        ≡ put r.proposal.id r (inner r.proposal.tenant_id s.agency_records))
      × (get2 r.proposal.tenant_id r.proposal.id
            (enqueue (with_tenant s r.proposal.tenant_id) r digest).agency_records
          ≡ some r)
unfolding enqueue with_tenant
enqueued s r digest = (
  inner-put2_self tenant r.proposal.id r opened.agency_records
      ∙ ap (put r.proposal.id r) (open_tenant-inner s tenant (get tenant s.agency_records) refl),
  get2-put2_self tenant r.proposal.id r opened.agency_records,
)
  where
    tenant : String
    tenant = r.proposal.tenant_id

    opened : Store
    opened = open_tenant s tenant (get tenant s.agency_records)

taken :
    (s : Store) (r : AgencyProposalRecord) (digest : String) (max_per_chain max_pending : ℕ)
    (by : Time)
    → get2 r.proposal.tenant_id r.proposal.id s.agency_records ≡ none
    → Fits s r max_per_chain max_pending by
    → Taken s (enqueue (with_tenant s r.proposal.tenant_id) r digest) r max_per_chain max_pending by
unfolding count_agency_chain count_pending_agency
taken s r digest max_per_chain max_pending by fresh fits =
    let (all, one) = enqueued s r digest in
    record {
      fresh = fresh;
      forecast = fits.forecast;
      evidence = evidence_All s r.proposal.tenant_id r.proposal.evidence_ids by fits.evidence;
      parent = fits.parent;
      stored = one;
      chain = rw all (
          omega (
            arith,
            fits.chain,
            count_values-put-le (in_chain r.proposal.causal_chain_id) r.proposal.id r
                (inner r.proposal.tenant_id s.agency_records),
          ));
      waiting = rw all (
          omega (
            arith,
            fits.waiting,
            count_values-put-le (is_pending_at by) r.proposal.id r
                (inner r.proposal.tenant_id s.agency_records),
          ));
    }

-- If `PutAgencyProposal` answers with a new record, then the id was unused, the forecast fits the
-- snapshot, every evidence event stands in the tenant's store and was available, the parent is valid,
-- the record is stored, and the causal chain and the pending proposals of the tenant are within their
-- limits afterwards.
pub put_agency_proposal-Taken :
    (s : Store) (r : AgencyProposalRecord) (digest : String) (max_per_chain max_pending : ℕ)
    (by : Time) {result : AgencyResult}
    → (put_agency_proposal s r digest max_per_chain max_pending by).1 ≡ ok result
    → result.duplicate ≡ false
    → Taken s
        (put_agency_proposal s r digest max_per_chain max_pending by).0
        r
        max_per_chain
        max_pending
        by
unfolding put_agency_proposal put_existing
put_agency_proposal-Taken s r digest max_per_chain max_pending by {result} h k =
    go (get2 r.proposal.tenant_id r.proposal.id s.agency_records)
      (admission s r max_per_chain max_pending by) refl refl h
  where
    go :
        (o : Option AgencyProposalRecord) (refusal : Option Error)
        → get2 r.proposal.tenant_id r.proposal.id s.agency_records ≡ o
        → admission s r max_per_chain max_pending by ≡ refusal
        → (put_existing (with_tenant s r.proposal.tenant_id) r digest o refusal).1 ≡ ok result
        → Taken s
            (put_existing (with_tenant s r.proposal.tenant_id) r digest o refusal).0
            r
            max_per_chain
            max_pending
            by
    go (some existing) refusal e f g = absurd (ground arith)
    go none (some x) e f g = absurd (ground arith)
    go none none e f g =
        taken s r digest max_per_chain max_pending by e
          (admission-Fits s r max_per_chain max_pending by f)
