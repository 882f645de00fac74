-- ===== src/Memory/Agency/Settled.antt =====
-- A resolution and an admission keep the queue's records sound.
use eventframed.Prelude.{
  ℕ, String, Bool, true, Option, none, some, List, [], ◌∷◌, ◌≡◌, refl, arith, All, if_elim,
}
use eventframed.Prelude.Dict.{Dict, get, inner, get2}
use eventframed.Prelude.Dict.Each.{Each-get, inner-put_nil}
use eventframed.Model.Snapshot.{Time, Snapshot}
use eventframed.Model.Proposal.{AgencyProposalRecord, ResolveAgencyProposalRequest}
use eventframed.Store.{Error, Result, AgencyResult}
use eventframed.Store.Tau.{agency_uncertain_record}
use eventframed.Memory.{Store}
use eventframed.Memory.Agency.Claim.{is_open}
use eventframed.Memory.Agency.Resolve.{
  Outcome, refuses, repeats, writes, fails, outcome, uncertain_outcome, leased_outcome,
  apply_outcome, write_record, resolve_found, resolve_agency_proposal,
}
use eventframed.Memory.Agency.{
  evidence_ok, admission, open_tenant, put_existing, with_tenant, enqueue, put_agency_proposal,
  same_digest,
}
use eventframed.Memory.Agency.Filed.{Stands, Sound, Filed, Filed-put2, Sound-keep}

abbrev Keeps : AgencyProposalRecord → AgencyProposalRecord → Type 0
Keeps r u = (u.proposal ≡ r.proposal) × (is_open u ≡ true → is_open r ≡ true)

writes-Keeps :
    (blocked : Bool) (current : Snapshot) (r : AgencyProposalRecord)
    (q : ResolveAgencyProposalRequest) (now : Time) {u : AgencyProposalRecord}
    → outcome blocked current r q now ≡ writes u
    → Keeps r u
unfolding outcome uncertain_outcome leased_outcome agency_uncertain_record
writes-Keeps blocked current r q now h = (ground arith, λ k. ground arith)

fails-Keeps :
    (blocked : Bool) (current : Snapshot) (r : AgencyProposalRecord)
    (q : ResolveAgencyProposalRequest) (now : Time) {u : AgencyProposalRecord} {e : Error}
    → outcome blocked current r q now ≡ fails u e
    → Keeps r u
unfolding outcome uncertain_outcome leased_outcome
fails-Keeps blocked current r q now h = (ground arith, λ k. ground arith)

pub resolve-Filed :
    (s : Store) (q : ResolveAgencyProposalRequest) (now : Time)
    → Filed s.entries s.agency_records
    → Filed
        (resolve_agency_proposal s q now).0.entries
        (resolve_agency_proposal s q now).0.agency_records
unfolding resolve_agency_proposal resolve_found apply_outcome write_record get2
resolve-Filed s q now h = found (get q.proposal_id (inner q.tenant_id s.agency_records)) refl
  where
    applied :
        (r u : AgencyProposalRecord)
        → Sound s.entries q.tenant_id q.proposal_id r
        → Keeps r u
        → Filed (write_record s q u).entries (write_record s q u).agency_records
    applied r u sound (same, live) =
        Filed-put2 s.entries s.agency_records q.tenant_id q.proposal_id u
          (Sound-keep s.entries q.tenant_id q.proposal_id r u same live sound) h

    settled :
        (blocked : Bool) (r : AgencyProposalRecord) (o : Outcome)
        → Sound s.entries q.tenant_id q.proposal_id r
        → outcome blocked s.snapshot r q now ≡ o
        → Filed (apply_outcome s q r o).0.entries (apply_outcome s q r o).0.agency_records
    settled blocked r (refuses e) sound p = h
    settled blocked r repeats sound p = h
    settled blocked r (writes u) sound p =
        applied r u sound (writes-Keeps blocked s.snapshot r q now p)
    settled blocked r (fails u e) sound p =
        applied r u sound (fails-Keeps blocked s.snapshot r q now p)

    found :
        (o : Option AgencyProposalRecord)
        → get q.proposal_id (inner q.tenant_id s.agency_records) ≡ o
        → Filed (resolve_found s q now o).0.entries (resolve_found s q now o).0.agency_records
    found none e = h
    found (some r) e =
        settled _ r _
          (Each-get (Sound s.entries q.tenant_id) q.proposal_id (inner q.tenant_id s.agency_records)
            (h q.tenant_id) e)
          refl

evidence-Stands :
    (s : Store) (t : String) (ids : List String) (by : Time)
    → evidence_ok s t ids by ≡ true
    → All (Stands s.entries t) ids
unfolding evidence_ok
evidence-Stands s t [] by h = tt
evidence-Stands s t (id ∷ ids) by h = (ground arith, evidence-Stands s t ids by (ground arith))

admission_evidence :
    (s : Store) (r : AgencyProposalRecord) (chain waiting : ℕ) (by : Time)
    → admission s r chain waiting by ≡ none
    → evidence_ok s r.proposal.tenant_id r.proposal.evidence_ids by ≡ true
unfolding admission
admission_evidence s r chain waiting by h = ground arith

open_tenant-Filed :
    (s : Store) (t : String) (o : Option (Dict AgencyProposalRecord))
    → get t s.agency_records ≡ o
    → Filed s.entries s.agency_records
    → Filed (open_tenant s t o).entries (open_tenant s t o).agency_records
open_tenant-Filed s t (some m) e h u = h u
open_tenant-Filed s t none e h u = rw (inner-put_nil t u s.agency_records e) (h u)

open_tenant-entries :
    (s : Store) (t : String) (o : Option (Dict AgencyProposalRecord))
    → (open_tenant s t o).entries ≡ s.entries
open_tenant-entries s t none = refl
open_tenant-entries s t (some m) = refl

pub propose-Filed :
    (s : Store) (r : AgencyProposalRecord) (digest : String) (chain waiting : ℕ) (by : Time)
    → Filed s.entries s.agency_records
    → Filed
        (put_agency_proposal s r digest chain waiting by).0.entries
        (put_agency_proposal s r digest chain waiting by).0.agency_records
unfolding put_agency_proposal put_existing with_tenant enqueue
propose-Filed s r digest chain waiting by h =
    found (get2 t r.proposal.id s.agency_records) (admission s r chain waiting by) refl
  where
    t : String
    t = r.proposal.tenant_id

    opened : Store
    opened = open_tenant s t (get t s.agency_records)

    opened_filed : Filed opened.entries opened.agency_records
    opened_filed = open_tenant-Filed s t (get t s.agency_records) refl h

    found :
        (o : Option AgencyProposalRecord) (refusal : Option Error)
        → admission s r chain waiting by ≡ refusal
        → Filed
            (put_existing opened r digest o refusal).0.entries
            (put_existing opened r digest o refusal).0.agency_records
    found (some existing) refusal e =
        if_elim (λ (x : Store × Result AgencyResult). Filed x.0.entries x.0.agency_records)
          (same_digest (get2 t r.proposal.id opened.agency_digests) digest) _ _ (λ _. opened_filed)
          (λ _. opened_filed)
    found none (some x) e = opened_filed
    found none none e =
        Filed-put2 opened.entries opened.agency_records t r.proposal.id r
          (record {
            own_id = refl;
            own_tenant = refl;
            evidence = λ _. rw (open_tenant-entries s t (get t s.agency_records)) (
                evidence-Stands s t r.proposal.evidence_ids by
                  (admission_evidence s r chain waiting by e));
          })
          opened_filed
