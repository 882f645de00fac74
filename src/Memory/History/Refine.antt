-- ===== src/Memory/History/Refine.antt =====
-- Every call of the memory store is a move.
pub mod Tables
pub mod Queue
use eventframed.Prelude.{
  ℕ, String, ◌==◌, ◌&&◌, ◌||◌, List, [], ◌∷◌, Option, none, some, ◌≡◌, refl, inl, inr, arith,
  str_eq, Bool, true, false, if◌then◌else◌, is_some, Bool-cases,
}
use eventframed.Prelude.Dict.{Dict, get, get2, ensure, inner, remove2, any_value}
use eventframed.Prelude.Float64.{Float64}
use eventframed.Prelude.Sort.{sort_by, lt_str}
use eventframed.Model.Snapshot.{Time, Duration, Snapshot, eq_snapshot}
use eventframed.Model.Event.{Event, Composition}
use eventframed.Model.Certificate.{
  SelectionSupportCertificate, OmittedInfluenceCertificate, AntiPigeonCertificate,
}
use eventframed.Model.Journal.{BayesianJournalEntry, journal_equal}
use eventframed.Model.PredictiveGraph.{PredictiveSnapRecord, eq_graph, eq_snap}
use eventframed.Model.Proposal.{AgencyProposalRecord, ResolveAgencyProposalRequest}
use eventframed.Store.{Error, journal_snapshot_compatible}
use eventframed.Memory.{Entry, Store, invalidate}
use eventframed.Memory.Events.{
  put_event, put_composition, put_checked, put_authorized, composition_authorized,
}
use eventframed.Memory.Deletion.{
  delete_event, delete_composition, delete_before, delete_item, cancel_agency_by_evidence,
  expired_ids, remove_all, is_nil,
}
use eventframed.Memory.Certificates.{
  bind_bayesian_policy, publish_selection_certificate, publish_omitted_influence_certificate,
  publish_anti_pigeon_certificate,
}
use eventframed.Memory.Journals.{put_bayesian_journal, put_journal_checked}
use eventframed.Memory.Graphs.{
  publish_predictive_snap, publish_checked, get_predictive_graph, rollback_predictive_snap,
  rollback_found,
}
use eventframed.Memory.Agency.{
  put_agency_proposal, put_existing, open_tenant, with_tenant, same_digest, admission, enqueue,
}
use eventframed.Memory.Agency.Claim.{claim_agency_proposals, granted, sweep_in, is_close, nonempty}
use eventframed.Memory.Agency.Resolve.{
  Outcome, refuses, repeats, writes, fails, outcome, apply_outcome, resolve_found,
  resolve_agency_proposal,
}
use eventframed.Memory.History.{
  Call, binds, puts, composes, deletes, decomposes, retains, journals_entry, certifies_selection,
  certifies_omitted, certifies_group, publishes, rolls_back, proposes, claims, resolves, step,
}
use eventframed.Memory.History.Moves.{
  stays, if_Move, by_runtime, by_policy, by_abstraction, by_graph, Reset, Move, idle, queues,
  ingests, joins, mutates, resets,
}
use eventframed.Memory.History.Refine.Tables.{
  bind-Move, selection-Move, omitted-Move, group-Move, journal-Move, snap-Move, rollback-Move,
}
use eventframed.Memory.History.Refine.Queue.{proposal-Move, claim-Move, resolve-Move}

put_checked-Move :
    (s new : Store) (found : Option Entry) (digest : String)
    → (found ≡ none → Move s new)
    → Move s (put_checked s new found digest).0
unfolding put_checked
put_checked-Move s new none digest h = h refl
put_checked-Move s new (some current) digest h =
    if_Move s (str_eq current.digest digest) _ _ (λ _. stays s) (λ _. stays s)

put_event-Move :
    (s : Store) (e : Event) (v : List Float64) (d : String) → Move s (put_event s e v d).0
unfolding put_event
put_event-Move s e v d = put_checked-Move s _ _ d (λ h. ingests e v d h refl)

put_composition-Move :
    (s : Store) (e : Event) (v : List Float64) (d : String) (base : Snapshot)
    → Move s (put_composition s e v d base).0
unfolding put_composition
put_composition-Move s e v d base =
    if_Move s (eq_snapshot s.snapshot base) _ _ (λ _. authorized e.composition) (λ _. stays s)
  where
    authorized : (o : Option Composition) → Move s (put_authorized s e v d o).0
    authorized none = stays s
    authorized (some c) =
        if_Move s (composition_authorized s e c) _ _
          (λ _. put_checked-Move s _ _ d (λ h. joins e v d h refl)) (λ _. stays s)

cancel-Reset :
    (s : Store) (tenant_id : String) (deleted : List String) (now : Time)
    → Reset s.snapshot (invalidate (cancel_agency_by_evidence s tenant_id deleted now).snapshot)
unfolding cancel_agency_by_evidence invalidate
cancel-Reset s tenant_id deleted now = ground arith

delete_event-Move :
    (s : Store) (tenant_id event_id : String) (now : Time)
    → Move s (delete_event s tenant_id event_id now).0
unfolding delete_event
delete_event-Move s tenant_id event_id now =
    if_Move s (is_some (get2 tenant_id event_id s.entries)) _ _
      (λ _.
        resets
          (cancel-Reset (record s { entries = remove2 tenant_id event_id s.entries }) tenant_id
            (event_id ∷ []) now)
          refl)
      (λ _. stays s)

delete_before-Move :
    (s : Store) (tenant_id : String) (cutoff : Time) (limit : ℕ) (now : Time)
    → Move s (delete_before s tenant_id cutoff limit now).0
unfolding delete_before
delete_before-Move s tenant_id cutoff limit now =
    if_Move s (is_nil ids) _ _ (λ _. stays s)
      (λ _.
        resets
          (cancel-Reset (record s { entries = remove_all tenant_id ids s.entries }) tenant_id ids
            now)
          refl)
  where
    ids : List String
    ids = sort_by lt_str (expired_ids (inner tenant_id s.entries) cutoff limit)

delete_composition-Move :
    (s : Store) (tenant_id event_id reason : String) (at : Time)
    → Move s (delete_composition s tenant_id event_id reason at).0
unfolding delete_composition
delete_composition-Move s tenant_id event_id reason at = item (get2 tenant_id event_id s.entries)
  where
    parted :
        (e : Entry) (o : Option Composition)
        → e.event.composition ≡ o
        → Move s (delete_item s tenant_id event_id reason at (some e)).0
    parted e none h = rw (h, delete_item) (stays s)
    parted e (some c) h = rw (h, delete_item) (mutates (by_abstraction refl) refl)

    item : (o : Option Entry) → Move s (delete_item s tenant_id event_id reason at o).0
    item none = stays s
    item (some e) = parted e e.event.composition refl

pub step-Move : (s : Store) (c : Call) → Move s (step s c)
unfolding step
step-Move s (binds digest) = bind-Move s digest
step-Move s (puts event vector digest) = put_event-Move s event vector digest
step-Move s (composes event vector digest base) = put_composition-Move s event vector digest base
step-Move s (deletes tenant_id id now) = delete_event-Move s tenant_id id now
step-Move s (decomposes tenant_id id reason at) = delete_composition-Move s tenant_id id reason at
step-Move s (retains tenant_id cutoff limit now) = delete_before-Move s tenant_id cutoff limit now
step-Move s (journals_entry entry) = journal-Move s entry
step-Move s (certifies_selection c) = selection-Move s c
step-Move s (certifies_omitted c) = omitted-Move s c
step-Move s (certifies_group c) = group-Move s c
step-Move s (publishes r) = snap-Move s r
step-Move s (rolls_back tenant_id id reason now) = rollback-Move s tenant_id id reason now
step-Move s (proposes r digest chain waiting by) = proposal-Move s r digest chain waiting by
step-Move s (claims tenant_id consumer now limit lease) =
    claim-Move s tenant_id consumer now limit lease
step-Move s (resolves q now) = resolve-Move s q now
