-- ===== src/Memory/History.antt =====
-- Histories of the memory store: sequences of its calls that may write. A failed call leaves the
-- state that its method leaves. `ApplyBayesianOutcome` is not among the calls.
pub mod Moves
pub mod Refine
pub mod Counters
pub mod Frozen
pub mod Motion
pub mod View
pub mod Recall
pub mod Evidence
use eventframed.Prelude.{ℕ, String, List, [], ◌∷◌}
use eventframed.Prelude.Float64.{Float64}
use eventframed.Model.Snapshot.{Time, Duration, Snapshot}
use eventframed.Model.Event.{Event}
use eventframed.Model.Proposal.{AgencyProposalRecord, ResolveAgencyProposalRequest}
use eventframed.Model.Certificate.{
  SelectionSupportCertificate, OmittedInfluenceCertificate, AntiPigeonCertificate,
}
use eventframed.Model.Journal.{BayesianJournalEntry}
use eventframed.Model.PredictiveGraph.{PredictiveSnapRecord}
use eventframed.Memory.{Store}
use eventframed.Memory.Events.{put_event, put_composition}
use eventframed.Memory.Deletion.{delete_event, delete_composition, delete_before}
use eventframed.Memory.Certificates.{
  bind_bayesian_policy, publish_selection_certificate, publish_omitted_influence_certificate,
  publish_anti_pigeon_certificate,
}
use eventframed.Memory.Journals.{put_bayesian_journal}
use eventframed.Memory.Graphs.{publish_predictive_snap, rollback_predictive_snap}
use eventframed.Memory.Agency.{put_agency_proposal}
use eventframed.Memory.Agency.Claim.{claim_agency_proposals}
use eventframed.Memory.Agency.Resolve.{resolve_agency_proposal}

pub data Call : Type 0 where
  binds : String → Call
  puts : Event → List Float64 → String → Call
  composes : Event → List Float64 → String → Snapshot → Call
  deletes : String → String → Time → Call
  decomposes : String → String → String → Time → Call
  retains : String → Time → ℕ → Time → Call
  journals_entry : BayesianJournalEntry → Call
  certifies_selection : SelectionSupportCertificate → Call
  certifies_omitted : OmittedInfluenceCertificate → Call
  certifies_group : AntiPigeonCertificate → Call
  publishes : PredictiveSnapRecord → Call
  rolls_back : String → String → String → Time → Call
  proposes : AgencyProposalRecord → String → ℕ → ℕ → Time → Call
  claims : String → String → Time → ℕ → Duration → Call
  resolves : ResolveAgencyProposalRequest → Time → Call

unfoldable pub step : Store → Call → Store
step s (binds digest) = (bind_bayesian_policy s digest).0
step s (puts event vector digest) = (put_event s event vector digest).0
step s (composes event vector digest base) = (put_composition s event vector digest base).0
step s (deletes tenant_id id now) = (delete_event s tenant_id id now).0
step s (decomposes tenant_id id reason at) = (delete_composition s tenant_id id reason at).0
step s (retains tenant_id cutoff limit now) = (delete_before s tenant_id cutoff limit now).0
step s (journals_entry entry) = (put_bayesian_journal s entry).0
step s (certifies_selection c) = (publish_selection_certificate s c).0
step s (certifies_omitted c) = (publish_omitted_influence_certificate s c).0
step s (certifies_group c) = (publish_anti_pigeon_certificate s c).0
step s (publishes r) = (publish_predictive_snap s r).0
step s (rolls_back tenant_id id reason now) = (rollback_predictive_snap s tenant_id id reason now).0
step s (proposes r digest chain waiting by) = (put_agency_proposal s r digest chain waiting by).0
step s (claims tenant_id consumer now limit lease) =
    (claim_agency_proposals s tenant_id consumer now limit lease).0
step s (resolves q now) = (resolve_agency_proposal s q now).0

unfoldable pub run : Store → List Call → Store
run s [] = s
run s (c ∷ cs) = run (step s c) cs
