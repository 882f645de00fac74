-- ===== src/Memory.antt =====
-- internal/store/memorystore/store.go: the state of the store. Each method holds the store's lock
-- from end to end, so a history of the store is a sequence of whole calls.
pub mod Events
pub mod Retrieval
pub mod Deletion
pub mod Certificates
pub mod Graphs
pub mod Journals
pub mod Agency
pub mod History
use eventframed.Prelude.{ℕ, ◌-◌, ◌&&◌, String, none, some, List, [], ltb, ◌==◌, if◌then◌else◌}
use eventframed.Prelude.Dict.{Dict}
use eventframed.Prelude.Float64.{Float64}
use eventframed.Prelude.Word.{inc}
use eventframed.Model.Snapshot.{Time, Snapshot, contract_version}
use eventframed.Model.Event.{Event}
use eventframed.Model.Proposal.{AgencyProposalRecord}
use eventframed.Model.Certificate.{
  SelectionSupportCertificate, OmittedInfluenceCertificate, AntiPigeonCertificate,
  CompositionTombstone,
}
use eventframed.Model.Journal.{BayesianJournalEntry}
use eventframed.Model.PredictiveGraph.{PredictiveGraph, PredictiveSnapRecord}
use eventframed.Model.Posterior.{BayesianPosterior, ResidualRecord}
use eventframed.Store.{Motion}

pub record Entry : Type 0 where
  pub event : Event
  pub vector : List Float64
  pub digest : String

-- `Store`, without its lock and without the outcome tables of `ApplyBayesianOutcome`.
pub record Store : Type 0 where
  pub entries : Dict (Dict Entry)
  pub journals : Dict (Dict BayesianJournalEntry)
  pub selection_certificates : Dict SelectionSupportCertificate
  pub omitted_certificates : Dict OmittedInfluenceCertificate
  pub anti_pigeon_certificates : Dict AntiPigeonCertificate
  pub anti_pigeon_index : Dict (Dict String)
  pub posteriors : Dict (Dict BayesianPosterior)
  pub residuals : Dict (Dict ResidualRecord)
  pub graphs : Dict PredictiveGraph
  pub snaps : Dict (Dict PredictiveSnapRecord)
  pub agency_records : Dict (Dict AgencyProposalRecord)
  pub agency_digests : Dict (Dict String)
  pub composition_tombstones : Dict (Dict CompositionTombstone)
  pub policy_digest : String
  pub snapshot : Snapshot
  pub ingest_motion : Motion

abbrev pub initial_snapshot : Snapshot
initial_snapshot = record {
  runtime_version = 0;
  policy_version = 1;
  contract_version = contract_version;
  graph_version = 1;
  posterior_version = 1;
  residual_version = 1;
  abstraction_version = 1;
  agency_version = 1;
  evidence_epoch = 0;
}

-- New
abbrev pub new : Store
new = record {
  entries = [];
  journals = [];
  selection_certificates = [];
  omitted_certificates = [];
  anti_pigeon_certificates = [];
  anti_pigeon_index = [];
  posteriors = [];
  residuals = [];
  graphs = [];
  snaps = [];
  agency_records = [];
  agency_digests = [];
  composition_tombstones = [];
  policy_digest = "";
  snapshot = initial_snapshot;
  ingest_motion = λ v. none;
}

-- The counters that the operations advance together.
unfoldable pub bump_runtime : Snapshot → Snapshot
bump_runtime c = record c { runtime_version = inc c.runtime_version }

unfoldable pub bump_agency : Snapshot → Snapshot
bump_agency c = record c {
  runtime_version = inc c.runtime_version;
  agency_version = inc c.agency_version;
}

unfoldable pub bump_abstraction : Snapshot → Snapshot
bump_abstraction c = record c {
  runtime_version = inc c.runtime_version;
  abstraction_version = inc c.abstraction_version;
}

unfoldable pub bump_evidence : Snapshot → Snapshot
bump_evidence c = record c {
  runtime_version = inc c.runtime_version;
  evidence_epoch = inc c.evidence_epoch;
}

unfoldable pub bump_policy : Snapshot → Snapshot
bump_policy c = record c {
  runtime_version = inc c.runtime_version;
  policy_version = inc c.policy_version;
}

unfoldable pub bump_graph : Snapshot → Snapshot
bump_graph c = record c {
  runtime_version = inc c.runtime_version;
  graph_version = inc c.graph_version;
  abstraction_version = inc c.abstraction_version;
  posterior_version = inc c.posterior_version;
  residual_version = inc c.residual_version;
}

-- invalidate
unfoldable pub invalidate : Snapshot → Snapshot
invalidate c = record c {
  runtime_version = inc c.runtime_version;
  evidence_epoch = inc c.evidence_epoch;
  graph_version = inc c.graph_version;
  posterior_version = inc c.posterior_version;
  residual_version = inc c.residual_version;
  abstraction_version = inc c.abstraction_version;
}

abbrev pub retained_versions : ℕ
retained_versions = 4096

-- recordIngestMotion
unfoldable pub record_ingest_motion : Motion → ℕ → Time → Motion
record_ingest_motion motion version available_at v =
    if ltb retained_versions version && v == version - retained_versions
    then none
    else if v == version
    then some available_at
    else motion v
