-- ===== src/Memory/History/Moves.antt =====
-- Every call of the store makes one of a few moves of its counters and of its core, which is the
-- state that forecasts and recalls rest on.
use eventframed.Prelude.{Bool, true, false, refl, if◌then◌else◌, String, List, none, ◌≡◌, ◌⊎◌}
use eventframed.Prelude.Dict.{Dict, get2}
use eventframed.Prelude.Float64.{Float64}
use eventframed.Prelude.Word.{inc}
use eventframed.Model.Snapshot.{Snapshot}
use eventframed.Model.Event.{Event}
use eventframed.Model.Certificate.{
  SelectionSupportCertificate, OmittedInfluenceCertificate, AntiPigeonCertificate,
  CompositionTombstone,
}
use eventframed.Model.PredictiveGraph.{PredictiveGraph}
use eventframed.Model.Posterior.{BayesianPosterior, ResidualRecord}
use eventframed.Memory.{
  Entry, Store, bump_runtime, bump_agency, bump_abstraction, bump_policy, bump_graph,
}
use eventframed.Memory.Events.{ingest, ingest_composition}

-- The state that neither the agency queue, nor the journals, nor the record of snaps belongs to.
pub record Core : Type 0 where
  pub entries : Dict (Dict Entry)
  pub selection_certificates : Dict SelectionSupportCertificate
  pub omitted_certificates : Dict OmittedInfluenceCertificate
  pub anti_pigeon_certificates : Dict AntiPigeonCertificate
  pub anti_pigeon_index : Dict (Dict String)
  pub posteriors : Dict (Dict BayesianPosterior)
  pub residuals : Dict (Dict ResidualRecord)
  pub graphs : Dict PredictiveGraph
  pub composition_tombstones : Dict (Dict CompositionTombstone)
  pub policy_digest : String

abbrev pub core : Store → Core
core s = record {
  entries = s.entries;
  selection_certificates = s.selection_certificates;
  omitted_certificates = s.omitted_certificates;
  anti_pigeon_certificates = s.anti_pigeon_certificates;
  anti_pigeon_index = s.anti_pigeon_index;
  posteriors = s.posteriors;
  residuals = s.residuals;
  graphs = s.graphs;
  composition_tombstones = s.composition_tombstones;
  policy_digest = s.policy_digest;
}

-- The counters of a call that changes the core without an ingestion: the agency version stays.
pub data Bump (a b : Snapshot) : Type 0 where
  by_runtime : b ≡ bump_runtime a → Bump a b
  by_policy : b ≡ bump_policy a → Bump a b
  by_abstraction : b ≡ bump_abstraction a → Bump a b
  by_graph : b ≡ bump_graph a → Bump a b

-- The counters of a deletion: it may reject proposals, and then counts for the agency queue too.
pub record Reset (a b : Snapshot) : Type 0 where
  pub runtime : b.runtime_version ≡ inc a.runtime_version
  pub policy : b.policy_version ≡ a.policy_version
  pub contract : b.contract_version ≡ a.contract_version
  pub graph : b.graph_version ≡ inc a.graph_version
  pub posterior : b.posterior_version ≡ inc a.posterior_version
  pub residual : b.residual_version ≡ inc a.residual_version
  pub abstraction : b.abstraction_version ≡ inc a.abstraction_version
  pub agency : (b.agency_version ≡ a.agency_version) ⊎ (b.agency_version ≡ inc a.agency_version)
  pub evidence : b.evidence_epoch ≡ inc a.evidence_epoch

pub data Move (s t : Store) : Type 0 where
  idle : t.snapshot ≡ s.snapshot → t.ingest_motion ≡ s.ingest_motion → core t ≡ core s → Move s t
  queues :
      t.snapshot ≡ bump_agency s.snapshot
      → t.ingest_motion ≡ s.ingest_motion
      → core t ≡ core s
      → Move s t
  ingests :
      (e : Event) (v : List Float64) (d : String)
      → get2 e.tenant_id e.id s.entries ≡ none
      → t ≡ ingest s e v d
      → Move s t
  joins :
      (e : Event) (v : List Float64) (d : String)
      → get2 e.tenant_id e.id s.entries ≡ none
      → t ≡ ingest_composition s e v d
      → Move s t
  mutates : Bump s.snapshot t.snapshot → t.ingest_motion ≡ s.ingest_motion → Move s t
  resets : Reset s.snapshot t.snapshot → t.ingest_motion ≡ s.ingest_motion → Move s t

pub stays : (s : Store) → Move s s
stays s = idle refl refl refl

pub if_Move {ℓ} :
    {B : Type ℓ} (s : Store) (b : Bool) (x y : Store × B)
    → (b ≡ true → Move s x.0)
    → (b ≡ false → Move s y.0)
    → Move s (if b then x else y).0
if_Move s true x y h k = h refl
if_Move s false x y h k = k refl
