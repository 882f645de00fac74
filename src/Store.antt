-- ===== src/Store.antt =====
-- internal/store/store.go: the errors and results of a store, and the test that admits a journal
-- entry. internal/store/tau.go is in the child Tau.
pub mod Tau
pub mod Compatible
pub mod Handles
use eventframed.Prelude.{
  ℕ, zero, suc, ◌+◌, ◌-◌, String, Bool, true, false, ◌&&◌, Option, none, some, List, ltb, leb, ◌==◌,
}
use eventframed.Prelude.Float64.{Float64}
use eventframed.Prelude.Word.{inc}
use eventframed.Model.Snapshot.{Time, Snapshot, after}
use eventframed.Model.Event.{Event}
use eventframed.Model.Proposal.{AgencyProposalRecord}

pub data Error : Type 0 where
  idempotency_conflict journal_conflict journal_not_found certificate_not_found outcome_conflict
        posterior_not_found event_not_found stale_snapshot snap_not_found snap_conflict
        agency_conflict agency_not_found agency_lease agency_expired agency_chain_budget
        agency_evidence composition_authority certificate_conflict residual_not_found handle_bound
        backup_unsupported :
      Error

pub data Result {ℓ} (A : Type ℓ) : Type ℓ where
  ok : A → Result A
  err : Error → Result A

pub record PutResult : Type 0 where
  pub duplicate : Bool
  pub snapshot : Snapshot

pub record DeleteResult : Type 0 where
  pub deleted : Bool
  pub snapshot : Snapshot

pub record CompositionDeleteResult : Type 0 where
  pub deleted : Bool
  pub member_event_ids : List String
  pub snapshot : Snapshot

pub record RetentionResult : Type 0 where
  pub deleted_ids : List String
  pub snapshot : Snapshot

pub record AgencyResult : Type 0 where
  pub duplicate : Bool
  pub agency_record : AgencyProposalRecord
  pub snapshot : Snapshot

pub record SearchResult : Type 0 where
  pub event : Event
  pub similarity : Float64
  pub retrieval_metadata : List ℕ

pub record Stats : Type 0 where
  pub backend : String
  pub tenants : ℕ
  pub events : ℕ
  pub memory_bytes : ℕ

-- map[uint64]time.Time
abbrev pub Motion : Type 0
Motion = ℕ → Option Time

unfoldable pub same_semantics : Snapshot → Snapshot → Bool
same_semantics captured current =
    captured.policy_version == current.policy_version
    && captured.contract_version == current.contract_version
    && captured.graph_version == current.graph_version
    && captured.posterior_version == current.posterior_version
    && captured.residual_version == current.residual_version
    && captured.abstraction_version == current.abstraction_version
    && captured.agency_version == current.agency_version

-- The loop `for version := …; version <= current.RuntimeVersion; version++` with fuel.
unfoldable pub motion_loop : ℕ → ℕ → ℕ → Time → Motion → Bool
motion_loop zero version current as_of motion = false
motion_loop (suc fuel) version current as_of motion = elim (leb version current) [
  | false ↦ true
  | true ↦ elim (motion version) [
    | none ↦ false
    | some available_at ↦ elim (after available_at as_of) [
      | true ↦ motion_loop fuel (inc version) current as_of motion
      | false ↦ false
    ]
  ]
]

-- JournalSnapshotCompatible
unfoldable pub journal_snapshot_compatible : Snapshot → Snapshot → Time → Motion → Bool
unfolding same_semantics motion_loop
journal_snapshot_compatible captured current as_of motion =
    same_semantics captured current
    && leb captured.runtime_version current.runtime_version
    && motion_loop (current.runtime_version - captured.runtime_version + 1)
        (inc captured.runtime_version) current.runtime_version as_of motion
