-- ===== src/Model/Proposal.antt =====
-- internal/model/agency.go and the tau binding of internal/model/tau.go.
use eventframed.Prelude.{ℕ, String, Option, List, Bool, true, false, str_eq}
use eventframed.Prelude.Float64.{Float64}
use eventframed.Prelude.Int.{ℤ}
use eventframed.Model.Snapshot.{Time, Snapshot}

pub record TauPoint : Type 0 where
  pub mark : String
  pub delay_ms : ℕ
  pub probability : Float64

pub record TauForecast : Type 0 where
  pub base : Snapshot
  pub id : String
  pub origin : Time
  pub issued_at : Time
  pub valid_until : Time
  pub horizon_ms : ℕ
  pub points : List TauPoint
  pub no_event : Float64
  pub tv_radius : Float64

pub record TauDecision : Type 0 where
  pub schedule : Bool
  pub reason : String
  pub deliver_at : Time
  pub latest_dispatch : Time
  pub probability : Float64
  pub lower_probability : Float64
  pub lower_utility : Float64

pub record TauTurnBinding : Type 0 where
  pub request_digest : String
  pub forecast : TauForecast
  pub decision : TauDecision
  pub plan_id : String
  pub target_kind : String
  pub forecast_id : String
  pub forecast_digest : String
  pub policy_digest : String
  pub base : Snapshot
  pub latest_dispatch : Time
  pub lower_probability : Float64
  pub lower_utility : Float64
  pub cooldown_ms : ℕ

-- The type is a string in Go: `other_action` is any value that is no constant of it.
pub data AgencyAction : Type 0 where
  wake schedule notify remember suppress : AgencyAction
  other_action : String → AgencyAction

pub record AgencyProposal : Type 0 where
  pub tau : Option TauTurnBinding
  pub id : String
  pub tenant_id : String
  pub session_id : String
  pub action : AgencyAction
  pub reason : String
  pub evidence_ids : List String
  pub expected_utility : Float64
  pub priority : Float64
  pub required_capability : String
  pub not_before : Time
  pub scheduled_for : Option Time
  pub expires_at : Time
  pub idempotency_key : String
  pub causal_chain_id : String
  pub parent_proposal_id : String
  pub causal_chain_depth : ℤ
  pub created_at : Time
  pub contract_version : ℕ

pub record AgencyProposalDraft : Type 0 where
  pub id : String
  pub tenant_id : String
  pub session_id : String
  pub action : AgencyAction
  pub reason : String
  pub evidence_ids : List String
  pub expected_utility : Float64
  pub priority : Float64
  pub not_before : Time
  pub scheduled_for : Option Time
  pub expires_at : Time
  pub idempotency_key : String
  pub causal_chain_id : String
  pub parent_proposal_id : String
  pub causal_chain_depth : ℤ

pub record SignedAgencyProposal : Type 0 where
  pub payload : String
  pub signature : String
  pub key_id : String

-- A string type too: the zero value "" and any unknown status are `other_status`.
pub data AgencyProposalStatus : Type 0 where
  pending claimed approved rejected expired uncertain : AgencyProposalStatus
  other_status : String → AgencyProposalStatus

abbrev pub eq_status : AgencyProposalStatus → AgencyProposalStatus → Bool
eq_status pending pending = true
eq_status claimed claimed = true
eq_status approved approved = true
eq_status rejected rejected = true
eq_status expired expired = true
eq_status uncertain uncertain = true
eq_status (other_status a) (other_status b) = str_eq a b
eq_status _ _ = false

pub record AgencyProposalRecord : Type 0 where
  pub uncertain_execution_refs : List String
  pub proposal : AgencyProposal
  pub signed : SignedAgencyProposal
  pub status : AgencyProposalStatus
  pub claimed_by : String
  pub lease_until : Time
  pub resolution_reason : String
  pub execution_ref : String
  pub resolved_at : Time

pub record ResolveAgencyProposalRequest : Type 0 where
  pub cancelled_execution_refs : List String
  pub protocol_version : String
  pub authority_token : String
  pub tenant_id : String
  pub proposal_id : String
  pub consumer_id : String
  pub decision : AgencyProposalStatus
  pub reason : String
  pub execution_ref : String
