-- ===== src/Agency/Build.antt =====
-- internal/agency/agency.go: `BuildProposal`, test by test. The tests on durations stand behind the
-- one that the policy is valid, so `magnitude` is the duration itself there.
use eventframed.Prelude.{
  ℕ, ◌+◌, ◌-◌, String, len, Bool, true, false, not, ◌&&◌, ◌||◌, Option, none, some, List, [], ◌∷◌,
  leb, ltb, ◌==◌, str_eq, if◌then◌else◌, length,
}
use eventframed.Prelude.Float64.{Float64, is_nan, is_inf, lt_f, le_f, zero_f, one_f}
use eventframed.Prelude.Int.{pos, eq_int, lt_int, magnitude}
use eventframed.Prelude.Sort.{sort_by, lt_str}
use eventframed.Prelude.Text.{trim_space, is_blank}
use eventframed.Model.Snapshot.{Time, zero_time, before, after, contract_version}
use eventframed.Model.Proposal.{
  AgencyAction, wake, notify, schedule, AgencyProposalDraft, AgencyProposal,
}
use eventframed.Agency.{Policy, valid}

-- The errors of the source, one for each message.
pub data Refusal : Type 0 where
  disabled policy_invalid ids_required identifiers_bound unknown_action reason_bound utility_range
        window schedule_window schedule_unexpected chain_depth evidence_bound evidence_ids :
      Refusal

pub data Built : Type 0 where
  built : AgencyProposal → Built
  refused : Refusal → Built

abbrev pub max_identifier_bytes : ℕ
max_identifier_bytes = 256

abbrev pub max_session_id_bytes : ℕ
max_session_id_bytes = 1024

unfoldable pub bounded_string : String → ℕ → Bool
bounded_string value maximum = not (str_eq value "") && leb (len value) maximum

unfoldable pub bounded_optional_string : String → ℕ → Bool
bounded_optional_string value maximum = str_eq value "" || leb (len value) maximum

-- capabilityFor; `none` is its error.
unfoldable pub capability_for : AgencyAction → Option String
capability_for wake = some "eventframe.agency.wake"
capability_for notify = some "eventframe.agency.notify"
capability_for schedule = some "eventframe.agency.schedule"
capability_for _ = none

unfoldable pub finite : Float64 → Bool
finite x = not (is_nan x) && not (is_inf x)

-- The draft with its texts trimmed.
unfoldable pub trimmed : AgencyProposalDraft → AgencyProposalDraft
unfolding trim_space
trimmed d = record d {
  id = trim_space d.id;
  tenant_id = trim_space d.tenant_id;
  session_id = trim_space d.session_id;
  reason = trim_space d.reason;
  idempotency_key = trim_space d.idempotency_key;
  causal_chain_id = trim_space d.causal_chain_id;
}

-- The tests of the identifiers, of a trimmed draft.
unfoldable pub check_ids : AgencyProposalDraft → Option Refusal
unfolding bounded_string bounded_optional_string trim_space
check_ids d =
    if str_eq d.id ""
      || str_eq d.tenant_id ""
      || str_eq d.session_id ""
      || not (str_eq d.idempotency_key d.id)
      || str_eq d.causal_chain_id ""
    then some ids_required
    else if not (bounded_string d.id max_identifier_bytes)
        || not (bounded_string d.tenant_id max_identifier_bytes)
        || not (bounded_string d.session_id max_session_id_bytes)
        || not (bounded_string d.causal_chain_id max_identifier_bytes)
        || not (bounded_optional_string (trim_space d.parent_proposal_id) max_identifier_bytes)
    then some identifiers_bound
    else none

-- The tests of the reason, of the utilities and of the validity window.
unfoldable pub check_bounds : AgencyProposalDraft → Time → Policy → Option Refusal
unfolding finite
check_bounds d now policy =
    if str_eq d.reason "" || lt_int policy.max_reason_bytes (pos (len d.reason))
    then some reason_bound
    else if not (finite d.expected_utility)
        || le_f d.expected_utility zero_f
        || lt_f one_f d.expected_utility
        || not (finite d.priority)
        || lt_f d.priority zero_f
        || lt_f one_f d.priority
    then some utility_range
    else if d.not_before == zero_time
        || after d.not_before latest
        || not (after d.expires_at now)
        || after d.expires_at latest
        || not (before d.not_before d.expires_at)
        || ltb (magnitude policy.max_ttl) (d.expires_at - d.not_before)
    then some window
    else none
  where
    latest : Time
    latest = now + magnitude policy.max_future

unfoldable pub is_schedule : AgencyAction → Bool
is_schedule schedule = true
is_schedule _ = false

-- The tests of `scheduled_for`.
unfoldable pub check_schedule : AgencyProposalDraft → Option Refusal
unfolding is_schedule
check_schedule d = elim d.scheduled_for [
  | none ↦ if is_schedule d.action then some schedule_window else none
  | some at ↦
      if not (is_schedule d.action)
      then some schedule_unexpected
      else if before at d.not_before || not (before at d.expires_at)
      then some schedule_window
      else none
]

-- The tests of the causal chain.
unfoldable pub check_chain : AgencyProposalDraft → Policy → Option Refusal
unfolding is_blank
check_chain d policy =
    if lt_int d.causal_chain_depth (pos 0)
      || lt_int policy.max_chain_depth d.causal_chain_depth
      || (eq_int d.causal_chain_depth (pos 0) && not (str_eq d.parent_proposal_id ""))
      || (lt_int (pos 0) d.causal_chain_depth && is_blank d.parent_proposal_id)
    then some chain_depth
    else none

abbrev pub repeats_id : Option String → String → Bool
repeats_id none id = false
repeats_id (some previous) id = str_eq id previous

-- The loop over the sorted evidence ids, with the one before.
unfoldable pub check_evidence_ids : Option String → List String → Option Refusal
unfolding is_blank bounded_string
check_evidence_ids previous [] = none
check_evidence_ids previous (id ∷ rest) =
    let later = check_evidence_ids (some id) rest in
    if is_blank id || not (bounded_string id max_identifier_bytes) || repeats_id previous id
    then some evidence_ids
    else later

unfoldable pub check_evidence : AgencyProposalDraft → Policy → Option Refusal
unfolding check_evidence_ids sort_by
check_evidence d policy =
    if length d.evidence_ids == 0 || lt_int policy.max_evidence (pos (length d.evidence_ids))
    then some evidence_bound
    else check_evidence_ids none (sort_by lt_str d.evidence_ids)

abbrev pub proposal_of : AgencyProposalDraft → Time → String → AgencyProposal
proposal_of d now capability = record {
  tau = none;
  id = d.id;
  tenant_id = d.tenant_id;
  session_id = d.session_id;
  action = d.action;
  reason = d.reason;
  evidence_ids = sort_by lt_str d.evidence_ids;
  expected_utility = d.expected_utility;
  priority = d.priority;
  required_capability = capability;
  not_before = d.not_before;
  scheduled_for = d.scheduled_for;
  expires_at = d.expires_at;
  idempotency_key = d.idempotency_key;
  causal_chain_id = d.causal_chain_id;
  parent_proposal_id = trim_space d.parent_proposal_id;
  causal_chain_depth = d.causal_chain_depth;
  created_at = now;
  contract_version = contract_version;
}

-- The first error of two tests.
abbrev pub then_check : Option Refusal → Option Refusal → Option Refusal
then_check none later = later
then_check (some e) later = some e

-- What follows the choice of the capability.
unfoldable pub build_with : AgencyProposalDraft → Time → Policy → Option String → Built
unfolding check_bounds check_schedule check_chain check_evidence
build_with d now policy none = refused unknown_action
build_with d now policy (some capability) =
    elim (then_check (check_bounds d now policy) (
      then_check (check_schedule d)
        (then_check (check_chain d policy) (check_evidence d policy)))) [
          | some e ↦ refused e
          | none ↦ built (proposal_of d now capability)
        ]

-- BuildProposal
unfoldable pub build_proposal : AgencyProposalDraft → Time → Policy → Built
unfolding valid trimmed check_ids capability_for build_with
build_proposal draft now policy =
    if not policy.enabled
    then refused disabled
    else if not (valid policy)
    then refused policy_invalid
    else elim (check_ids (trimmed draft)) [
      | some e ↦ refused e
      | none ↦ build_with (trimmed draft) now policy (capability_for draft.action)
    ]
