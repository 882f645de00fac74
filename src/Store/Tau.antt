-- ===== src/Store/Tau.antt =====
-- internal/store/tau.go: uncertain executions, and the fences of forecast-bound proposals.
use eventframed.Prelude.{
  ℕ, ◌+◌, ◌-◌, ◌*◌, ◌%◌, max, String, Bool, true, false, not, ◌&&◌, ◌||◌, Option, none, some, List,
  [], ◌∷◌, ◌++◌, ltb, leb, ◌==◌, str_eq, if◌then◌else◌, length, all, str_mem,
}
use eventframed.Prelude.Word.{u64_mod}
use eventframed.Model.Snapshot.{Time, Snapshot, zero_time, before, after}
use eventframed.Model.Proposal.{
  TauTurnBinding, AgencyProposal, AgencyProposalRecord, ResolveAgencyProposalRequest, eq_status,
  pending, claimed, approved, uncertain,
}

-- The loop over the two handles; `none` is the error of the handle bound.
unfoldable pub add_refs : List String → List String → Option (List String)
add_refs refs [] = some refs
add_refs refs (ref ∷ rest) =
    let kept = add_refs refs rest in
    let grown = add_refs (refs ++ (ref ∷ [])) rest in
    if str_eq ref "" || str_mem ref refs then kept else if leb 32 (length refs) then none else grown

-- AgencyUncertainRecord
unfoldable pub agency_uncertain_record :
    AgencyProposalRecord → ResolveAgencyProposalRequest → Time → Option AgencyProposalRecord
unfolding add_refs
agency_uncertain_record r request now =
    elim (add_refs r.uncertain_execution_refs (r.execution_ref ∷ request.execution_ref ∷ [])) [
      | none ↦ none
      | some refs ↦ some (record r {
        status = uncertain;
        resolution_reason = request.reason;
        execution_ref = request.execution_ref;
        resolved_at = now;
        claimed_by = "";
        lease_until = zero_time;
        uncertain_execution_refs = refs;
      })
    ]

-- The loop that builds `seen` and fails at a repeated handle.
unfoldable pub distinct_from : List String → List String → Bool
distinct_from seen [] = true
distinct_from seen (ref ∷ rest) = not (str_mem ref seen) && distinct_from (ref ∷ seen) rest

-- TauCancellationMatches
unfoldable pub tau_cancellation_matches : AgencyProposalRecord → ResolveAgencyProposalRequest → Bool
unfolding distinct_from
tau_cancellation_matches r request =
    not (length r.uncertain_execution_refs == 0)
    && length request.cancelled_execution_refs == length r.uncertain_execution_refs
    && leb (length request.cancelled_execution_refs) 32
    && distinct_from [] request.cancelled_execution_refs
    && all (λ ref. str_mem ref request.cancelled_execution_refs) r.uncertain_execution_refs

pub record TauScope : Type 0 where
  pub tenant_id : String
  pub session_id : String
  pub target_kind : String

scope_of : Option TauTurnBinding → String → String → TauScope
scope_of none tenant session = record { tenant_id = ""; session_id = ""; target_kind = "" }
scope_of (some tau) tenant session = record {
  tenant_id = tenant;
  session_id = session;
  target_kind = tau.target_kind;
}

-- TauScopeOf
unfoldable pub tau_scope_of : AgencyProposal → TauScope
unfolding scope_of
tau_scope_of p = scope_of p.tau p.tenant_id p.session_id

unfoldable pub eq_scope : TauScope → TauScope → Bool
eq_scope a b =
    str_eq a.tenant_id b.tenant_id
    && str_eq a.session_id b.session_id
    && str_eq a.target_kind b.target_kind

-- TauSnapshotCompatible. The tests before them make the uint64 subtractions exact.
unfoldable pub tau_snapshot_compatible : Option TauTurnBinding → Snapshot → Bool
tau_snapshot_compatible none current = true
tau_snapshot_compatible (some tau) current =
    leb base.runtime_version current.runtime_version
    && leb base.agency_version current.agency_version
    && current.runtime_version - base.runtime_version
      == current.agency_version - base.agency_version
    && base.policy_version == current.policy_version
    && base.contract_version == current.contract_version
    && base.graph_version == current.graph_version
    && base.posterior_version == current.posterior_version
    && base.residual_version == current.residual_version
    && base.abstraction_version == current.abstraction_version
    && base.evidence_epoch == current.evidence_epoch
  where
    open tau use {base}

abbrev pub nanos_per_ms : ℕ
nanos_per_ms = 1000000

-- now.Before(resolvedAt.Add(time.Duration(ms) * time.Millisecond)); the product of int64 values
-- wraps, and a value from 2^63 on stands for a negative duration.
unfoldable pub cooling : ℕ → Time → Time → Bool
cooling ms resolved_at now =
    let nanos = (ms * nanos_per_ms) % u64_mod in
    if ltb nanos 9223372036854775808
    then before now (resolved_at + nanos)
    else before (now + (u64_mod - nanos)) resolved_at

blocked_by :
    Option TauTurnBinding
    → Option TauTurnBinding
    → AgencyProposalRecord
    → AgencyProposalRecord
    → Snapshot
    → Time
    → Bool
unfolding tau_snapshot_compatible cooling
blocked_by none _ incoming existing current now = false
blocked_by (some a) none incoming existing current now = false
blocked_by (some a) (some b) incoming existing current now =
    str_eq p.tenant_id q.tenant_id
    && str_eq p.session_id q.session_id
    && str_eq a.target_kind b.target_kind
    && (((eq_status existing.status pending || eq_status existing.status claimed)
          && after q.expires_at now
          && tau_snapshot_compatible (some b) current)
        || eq_status existing.status uncertain
        || (eq_status existing.status approved
            && cooling (max a.cooldown_ms b.cooldown_ms) existing.resolved_at now))
  where
    open incoming use {proposal as p}
    open existing use {proposal as q}

-- TauOpportunityBlocked
unfoldable pub tau_opportunity_blocked :
    AgencyProposalRecord → AgencyProposalRecord → Snapshot → Time → Bool
unfolding blocked_by
tau_opportunity_blocked incoming existing current now =
    blocked_by incoming.proposal.tau existing.proposal.tau incoming existing current now
