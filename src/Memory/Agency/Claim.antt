-- ===== src/Memory/Agency/Claim.antt =====
-- internal/store/memorystore/store.go: `ClaimAgencyProposals`.
use eventframed.Prelude.{
  ℕ, ◌+◌, String, Bool, true, false, not, ◌&&◌, ◌||◌, Option, none, some, List, [], ◌∷◌, ◌==◌,
  if◌then◌else◌, take,
}
use eventframed.Prelude.Dict.{Dict, get, inner, put2, map_values2, any_value}
use eventframed.Prelude.Float64.{lt_f, eq_f}
use eventframed.Prelude.Sort.{sort_by, lt_str}
use eventframed.Model.Snapshot.{Time, Duration, Snapshot, zero_time, before}
use eventframed.Model.Proposal.{
  TauTurnBinding, AgencyProposalStatus, AgencyProposalRecord, eq_status, pending, claimed, rejected,
  expired, uncertain,
}
use eventframed.Store.Tau.{TauScope, tau_scope_of, eq_scope, tau_snapshot_compatible}
use eventframed.Memory.{Store, bump_agency}

abbrev pub is_open : AgencyProposalRecord → Bool
is_open r = eq_status r.status pending || eq_status r.status claimed

abbrev pub has_tau : Option TauTurnBinding → Bool
has_tau none = false
has_tau (some _) = true

-- blocked[scope], after the first loop
unfoldable pub scope_blocked : Dict AgencyProposalRecord → TauScope → Bool
unfolding eq_scope tau_scope_of
scope_blocked records scope =
    any_value (λ r. eq_status r.status uncertain && eq_scope (tau_scope_of r.proposal) scope)
      records

-- What the second loop does with a record.
pub data Sweep : Type 0 where
  closes : AgencyProposalRecord → Sweep
  skips offers : Sweep

abbrev pub closed :
    AgencyProposalRecord → AgencyProposalStatus → String → Time → AgencyProposalRecord
closed r status reason now = record r {
  status = status;
  claimed_by = "";
  lease_until = zero_time;
  resolution_reason = reason;
  resolved_at = now;
}

unfoldable pub sweep : Bool → Snapshot → Time → AgencyProposalRecord → Sweep
sweep blocked current now r =
    if has_tau r.proposal.tau && blocked && is_open r
    then closes (closed r rejected "another execution for this tau target is unresolved" now)
    else if is_open r && not (tau_snapshot_compatible r.proposal.tau current)
    then closes (closed r rejected "tau forecast invalidated by state change" now)
    else if is_open r && not (before now r.proposal.expires_at)
    then closes (closed r expired "proposal expired before authorization" now)
    else if before now r.proposal.not_before
        || (not (eq_status r.status pending)
            && (not (eq_status r.status claimed) || before now r.lease_until))
    then skips
    else offers

unfoldable pub sweep_in : Dict AgencyProposalRecord → Snapshot → Time → AgencyProposalRecord → Sweep
unfolding sweep scope_blocked
sweep_in records current now r =
    sweep (scope_blocked records (tau_scope_of r.proposal)) current now r

abbrev pub swept : Sweep → AgencyProposalRecord → AgencyProposalRecord
swept (closes r') r = r'
swept skips r = r
swept offers r = r

abbrev pub is_offer : Sweep → Bool
is_offer offers = true
is_offer _ = false

abbrev pub is_close : Sweep → Bool
is_close (closes _) = true
is_close _ = false

-- The eligible records in the map's order.
unfoldable pub offered :
    (AgencyProposalRecord → Sweep) → Dict AgencyProposalRecord → List AgencyProposalRecord
offered sweeps [] = []
offered sweeps ((id, r) ∷ rest) =
    let later = offered sweeps rest in if is_offer (sweeps r) then r ∷ later else later

-- The order of the answer: priority down, then not-before, then id.
unfoldable pub claim_less : AgencyProposalRecord → AgencyProposalRecord → Bool
claim_less a b =
    if not (eq_f p.priority q.priority)
    then lt_f q.priority p.priority
    else if not (p.not_before == q.not_before)
    then before p.not_before q.not_before
    else lt_str p.id q.id
  where
    open a use {proposal as p}
    open b use {proposal as q}

abbrev pub lease_to : String → Time → AgencyProposalRecord → AgencyProposalRecord
lease_to consumer_id until r = record r {
  status = claimed;
  claimed_by = consumer_id;
  lease_until = until;
}

-- The last loop: each record of the answer is leased, in the map and in the answer.
unfoldable pub lease_all :
    String
    → String
    → Time
    → List AgencyProposalRecord
    → Dict (Dict AgencyProposalRecord)
    → Dict (Dict AgencyProposalRecord)
lease_all tenant_id consumer_id until [] d = d
lease_all tenant_id consumer_id until (r ∷ rs) d =
    lease_all tenant_id consumer_id until rs
      (put2 tenant_id r.proposal.id (lease_to consumer_id until r) d)

unfoldable pub lease_answer : String → Time → List AgencyProposalRecord → List AgencyProposalRecord
lease_answer consumer_id until [] = []
lease_answer consumer_id until (r ∷ rs) =
    lease_to consumer_id until r ∷ lease_answer consumer_id until rs

abbrev pub nonempty : List AgencyProposalRecord → Bool
nonempty [] = false
nonempty (_ ∷ _) = true

-- The records that a claim grants, best first.
unfoldable pub granted : Store → String → Time → ℕ → List AgencyProposalRecord
unfolding sweep_in offered claim_less sort_by inner get
granted s tenant_id now limit =
    let records = inner tenant_id s.agency_records in
    take limit (sort_by claim_less (offered (sweep_in records s.snapshot now) records))

-- ClaimAgencyProposals
unfoldable pub claim_agency_proposals :
    Store → String → String → Time → ℕ → Duration → Store × List AgencyProposalRecord
unfolding granted lease_all lease_answer bump_agency any_value
claim_agency_proposals s tenant_id consumer_id now limit lease =
    let records = inner tenant_id s.agency_records in
    let sweeps = sweep_in records s.snapshot now in
    let grants = granted s tenant_id now limit in
    let changed = any_value (λ r. is_close (sweeps r)) records || nonempty grants in
    (
      record s {
        agency_records =
            lease_all tenant_id consumer_id (now + lease) grants
              (map_values2 tenant_id (λ r. swept (sweeps r) r) s.agency_records);
        snapshot = if changed then bump_agency s.snapshot else s.snapshot;
      },
      lease_answer consumer_id (now + lease) grants,
    )
