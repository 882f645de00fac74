-- ===== src/Tests/Proposals.antt =====
-- The agency queue.
use eventframed.Prelude.{◌≡◌, refl, some, ◌⊎◌}
use eventframed.Prelude.Dict.{get, get2, inner, put, put2, count_values, map_values2, map_values}
use eventframed.Model.Proposal.{AgencyProposalRecord, approved}
use eventframed.Store.Tau.{tau_snapshot_compatible}
use eventframed.Memory.{Store}
use eventframed.Memory.Events.{ingest}
use eventframed.Memory.Agency.{put_agency_proposal, admission}
use eventframed.Memory.Agency.Claim.{claim_agency_proposals, lease_to}
use eventframed.Memory.Agency.Resolve.{resolve_agency_proposal, outcome}
use eventframed.Memory.Agency.Approval.{Held, blocked_in, resolve_approves}
use eventframed.Memory.Agency.Admission.{Taken, put_agency_proposal-Taken}
use eventframed.Tests.Samples.{tau, proposal, pending_record, resolution}
use eventframed.Tests.Histories.{seeded}

-- A proposal that rests on a forecast over `seeded`.
abbrev offer : AgencyProposalRecord
offer = pending_record (proposal (some (tau seeded.snapshot)) "p1")

abbrev queued : Store
queued = (put_agency_proposal seeded offer "pd" 8 100 9).0

abbrev leased : Store
leased = (claim_agency_proposals queued "t" "c" 12 5 30).0

put_agency_proposal-Taken_example : Taken seeded queued offer 8 100 9
unfolding ingest put_agency_proposal get2 get put2 put tau_snapshot_compatible admission
    count_values inner
put_agency_proposal-Taken_example = put_agency_proposal-Taken seeded offer "pd" 8 100 9 refl refl

resolve_approves_example :
    (lease_to "c" 42 offer).status ≡ approved
    ⊎ Held
        (blocked_in leased "t" (lease_to "c" 42 offer))
        leased.snapshot
        (lease_to "c" 42 offer)
        (resolution approved "p1" "c")
        15
unfolding ingest put_agency_proposal get2 get put2 put tau_snapshot_compatible admission
    count_values inner claim_agency_proposals resolve_agency_proposal map_values2 map_values outcome
resolve_approves_example = resolve_approves leased (resolution approved "p1" "c") 15 refl refl refl
