-- ===== src/Tests/Contracts.antt =====
-- Validated events and built proposals.
use eventframed.Prelude.{◌≡◌, refl, [], ◌∷◌, some, true}
use eventframed.Prelude.Float64.{half_f, one_f}
use eventframed.Prelude.Int.{pos}
use eventframed.Model.Event.{Composition, Event, higher_order_event_kind}
use eventframed.Model.Event.Validate.{validate_event}
use eventframed.Model.Event.Members.{Composed, validate_event-Composed}
use eventframed.Model.Proposal.{AgencyProposalDraft, AgencyProposal, schedule}
use eventframed.Agency.{default_policy, valid}
use eventframed.Agency.Build.{built, refused, ids_required, proposal_of, build_proposal}
use eventframed.Agency.Bounds.{Bounded, build_proposal-Bounded}
use eventframed.Prelude.Dict.{get, get2, put, put2}
use eventframed.Model.Snapshot.{eq_snapshot}
use eventframed.Memory.{Store, new}
use eventframed.Memory.Events.{put_event, put_composition, ingest}
use eventframed.Memory.Events.Authority.{Authorized, put_composition-Authorized}
use eventframed.Memory.Certificates.{publish_anti_pigeon_certificate}
use eventframed.Tests.Records.{group}
use eventframed.Tests.Samples.{event}

abbrev pair : Composition
pair = record {
  member_event_ids = "e1" ∷ "e2" ∷ [];
  representative_event_id = "e1";
  rule_id = "rule";
  resolution = "coarse";
  confidence = half_f;
  anti_pigeon_certificate_id = "g";
  evidence_epoch = 2;
}

abbrev composite : Event
composite = record (event "m" 9) {
  kind = higher_order_event_kind;
  provenance = record {
    producer = "composer";
    source_event_ids = "e2" ∷ "e1" ∷ [];
    retrieved_ids = [];
    tool_call_id = "";
    run_id = "";
  };
  composition = some pair;
}

validate_event-Composed_example : Composed pair "m" ("e2" ∷ "e1" ∷ [])
unfolding validate_event
validate_event-Composed_example = validate_event-Composed composite 8 pair refl refl

default_policy_test : valid (default_policy true) ≡ true
unfolding valid default_policy
default_policy_test = refl

abbrev draft : AgencyProposalDraft
draft = record {
  id = " p1 ";
  tenant_id = "t";
  session_id = "s";
  action = schedule;
  reason = "because";
  evidence_ids = "e2" ∷ "e1" ∷ [];
  expected_utility = half_f;
  priority = one_f;
  not_before = 10;
  scheduled_for = some 20;
  expires_at = 100;
  idempotency_key = "p1";
  causal_chain_id = "chain";
  parent_proposal_id = "";
  causal_chain_depth = pos 0;
}

abbrev proposed : AgencyProposal
proposed = record (proposal_of draft 5 "eventframe.agency.schedule") { id = "p1" }

build_test : build_proposal draft 5 (default_policy true) ≡ built proposed
unfolding build_proposal default_policy
build_test = refl

refusal_test :
    build_proposal (record draft { idempotency_key = "p2" }) 5 (default_policy true)
    ≡ refused ids_required
unfolding build_proposal default_policy
refusal_test = refl

build_proposal-Bounded_example : Bounded draft 5 (default_policy true) proposed
unfolding build_proposal default_policy
build_proposal-Bounded_example = build_proposal-Bounded draft 5 (default_policy true) refl

-- Two events and a certificate of the pair.
abbrev grouped : Store
grouped =
    (publish_anti_pigeon_certificate
      (put_event (put_event new (event "e1" 5) [] "d1").0 (event "e2" 6) [] "d2").0
      (record group { evidence_epoch = 2 })).0

put_composition-Authorized_example :
    (eq_snapshot grouped.snapshot grouped.snapshot ≡ true) × Authorized grouped composite pair
unfolding put_composition publish_anti_pigeon_certificate put_event get2 get put2 put ingest
put_composition-Authorized_example =
    put_composition-Authorized grouped composite [] "dm" grouped.snapshot pair refl refl refl
