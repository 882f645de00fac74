-- ===== src/Tests/Samples.antt =====
-- Sample data for the tests.
use eventframed.Prelude.{String, true, false, Option, none, some, [], ◌∷◌}
use eventframed.Prelude.Float64.{zero_f, half_f, one_f}
use eventframed.Prelude.Int.{pos}
use eventframed.Model.Snapshot.{Time, Snapshot}
use eventframed.Model.Event.{Field, Event, source_observed}
use eventframed.Model.Proposal.{
  AgencyProposal, AgencyProposalRecord, AgencyProposalStatus, TauTurnBinding, schedule, pending,
  ResolveAgencyProposalRequest,
}
use eventframed.Model.Journal.{BayesianJournalEntry}
use eventframed.Memory.Retrieval.{FloatOps}

abbrev pub ops : FloatOps
ops = record { add = λ a b. a; mul = λ a b. a; div = λ a b. a; sqrt = λ a. a }

abbrev field : String → Field
field value = record { value = value; source = source_observed; confidence = one_f; evidence = "" }

-- An event of tenant "t" that is available at `at`.
abbrev pub event : String → Time → Event
event id at = record {
  id = id;
  tenant_id = "t";
  session_id = "s";
  sequence = 1;
  kind = "turn";
  content = "hello";
  occurred_at = at;
  observed_at = at;
  available_at = at;
  who = field "";
  what = field "greeting";
  where_field = field "";
  when = field "";
  why = field "";
  how = field "";
  priority = half_f;
  tags = [];
  provenance = record {
    producer = "test";
    source_event_ids = [];
    retrieved_ids = [];
    tool_call_id = "";
    run_id = "";
  };
  attributes = [];
  embedding = [];
  embedding_model = "";
  composition = none;
}

abbrev pub journal : String → Time → Snapshot → BayesianJournalEntry
journal id as_of snapshot = record {
  id = id;
  tenant_id = "t";
  session_id = "s";
  as_of = as_of;
  query_digest = "q";
  snapshot = snapshot;
  report = record {
    mode = "shadow";
    journal_id = id;
    journal_durable = true;
    nominated = 0;
    activated = 0;
    deep_reviewed = 0;
    selection_support_certified = false;
    omitted_influence_certified = false;
    residual_applied = 0;
    residual_shadow_eligible = 0;
    decisions = [];
  };
}

-- A forecast that was made on `base`.
abbrev pub tau : Snapshot → TauTurnBinding
tau base = record {
  request_digest = "r";
  forecast = record {
    base = base;
    id = "f";
    origin = 1;
    issued_at = 1;
    valid_until = 100;
    horizon_ms = 60000;
    points = [];
    no_event = one_f;
    tv_radius = zero_f;
  };
  decision = record {
    schedule = true;
    reason = "positive conservative turn utility";
    deliver_at = 10;
    latest_dispatch = 20;
    probability = half_f;
    lower_probability = half_f;
    lower_utility = half_f;
  };
  plan_id = "p";
  target_kind = "reply";
  forecast_id = "f";
  forecast_digest = "d";
  policy_digest = "pd";
  base = base;
  latest_dispatch = 20;
  lower_probability = half_f;
  lower_utility = half_f;
  cooldown_ms = 2000;
}

abbrev pub proposal : Option TauTurnBinding → String → AgencyProposal
proposal binding id = record {
  tau = binding;
  id = id;
  tenant_id = "t";
  session_id = "s";
  action = schedule;
  reason = "because";
  evidence_ids = "e1" ∷ [];
  expected_utility = half_f;
  priority = half_f;
  required_capability = "eventframe.agency.schedule";
  not_before = 10;
  scheduled_for = some 10;
  expires_at = 100;
  idempotency_key = id;
  causal_chain_id = id;
  parent_proposal_id = "";
  causal_chain_depth = pos 0;
  created_at = 5;
  contract_version = 17;
}

abbrev pub pending_record : AgencyProposal → AgencyProposalRecord
pending_record p = record {
  uncertain_execution_refs = [];
  proposal = p;
  signed = record { payload = ""; signature = ""; key_id = "" };
  status = pending;
  claimed_by = "";
  lease_until = 0;
  resolution_reason = "";
  execution_ref = "";
  resolved_at = 0;
}

abbrev pub resolution : AgencyProposalStatus → String → String → ResolveAgencyProposalRequest
resolution decision id consumer = record {
  cancelled_execution_refs = [];
  protocol_version = "v1";
  authority_token = "token";
  tenant_id = "t";
  proposal_id = id;
  consumer_id = consumer;
  decision = decision;
  reason = "authorized";
  execution_ref = "job-1";
}
