-- ===== src/Model/Event.antt =====
-- internal/model/event.go: events with their 5W1H fields, and the composition of higher-order
-- events. Attributes (a map of strings) are a list of pairs.
pub mod Validate
pub mod Members
use eventframed.Prelude.{ℕ, String, Option, List}
use eventframed.Prelude.Dict.{Dict}
use eventframed.Prelude.Float64.{Float64}
use eventframed.Model.Snapshot.{Time}

pub record Field : Type 0 where
  pub value : String
  pub source : String
  pub confidence : Float64
  pub evidence : String

pub record Provenance : Type 0 where
  pub producer : String
  pub source_event_ids : List String
  pub retrieved_ids : List String
  pub tool_call_id : String
  pub run_id : String

pub record Composition : Type 0 where
  pub member_event_ids : List String
  pub representative_event_id : String
  pub rule_id : String
  pub resolution : String
  pub confidence : Float64
  pub anti_pigeon_certificate_id : String
  pub evidence_epoch : ℕ

pub record Event : Type 0 where
  pub id : String
  pub tenant_id : String
  pub session_id : String
  pub sequence : ℕ
  pub kind : String
  pub content : String
  pub occurred_at : Time
  pub observed_at : Time
  pub available_at : Time
  pub who : Field
  pub what : Field
  pub where_field : Field
  pub when : Field
  pub why : Field
  pub how : Field
  pub priority : Float64
  pub tags : List String
  pub provenance : Provenance
  pub attributes : Dict String
  pub embedding : List Float64
  pub embedding_model : String
  pub composition : Option Composition

abbrev pub source_observed : String
source_observed = "observed"

abbrev pub source_inferred : String
source_inferred = "inferred"

abbrev pub source_synthetic : String
source_synthetic = "synthetic"

abbrev pub higher_order_event_kind : String
higher_order_event_kind = "higher_order"
