-- ===== src/Model/Event/Validate.antt =====
-- internal/model/event.go: `Validate` of fields, compositions and events. The loop over the six
-- fields is over a Go map, in any order: which of several field errors is reported is not fixed by
-- the source, and here it is the first in the order of the fields.
use eventframed.Prelude.{
  ℕ, String, not, ◌&&◌, ◌||◌, Option, none, some, List, [], ◌∷◌, len, ltb, ◌==◌, str_eq,
  if◌then◌else◌, length, str_mem,
}
use eventframed.Prelude.Float64.{is_nan, is_inf, lt_f, zero_f, one_f}
use eventframed.Prelude.Text.{is_blank}
use eventframed.Model.Snapshot.{zero_time, before}
use eventframed.Model.Event.{
  Field, Composition, Event, source_observed, source_inferred, source_synthetic,
  higher_order_event_kind,
}

-- The errors of the source, one for each message.
pub data Invalid : Type 0 where
  id_required tenant_required session_required kind_required content_required producer_required
        times_required observed_before_occurred available_before_observed priority_range
        embedding_dimension embedding_model_required confidence_range unknown_source source_required
        field_bound what_required composition_required composition_reserved member_count
        composition_ids_required member_id duplicate_member representative source_ids
        duplicate_source :
      Invalid

abbrev pub max_semantic_field_bytes : ℕ
max_semantic_field_bytes = 2048

abbrev pub max_field_evidence_bytes : ℕ
max_field_evidence_bytes = 1024

-- Field.Validate; `none` is the nil error.
unfoldable pub validate_field : Field → Option Invalid
unfolding is_blank
validate_field f =
    if lt_f f.confidence zero_f || lt_f one_f f.confidence
    then some confidence_range
    else if not (str_eq f.source "")
        && not (str_eq f.source source_observed)
        && not (str_eq f.source source_inferred)
        && not (str_eq f.source source_synthetic)
    then some unknown_source
    else if not (is_blank f.value) && str_eq f.source ""
    then some source_required
    else if ltb max_semantic_field_bytes (len f.value)
        || ltb max_field_evidence_bytes (len f.evidence)
    then some field_bound
    else none

unfoldable pub validate_fields : List Field → Option Invalid
unfolding validate_field
validate_fields [] = none
validate_fields (f ∷ fs) =
    let rest = validate_fields fs in elim (validate_field f) [ none ↦ rest | some e ↦ some e ]

-- The loop over the members; `seen` is the set that it builds.
unfoldable pub check_members : String → List String → List String → Option Invalid
unfolding is_blank
check_members event_id seen [] = none
check_members event_id seen (member ∷ rest) =
    let later = check_members event_id (member ∷ seen) rest in
    if is_blank member || str_eq member event_id
    then some member_id
    else if str_mem member seen
    then some duplicate_member
    else later

-- The loop over the source ids.
unfoldable pub check_sources : List String → List String → List String → Option Invalid
check_sources members seen [] = none
check_sources members seen (source ∷ rest) =
    let later = check_sources members (source ∷ seen) rest in
    if not (str_mem source members)
    then some source_ids
    else if str_mem source seen
    then some duplicate_source
    else later

-- The part of Composition.Validate behind the loop over the members, whose set has as many elements
-- as there are members, since none is twice among them.
unfoldable pub validate_sources : Composition → List String → Option Invalid
unfolding check_sources
validate_sources c sources =
    if not (str_mem c.representative_event_id c.member_event_ids)
    then some representative
    else if not (length sources == length c.member_event_ids)
    then some source_ids
    else check_sources c.member_event_ids [] sources

-- Composition.Validate
unfoldable pub validate_composition : Composition → String → List String → Option Invalid
unfolding check_members validate_sources is_blank
validate_composition c event_id sources =
    if ltb (length c.member_event_ids) 2 || ltb 64 (length c.member_event_ids)
    then some member_count
    else if is_blank c.representative_event_id
        || is_blank c.rule_id
        || is_blank c.resolution
        || is_blank c.anti_pigeon_certificate_id
    then some composition_ids_required
    else if is_nan c.confidence
        || is_inf c.confidence
        || lt_f c.confidence zero_f
        || lt_f one_f c.confidence
    then some confidence_range
    else elim (check_members event_id [] c.member_event_ids) [
      | none ↦ validate_sources c sources
      | some e ↦ some e
    ]

-- The last part of Event.Validate.
unfoldable pub validate_kind : Event → Option Composition → Option Invalid
unfolding validate_composition
validate_kind e none =
    if str_eq e.kind higher_order_event_kind then some composition_required else none
validate_kind e (some c) =
    if not (str_eq e.kind higher_order_event_kind)
    then some composition_reserved
    else validate_composition c e.id e.provenance.source_event_ids

-- The part of Event.Validate before the loop over the fields.
unfoldable pub validate_header : Event → ℕ → Option Invalid
unfolding is_blank
validate_header e dimension =
    if is_blank e.id
    then some id_required
    else if is_blank e.tenant_id
    then some tenant_required
    else if is_blank e.session_id
    then some session_required
    else if is_blank e.kind
    then some kind_required
    else if is_blank e.content
    then some content_required
    else if is_blank e.provenance.producer
    then some producer_required
    else if e.occurred_at == zero_time || e.observed_at == zero_time || e.available_at == zero_time
    then some times_required
    else if before e.observed_at e.occurred_at
    then some observed_before_occurred
    else if before e.available_at e.observed_at
    then some available_before_observed
    else if lt_f e.priority zero_f || lt_f one_f e.priority
    then some priority_range
    else if not (length e.embedding == 0) && not (length e.embedding == dimension)
    then some embedding_dimension
    else if not (length e.embedding == 0) && is_blank e.embedding_model
    then some embedding_model_required
    else none

-- The loop over the fields, and the rest.
unfoldable pub validate_body : Event → Option Invalid
unfolding validate_fields validate_kind is_blank
validate_body e =
    elim (validate_fields (e.who ∷ e.what ∷ e.where_field ∷ e.when ∷ e.why ∷ e.how ∷ [])) [
      | some invalid ↦ some invalid
      | none ↦ if is_blank e.what.value then some what_required else validate_kind e e.composition
    ]

-- Event.Validate
unfoldable pub validate_event : Event → ℕ → Option Invalid
unfolding validate_header validate_body
validate_event e dimension = elim (validate_header e dimension) [
  | some invalid ↦ some invalid
  | none ↦ validate_body e
]
