-- ===== src/Memory/Deletion.antt =====
-- internal/store/memorystore/store.go: deletion, retention and decomposition, with the rejection of
-- the proposals that rest on a deleted event.
use eventframed.Prelude.{
  ℕ, zero, suc, String, Bool, true, false, ◌&&◌, ◌||◌, Option, none, some, List, [], ◌∷◌,
  if◌then◌else◌, any, str_mem, is_some,
}
use eventframed.Prelude.Dict.{Dict, get, inner, get2, put2, remove2, map_values2, any_value}
use eventframed.Prelude.Sort.{sort_by, lt_str}
use eventframed.Prelude.Word.{inc}
use eventframed.Model.Snapshot.{Time, zero_time, before}
use eventframed.Model.Event.{Composition}
use eventframed.Model.Proposal.{AgencyProposalRecord, eq_status, pending, claimed, rejected}
use eventframed.Model.Certificate.{CompositionTombstone}
use eventframed.Store.{
  Result, ok, err, event_not_found, composition_authority, DeleteResult, CompositionDeleteResult,
  RetentionResult,
}
use eventframed.Memory.{Entry, Store, bump_abstraction, invalidate}

-- The test and the change that `cancelAgencyByEvidence` makes for one record.
unfoldable pub loses_evidence : List String → AgencyProposalRecord → Bool
loses_evidence deleted r =
    (eq_status r.status pending || eq_status r.status claimed)
    && any (λ id. str_mem id deleted) r.proposal.evidence_ids

unfoldable pub cancel_record : List String → Time → AgencyProposalRecord → AgencyProposalRecord
unfolding loses_evidence
cancel_record deleted now r =
    if loses_evidence deleted r
    then record r {
      status = rejected;
      claimed_by = "";
      lease_until = zero_time;
      resolution_reason = "supporting evidence was deleted";
      resolved_at = now;
    }
    else r

-- cancelAgencyByEvidence, with the count of the agency version that its callers make.
unfoldable pub cancel_agency_by_evidence : Store → String → List String → Time → Store
unfolding cancel_record any_value inner get
cancel_agency_by_evidence s tenant_id deleted now =
    let changed = any_value (loses_evidence deleted) (inner tenant_id s.agency_records) in
    let bumped = inc s.snapshot.agency_version in
    record s {
      agency_records = map_values2 tenant_id (cancel_record deleted now) s.agency_records;
      snapshot = record s.snapshot {
        agency_version = if changed then bumped else s.snapshot.agency_version;
      };
    }

-- Delete, at the wall-clock time `now`
unfoldable pub delete_event : Store → String → String → Time → Store × DeleteResult
unfolding cancel_agency_by_evidence invalidate
delete_event s tenant_id event_id now =
    let removed = record s { entries = remove2 tenant_id event_id s.entries } in
    let cancelled = cancel_agency_by_evidence removed tenant_id (event_id ∷ []) now in
    let done = record cancelled { snapshot = invalidate cancelled.snapshot } in
    if is_some (get2 tenant_id event_id s.entries)
    then (done, record { deleted = true; snapshot = done.snapshot })
    else (s, record { deleted = false; snapshot = s.snapshot })

unfoldable pub decompose :
    Store → String → String → String → Time → Composition → Store × Result CompositionDeleteResult
unfolding bump_abstraction
decompose s tenant_id event_id reason decomposed_at c =
    let tombstone : CompositionTombstone = record {
      tenant_id = tenant_id;
      event_id = event_id;
      member_event_ids = c.member_event_ids;
      anti_pigeon_certificate_id = c.anti_pigeon_certificate_id;
      reason = reason;
      decomposed_at = decomposed_at;
    } in
    let snapshot = bump_abstraction s.snapshot in
    (
      record s {
        composition_tombstones = put2 tenant_id event_id tombstone s.composition_tombstones;
        entries = remove2 tenant_id event_id s.entries;
        snapshot = snapshot;
      },
      ok (record { deleted = true; member_event_ids = c.member_event_ids; snapshot = snapshot }),
    )

unfoldable pub delete_item :
    Store → String → String → String → Time → Option Entry → Store × Result CompositionDeleteResult
unfolding decompose
delete_item s tenant_id event_id reason decomposed_at none =
    (s, ok (record { deleted = false; member_event_ids = []; snapshot = s.snapshot }))
delete_item s tenant_id event_id reason decomposed_at (some item) = elim item.event.composition [
  | none ↦ (s, err composition_authority)
  | some c ↦ decompose s tenant_id event_id reason decomposed_at c
]

-- DeleteComposition
unfoldable pub delete_composition :
    Store → String → String → String → Time → Store × Result CompositionDeleteResult
unfolding delete_item
delete_composition s tenant_id event_id reason decomposed_at =
    delete_item s tenant_id event_id reason decomposed_at (get2 tenant_id event_id s.entries)

abbrev or_event_missing {ℓ} : {A : Type ℓ} → Option A → Result A
or_event_missing none = err event_not_found
or_event_missing (some a) = ok a

-- GetCompositionTombstone
unfoldable pub get_composition_tombstone : Store → String → String → Result CompositionTombstone
get_composition_tombstone s tenant_id event_id =
    or_event_missing (get2 tenant_id event_id s.composition_tombstones)

-- The loop of `DeleteBefore`: the first `limit` entries of the map, in its order, that are older.
unfoldable pub expired_ids : Dict Entry → Time → ℕ → List String
expired_ids [] cutoff limit = []
expired_ids ((id, e) ∷ rest) cutoff zero = []
expired_ids ((id, e) ∷ rest) cutoff (suc room) =
    let chosen = id ∷ expired_ids rest cutoff room in
    let passed = expired_ids rest cutoff (suc room) in
    if before e.event.available_at cutoff then chosen else passed

unfoldable pub remove_all : String → List String → Dict (Dict Entry) → Dict (Dict Entry)
remove_all tenant_id [] d = d
remove_all tenant_id (id ∷ ids) d = remove_all tenant_id ids (remove2 tenant_id id d)

abbrev pub is_nil : List String → Bool
is_nil [] = true
is_nil (_ ∷ _) = false

-- DeleteBefore
unfoldable pub delete_before : Store → String → Time → ℕ → Time → Store × RetentionResult
unfolding cancel_agency_by_evidence invalidate expired_ids remove_all sort_by inner get
delete_before s tenant_id cutoff limit now =
    let ids = sort_by lt_str (expired_ids (inner tenant_id s.entries) cutoff limit) in
    let removed = record s { entries = remove_all tenant_id ids s.entries } in
    let cancelled = cancel_agency_by_evidence removed tenant_id ids now in
    let done = record cancelled { snapshot = invalidate cancelled.snapshot } in
    if is_nil ids
    then (s, record { deleted_ids = []; snapshot = s.snapshot })
    else (done, record { deleted_ids = ids; snapshot = done.snapshot })
