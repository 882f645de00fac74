-- ===== src/Memory/Events.antt =====
-- internal/store/memorystore/store.go: the ingestion of events and of compositions.
use Prim.Native.String.{slice, ◌++◌ as str_append}
pub mod Replay
pub mod Authority
use eventframed.Prelude.{
  String, len, Bool, true, false, not, ◌&&◌, ◌||◌, Option, none, some, List, [], leb, ◌==◌, str_eq,
  if◌then◌else◌, length, all, str_mem, is_some,
}
use eventframed.Prelude.Dict.{get, get2, put2}
use eventframed.Prelude.Float64.{Float64, zero_f}
use eventframed.Model.Snapshot.{Time, Snapshot, zero_time, after, eq_snapshot}
use eventframed.Model.Event.{Event, Composition}
use eventframed.Model.Certificate.{AntiPigeonCertificate}
use eventframed.Store.{
  Result, ok, err, idempotency_conflict, stale_snapshot, composition_authority, PutResult,
}
use eventframed.Memory.{Entry, Store, bump_evidence, bump_abstraction, record_ingest_motion}

-- The writes of `Put` for a new event.
unfoldable pub ingest : Store → Event → List Float64 → String → Store
unfolding bump_evidence record_ingest_motion
ingest s event vector digest =
    let snapshot = bump_evidence s.snapshot in
    record s {
      entries =
          put2 event.tenant_id event.id (record { event = event; vector = vector; digest = digest })
            s.entries;
      snapshot = snapshot;
      ingest_motion =
          record_ingest_motion s.ingest_motion snapshot.runtime_version event.available_at;
    }

-- What both puts do once the checks have passed: `new` is the state with the event written.
unfoldable pub put_checked : Store → Store → Option Entry → String → Store × Result PutResult
put_checked s new (some current) digest =
    if str_eq current.digest digest
    then (s, ok (record { duplicate = true; snapshot = s.snapshot }))
    else (s, err idempotency_conflict)
put_checked s new none digest = (new, ok (record { duplicate = false; snapshot = new.snapshot }))

-- Put
unfoldable pub put_event : Store → Event → List Float64 → String → Store × Result PutResult
unfolding put_checked
put_event s event vector digest =
    put_checked s (ingest s event vector digest) (get2 event.tenant_id event.id s.entries) digest

-- sameIDSet
unfoldable pub same_id_set : List String → List String → Bool
same_id_set left right = length left == length right && all (λ id. str_mem id left) right

abbrev zero_certificate : AntiPigeonCertificate
zero_certificate = record {
  id = "";
  tenant_id = "";
  member_event_ids = [];
  horizon_key = "";
  graph_version = 0;
  evidence_epoch = 0;
  target_diameter_ucb = zero_f;
  diameter_limit = zero_f;
  effective_support = zero_f;
  min_effective_support = zero_f;
  simultaneous_coverage = zero_f;
  procedure = "";
  issuer = "";
  external_audit = false;
  valid_until = zero_time;
}

abbrev found_certificate : Option AntiPigeonCertificate → AntiPigeonCertificate
found_certificate none = zero_certificate
found_certificate (some c) = c

-- `index[tenant][event] == id`, where a missing entry reads as ""
abbrev pub indexed_as : Option String → String → Bool
indexed_as none id = str_eq "" id
indexed_as (some current) id = str_eq current id

-- antiPigeonGroup
unfoldable pub anti_pigeon_group : Store → String → String → AntiPigeonCertificate × List String
anti_pigeon_group s tenant_id key =
    let certificate = found_certificate (get (slice key 3 (len key)) s.anti_pigeon_certificates) in
    if leb (len key) 3 || not (str_eq (slice key 0 3) "ap:")
    then (zero_certificate, [])
    else if not (str_eq certificate.tenant_id tenant_id)
    then (zero_certificate, [])
    else if all (λ id. indexed_as (get2 tenant_id id s.anti_pigeon_index) certificate.id)
        certificate.member_event_ids
    then (certificate, certificate.member_event_ids)
    else (zero_certificate, [])

-- The loop over the members of a composition.
abbrev pub available_member : Time → Option Entry → Bool
available_member available_at none = false
available_member available_at (some member) = not (after member.event.available_at available_at)

unfoldable pub composition_authorized : Store → Event → Composition → Bool
unfolding anti_pigeon_group same_id_set
composition_authorized s event composition =
    let (certificate, members) =
      anti_pigeon_group s event.tenant_id
        (str_append "ap:" composition.anti_pigeon_certificate_id) in
    str_eq certificate.id composition.anti_pigeon_certificate_id
    && same_id_set members composition.member_event_ids
    && is_some (get event.tenant_id s.entries)
    && all (λ id. available_member event.available_at (get2 event.tenant_id id s.entries))
        composition.member_event_ids

-- The writes of `PutComposition` for a new event.
unfoldable pub ingest_composition : Store → Event → List Float64 → String → Store
unfolding bump_abstraction record_ingest_motion
ingest_composition s event vector digest =
    let snapshot = bump_abstraction s.snapshot in
    record s {
      entries =
          put2 event.tenant_id event.id (record { event = event; vector = vector; digest = digest })
            s.entries;
      snapshot = snapshot;
      ingest_motion =
          record_ingest_motion s.ingest_motion snapshot.runtime_version event.available_at;
    }

unfoldable pub put_authorized :
    Store → Event → List Float64 → String → Option Composition → Store × Result PutResult
unfolding composition_authorized put_checked
put_authorized s event vector digest none = (s, err composition_authority)
put_authorized s event vector digest (some composition) =
    if composition_authorized s event composition
    then put_checked s (ingest_composition s event vector digest)
        (get2 event.tenant_id event.id s.entries) digest
    else (s, err composition_authority)

-- PutComposition
unfoldable pub put_composition :
    Store → Event → List Float64 → String → Snapshot → Store × Result PutResult
unfolding put_authorized eq_snapshot
put_composition s event vector digest base =
    if eq_snapshot s.snapshot base
    then put_authorized s event vector digest event.composition
    else (s, err stale_snapshot)
