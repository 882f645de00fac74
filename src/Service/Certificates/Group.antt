-- ===== src/Service/Certificates/Group.antt =====
-- What an accepted group certificate is like.
use eventframed.Prelude.{
  ◌≤◌, String, true, false, not, none, List, [], ◌∷◌, ◌≡◌, inl, inr, refl, arith, str_mem, length,
  all, Option-cases,
}
use eventframed.Prelude.Distinct.{distinct, apart, apart-distinct}
use eventframed.Prelude.Text.{is_blank, is_blank-filled}
use eventframed.Model.Certificate.{AntiPigeonCertificate}
use eventframed.Model.Snapshot.{Time, Snapshot}
use eventframed.Store.{ok}
use eventframed.Memory.{Store}
use eventframed.Memory.Certificates.{publish_anti_pigeon_certificate, get_anti_pigeon_certificate}
use eventframed.Memory.Certificates.Groups.{publish-get_anti_pigeon_certificate}
use eventframed.Service.{replied, check_protocol, then_test, then_test-none}
use eventframed.Service.Certificates.{
  check_group_members, check_group_head, validate_anti_pigeon_certificate, request_anti_pigeon,
}
use eventframed.Service.Certificates.Active.{published-ok}

check_group_members-apart :
    (seen ids : List String)
    → check_group_members seen ids ≡ none
    → (apart seen ids ≡ true) × (all (λ id. not (is_blank id)) ids ≡ true)
unfolding check_group_members
check_group_members-apart seen [] h = (refl, refl)
check_group_members-apart seen (id ∷ ids) h =
    let (once, filled) = check_group_members-apart (id ∷ seen) ids (ground arith) in
    (ground arith, ground arith)

-- A group certificate that the store has taken.
pub record Grouped (at_publish t : Store) (c : AntiPigeonCertificate) : Type 0 where
  pub many : 2 ≤ length c.member_event_ids
  pub once : distinct c.member_event_ids ≡ true
  pub filled : all (λ id. not (is_blank id)) c.member_event_ids ≡ true
  pub audited : c.external_audit ≡ true
  pub graph : c.graph_version ≡ at_publish.snapshot.graph_version
  pub epoch : c.evidence_epoch ≡ at_publish.snapshot.evidence_epoch
  pub found :
      (e : String) (es : List String)
      → all (λ x. str_mem x c.member_event_ids) (e ∷ es) ≡ true
      → get_anti_pigeon_certificate t c.tenant_id (e ∷ es) ≡ ok c

head_passes :
    (c : AntiPigeonCertificate) (snapshot : Snapshot)
    → check_group_head c snapshot ≡ none
    → (is_blank c.id ≡ false) × (c.external_audit ≡ true) × (2 ≤ length c.member_event_ids)
unfolding check_group_head
head_passes c snapshot h = (ground arith, ground arith, ground arith)

publish-bound :
    (s : Store) (c : AntiPigeonCertificate) {next : Snapshot}
    → (publish_anti_pigeon_certificate s c).1 ≡ ok next
    → (c.graph_version ≡ s.snapshot.graph_version) × (c.evidence_epoch ≡ s.snapshot.evidence_epoch)
unfolding publish_anti_pigeon_certificate
publish-bound s c h = (ground arith, ground arith)

-- A group certificate that the service has accepted comes from an external audit and has at least two
-- members, none blank and none twice; it names the graph version and the evidence epoch that the
-- store had at the publication, whatever came since the snapshot; and any choice of its members, at
-- least one, finds exactly this certificate afterwards.
pub request_anti_pigeon-Grouped :
    (at_snapshot at_publish : Store) (now : Time) (version : String) (c : AntiPigeonCertificate)
    {a : String × Snapshot}
    → (request_anti_pigeon at_snapshot at_publish now version c).1 ≡ replied a
    → Grouped at_publish (request_anti_pigeon at_snapshot at_publish now version c).0 c
unfolding request_anti_pigeon validate_anti_pigeon_certificate
request_anti_pigeon-Grouped at_snapshot at_publish now version c {a} h =
    elim (Option-cases (
      then_test (check_protocol version)
        (validate_anti_pigeon_certificate c at_snapshot.snapshot now))) [
          | inr (x, e) ↦ absurd (ground arith)
          | inl e ↦
              let (_, valid) = then_test-none (check_protocol version) _ e in
              let (head, rest) = then_test-none (check_group_head c at_snapshot.snapshot) _ valid in
              let (members, _) =
                then_test-none (check_group_members [] c.member_event_ids) _ rest in
              let (named, audited, many) = head_passes c at_snapshot.snapshot head in
              let (once, filled) = check_group_members-apart [] c.member_event_ids members in
              let (next, accepted, state) =
                published-ok c.id (publish_anti_pigeon_certificate at_publish c) {a = a}
                  (rw (e, request_anti_pigeon) at h) in
              let (graph, epoch) = publish-bound at_publish c accepted in
              record {
                many = many;
                once = apart-distinct [] c.member_event_ids once;
                filled = filled;
                audited = audited;
                graph = graph;
                epoch = epoch;
                found = λ f fs chosen.
                    rw (e, request_anti_pigeon, state)
                      (publish-get_anti_pigeon_certificate at_publish c f fs accepted
                        (is_blank-filled c.id named) chosen);
              }
        ]
