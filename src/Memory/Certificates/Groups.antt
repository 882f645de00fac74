-- ===== src/Memory/Certificates/Groups.antt =====
-- A published group certificate: its members find it, and lose it when it is revoked.
use eventframed.Prelude.{
  String, true, false, ◌&&◌, none, some, List, [], ◌∷◌, ◌≡◌, inl, inr, refl, ap, ◌==◌, ◌∙◌, arith,
  str_eq, eq_iff, eq_refl, all, str_mem-all, str_mem, Bool-cases,
}
use eventframed.Prelude.Dict.{Dict, get, get2, put2, ensure, get2-put2, get2-remove2, get-put_self}
use eventframed.Model.Snapshot.{Snapshot}
use eventframed.Model.Certificate.{AntiPigeonCertificate}
use eventframed.Store.{ok, err, certificate_not_found}
use eventframed.Memory.{Store}
use eventframed.Memory.Certificates.{
  index_members, publish_anti_pigeon_certificate, common_certificate, get_anti_pigeon_certificate,
  unindex_members, revoke_anti_pigeon,
}

index-stays :
    (t id e : String) (ms : List String) (index : Dict (Dict String))
    → get2 t e index ≡ some id
    → get2 t e (index_members t id ms index) ≡ some id
unfolding index_members
index-stays t id e [] index h = h
index-stays t id e (m ∷ ms) index h =
    index-stays t id e ms (put2 t m id index)
      (ground (arith, get2-put2 t m t e id index, eq_refl t))

index-members :
    (t id e : String) (ms : List String) (index : Dict (Dict String))
    → str_mem e ms ≡ true
    → get2 t e (index_members t id ms index) ≡ some id
unfolding index_members
index-members t id e [] index h = cc
index-members t id e (m ∷ ms) index h = elim (Bool-cases (str_eq m e)) [
  | inl same ↦
      index-stays t id e ms (put2 t m id index)
        (ground (arith, get2-put2 t m t e id index, eq_refl t))
  | inr differs ↦ index-members t id e ms (put2 t m id index) (ground arith)
]

-- Events that are all indexed under one certificate.
common-same :
    (s : Store) (t id : String) (es : List String)
    → str_eq id "" ≡ false
    → ((e : String) → str_mem e es ≡ true → get2 t e s.anti_pigeon_index ≡ some id)
    → common_certificate s t id es ≡ some id
unfolding common_certificate
common-same s t id [] named h = refl
common-same s t id (e ∷ es) named h =
    rw (h e (ground (arith, eq_refl e)), named, eq_refl id)
      (common-same s t id es named (λ x k. h x (ground arith)))

common-first :
    (s : Store) (t id e : String) (es : List String)
    → str_eq id "" ≡ false
    → ((x : String) → str_mem x (e ∷ es) ≡ true → get2 t x s.anti_pigeon_index ≡ some id)
    → common_certificate s t "" (e ∷ es) ≡ some id
unfolding common_certificate
common-first s t id e es named h =
    rw (h e (ground (arith, eq_refl e)), named)
      (common-same s t id es named (λ x k. h x (ground arith)))

unindex-stays :
    (t id e : String) (ms : List String) (index : Dict (Dict String))
    → get2 t e index ≡ none
    → get2 t e (unindex_members t id ms index) ≡ none
unfolding unindex_members
unindex-stays t id e [] index h = h
unindex-stays t id e (m ∷ ms) index h =
    unindex-stays t id e ms _ (ground (arith, get2-remove2 t m t e index))

unindex-members :
    (t id e : String) (ms : List String) (index : Dict (Dict String))
    → str_mem e ms ≡ true
    → get2 t e index ≡ some id
    → get2 t e (unindex_members t id ms index) ≡ none
unfolding unindex_members
unindex-members t id e [] index h k = cc
unindex-members t id e (m ∷ ms) index h k = elim (Bool-cases (str_eq m e)) [
  | inl same ↦ unindex-stays t id e ms _ (
      rw
        (
          ap (λ x. get2 t x index) ((eq_iff m e).0 same) ∙ k,
          eq_refl id,
          get2-remove2,
          eq_refl t,
          same,
        )
        refl)
  | inr differs ↦
      unindex-members t id e ms _ (ground arith)
        (ground (arith, get2-remove2 t m t e index, eq_iff m e))
]

-- A published certificate.
record Indexed (t : Store) (c : AntiPigeonCertificate) : Type 0 where
  kept : get c.id t.anti_pigeon_certificates ≡ some c
  members :
      (e : String)
      → str_mem e c.member_event_ids ≡ true
      → get2 c.tenant_id e t.anti_pigeon_index ≡ some c.id

publish-Indexed :
    (s : Store) (c : AntiPigeonCertificate) {v : Snapshot}
    → (publish_anti_pigeon_certificate s c).1 ≡ ok v
    → Indexed (publish_anti_pigeon_certificate s c).0 c
unfolding publish_anti_pigeon_certificate
publish-Indexed s c h =
    elim (Bool-cases (
      c.graph_version == s.snapshot.graph_version
      && c.evidence_epoch == s.snapshot.evidence_epoch)) [
        | inl current ↦ rw current (record {
          kept = get-put_self c.id c s.anti_pigeon_certificates;
          members = λ e member.
              index-members c.tenant_id c.id e c.member_event_ids
                (ensure c.tenant_id s.anti_pigeon_index) member;
        })
        | inr stale ↦ absurd (ground arith)
      ]

get-found :
    (t : Store) (tenant id : String) (es : List String) (c : AntiPigeonCertificate)
    → common_certificate t tenant "" es ≡ some id
    → get id t.anti_pigeon_certificates ≡ some c
    → get_anti_pigeon_certificate t tenant es ≡ ok c
unfolding get_anti_pigeon_certificate
get-found t tenant id es c e f = rw (get_anti_pigeon_certificate, e, f) refl

get-lost :
    (t : Store) (tenant e : String) (es : List String)
    → get2 tenant e t.anti_pigeon_index ≡ none
    → get_anti_pigeon_certificate t tenant (e ∷ es) ≡ err certificate_not_found
unfolding get_anti_pigeon_certificate common_certificate
get-lost t tenant e es h = rw (get_anti_pigeon_certificate, common_certificate, h) refl

revoke-index :
    (t : Store) (c : AntiPigeonCertificate) (e : String)
    → str_eq c.id "" ≡ false
    → str_mem e c.member_event_ids ≡ true
    → get2 c.tenant_id e t.anti_pigeon_index ≡ some c.id
    → get2 c.tenant_id e (revoke_anti_pigeon t c).anti_pigeon_index ≡ none
unfolding revoke_anti_pigeon
revoke-index t c e named member h =
    rw named (unindex-members c.tenant_id c.id e c.member_event_ids t.anti_pigeon_index member h)

-- Once a certificate with an id has been published, any choice of its members, at least one, finds
-- exactly this certificate.
pub publish-get_anti_pigeon_certificate :
    (s : Store) (c : AntiPigeonCertificate) {v : Snapshot} (e : String) (es : List String)
    → (publish_anti_pigeon_certificate s c).1 ≡ ok v
    → str_eq c.id "" ≡ false
    → all (λ x. str_mem x c.member_event_ids) (e ∷ es) ≡ true
    → get_anti_pigeon_certificate (publish_anti_pigeon_certificate s c).0 c.tenant_id (e ∷ es)
      ≡ ok c
publish-get_anti_pigeon_certificate s c e es h named members =
    let t = (publish_anti_pigeon_certificate s c).0 in
    let published = publish-Indexed s c h in
    get-found t c.tenant_id c.id (e ∷ es) c
      (common-first t c.tenant_id c.id e es named
        (λ x k. published.members x (str_mem-all x (e ∷ es) c.member_event_ids members k)))
      published.kept

-- Once a published certificate has been revoked, no list of events that starts with a member of it
-- finds a certificate.
pub revoke-get_anti_pigeon_certificate :
    (s : Store) (c : AntiPigeonCertificate) {v : Snapshot} (e : String) (es : List String)
    → (publish_anti_pigeon_certificate s c).1 ≡ ok v
    → str_eq c.id "" ≡ false
    → str_mem e c.member_event_ids ≡ true
    → get_anti_pigeon_certificate
        (revoke_anti_pigeon (publish_anti_pigeon_certificate s c).0 c)
        c.tenant_id
        (e ∷ es)
      ≡ err certificate_not_found
revoke-get_anti_pigeon_certificate s c e es h named member =
    let t = (publish_anti_pigeon_certificate s c).0 in
    let published = publish-Indexed s c h in
    get-lost (revoke_anti_pigeon t c) c.tenant_id e es
      (revoke-index t c e named member (published.members e member))
