-- ===== src/Memory/Certificates.antt =====
-- internal/store/memorystore/store.go: the policy digest and the certificates.
pub mod Groups
use eventframed.Prelude.{
  String, Bool, ◌&&◌, Option, none, some, List, [], ◌∷◌, ◌==◌, str_eq, if◌then◌else◌,
}
use eventframed.Prelude.Dict.{Dict, get, put, ensure, get2, put2, remove, remove2}
use eventframed.Model.Snapshot.{Snapshot}
use eventframed.Model.Certificate.{
  SelectionSupportCertificate, OmittedInfluenceCertificate, AntiPigeonCertificate,
}
use eventframed.Store.{Result, ok, err, stale_snapshot, certificate_not_found}
use eventframed.Memory.{Store, bump_runtime, bump_policy, bump_abstraction}

-- BindBayesianPolicy
unfoldable pub bind_bayesian_policy : Store → String → Store × Snapshot
unfolding bump_policy
bind_bayesian_policy s digest =
    let snapshot = bump_policy s.snapshot in
    if str_eq digest s.policy_digest
    then (s, s.snapshot)
    else (record s { policy_digest = digest; snapshot = snapshot }, snapshot)

abbrev or_not_found {ℓ} : {A : Type ℓ} → Option A → Result A
or_not_found none = err certificate_not_found
or_not_found (some a) = ok a

-- PublishSelectionCertificate
unfoldable pub publish_selection_certificate :
    Store → SelectionSupportCertificate → Store × Result Snapshot
unfolding bump_runtime
publish_selection_certificate s c =
    let snapshot = bump_runtime s.snapshot in
    if c.policy_version == s.snapshot.policy_version
      && c.evidence_epoch == s.snapshot.evidence_epoch
    then (
      record s {
        selection_certificates = put c.tenant_id c s.selection_certificates;
        snapshot = snapshot;
      },
      ok snapshot,
    )
    else (s, err stale_snapshot)

-- GetSelectionCertificate
unfoldable pub get_selection_certificate : Store → String → Result SelectionSupportCertificate
get_selection_certificate s tenant_id = or_not_found (get tenant_id s.selection_certificates)

-- PublishOmittedInfluenceCertificate
unfoldable pub publish_omitted_influence_certificate :
    Store → OmittedInfluenceCertificate → Store × Result Snapshot
unfolding bump_runtime
publish_omitted_influence_certificate s c =
    let snapshot = bump_runtime s.snapshot in
    if c.policy_version == s.snapshot.policy_version
      && c.evidence_epoch == s.snapshot.evidence_epoch
    then (
      record s {
        omitted_certificates = put c.tenant_id c s.omitted_certificates;
        snapshot = snapshot;
      },
      ok snapshot,
    )
    else (s, err stale_snapshot)

-- GetOmittedInfluenceCertificate
unfoldable pub get_omitted_influence_certificate :
    Store → String → Result OmittedInfluenceCertificate
get_omitted_influence_certificate s tenant_id = or_not_found (get tenant_id s.omitted_certificates)

-- The loop of `PublishAntiPigeonCertificate`: each member now belongs to this certificate.
unfoldable pub index_members :
    String → String → List String → Dict (Dict String) → Dict (Dict String)
index_members tenant_id id [] index = index
index_members tenant_id id (event_id ∷ rest) index =
    index_members tenant_id id rest (put2 tenant_id event_id id index)

-- PublishAntiPigeonCertificate
unfoldable pub publish_anti_pigeon_certificate :
    Store → AntiPigeonCertificate → Store × Result Snapshot
unfolding bump_abstraction index_members ensure
publish_anti_pigeon_certificate s c =
    let snapshot = bump_abstraction s.snapshot in
    if c.graph_version == s.snapshot.graph_version && c.evidence_epoch == s.snapshot.evidence_epoch
    then (
      record s {
        anti_pigeon_certificates = put c.id c s.anti_pigeon_certificates;
        anti_pigeon_index =
            index_members c.tenant_id c.id c.member_event_ids
              (ensure c.tenant_id s.anti_pigeon_index);
        snapshot = snapshot;
      },
      ok snapshot,
    )
    else (s, err stale_snapshot)

-- The loop of `GetAntiPigeonCertificate`: the one certificate of all the events, "" for none yet.
-- A missing index entry reads as "".
abbrev or_empty : Option String → String
or_empty none = ""
or_empty (some id) = id

unfoldable pub common_certificate : Store → String → String → List String → Option String
common_certificate s tenant_id id [] = some id
common_certificate s tenant_id id (event_id ∷ rest) =
    let current = or_empty (get2 tenant_id event_id s.anti_pigeon_index) in
    let later = common_certificate s tenant_id current rest in
    if str_eq current ""
    then none
    else if str_eq id ""
    then later
    else if str_eq current id
    then later
    else none

-- GetAntiPigeonCertificate
unfoldable pub get_anti_pigeon_certificate :
    Store → String → List String → Result AntiPigeonCertificate
unfolding common_certificate
get_anti_pigeon_certificate s tenant_id event_ids =
    elim (common_certificate s tenant_id "" event_ids) [
      | none ↦ err certificate_not_found
      | some id ↦ or_not_found (get id s.anti_pigeon_certificates)
    ]

-- The loop of `revokeAntiPigeon` over the members.
unfoldable pub unindex_members :
    String → String → List String → Dict (Dict String) → Dict (Dict String)
unindex_members tenant_id id [] index = index
unindex_members tenant_id id (event_id ∷ rest) index =
    let here : Bool = elim (get2 tenant_id event_id index) [
      | none ↦ str_eq "" id
      | some current ↦ str_eq current id
    ] in
    unindex_members tenant_id id rest (if here then remove2 tenant_id event_id index else index)

-- revokeAntiPigeon
unfoldable pub revoke_anti_pigeon : Store → AntiPigeonCertificate → Store
unfolding unindex_members
revoke_anti_pigeon s c = if str_eq c.id "" then s else record s {
  anti_pigeon_certificates = remove c.id s.anti_pigeon_certificates;
  anti_pigeon_index = unindex_members c.tenant_id c.id c.member_event_ids s.anti_pigeon_index;
}
