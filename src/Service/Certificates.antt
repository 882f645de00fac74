-- ===== src/Service/Certificates.antt =====
-- internal/service/service.go: the validation of the certificates and the handlers that publish them.
-- A handler reads the snapshot and then publishes, in two calls of the store.
pub mod Active
pub mod Group
use eventframed.Prelude.{
  ℕ, String, Bool, true, false, not, ◌&&◌, ◌||◌, Option, none, some, List, [], ◌∷◌, ◌==◌, str_eq,
  str_mem, length, ltb, if◌then◌else◌,
}
use eventframed.Prelude.Equal.{◌===◌, bool_equal}
use eventframed.Prelude.Float64.{Float64, lt_f, le_f, zero_f}
use eventframed.Prelude.Text.{is_blank}
use eventframed.Model.Certificate.{
  SelectionSupportCertificate, OmittedInfluenceCertificate, AntiPigeonCertificate,
}
use eventframed.Model.Snapshot.{Time, Snapshot, zero_time, before}
use eventframed.Store.{Result, ok, err}
use eventframed.Memory.{Store}
use eventframed.Memory.Certificates.{
  publish_selection_certificate, publish_anti_pigeon_certificate,
  publish_omitted_influence_certificate,
}
use eventframed.Service.{
  ServiceError, message, stored, Reply, replied, failed, check_protocol, unit_open,
  finite_nonnegative, then_test,
}

abbrev pub none_error : Option ServiceError → Bool
none_error none = true
none_error (some _) = false

-- The tests of validateSelectionCertificate, one for each error, true where it fails.
unfoldable pub selection_unnamed : SelectionSupportCertificate → Bool
unfolding is_blank
selection_unnamed c =
    is_blank c.id || is_blank c.tenant_id || is_blank c.issuer || is_blank c.procedure

unfoldable pub selection_stale : SelectionSupportCertificate → Snapshot → Bool
selection_stale c snapshot =
    not (c.policy_version == snapshot.policy_version)
    || not (c.evidence_epoch == snapshot.evidence_epoch)

unfoldable pub selection_improbable : SelectionSupportCertificate → Bool
unfolding unit_open
selection_improbable c =
    not (unit_open c.min_selection_probability) || not (unit_open c.simultaneous_coverage)

unfoldable pub selection_closed : SelectionSupportCertificate → Time → Bool
selection_closed c now =
    c.valid_from == zero_time
    || c.valid_until == zero_time
    || before c.valid_until c.valid_from
    || before now c.valid_from
    || not (before now c.valid_until)

-- validateSelectionCertificate
unfoldable pub validate_selection_certificate :
    SelectionSupportCertificate → Snapshot → Time → Option ServiceError
unfolding selection_unnamed selection_stale selection_improbable selection_closed
validate_selection_certificate c snapshot now =
    if selection_unnamed c
    then some (message "selection certificate id, tenant_id, issuer, and procedure are required")
    else if not c.external_audit
    then some (message "selection certificate must be issued by an external audit")
    else if selection_stale c snapshot
    then some (message "selection certificate does not bind the current policy and evidence epoch")
    else if selection_improbable c
    then some
        (message "selection probability and simultaneous coverage must be finite values in (0,1]")
    else if selection_closed c now
    then some (message "selection certificate validity window must contain the current time")
    else none

-- selectionCertificateActive
unfoldable pub selection_certificate_active : SelectionSupportCertificate → Snapshot → Time → Bool
unfolding validate_selection_certificate
selection_certificate_active c snapshot now =
    none_error (validate_selection_certificate c snapshot now)

-- The loop over the members of a group.
unfoldable pub check_group_members : List String → List String → Option ServiceError
unfolding is_blank
check_group_members seen [] = none
check_group_members seen (id ∷ rest) =
    let later = check_group_members (id ∷ seen) rest in
    if is_blank id
    then some (message "Anti-Pigeon member event ids cannot be empty")
    else if str_mem id seen
    then some (message "Anti-Pigeon member event ids must be unique")
    else later

-- The tests after the one of the members.
unfoldable pub check_group_bounds : AntiPigeonCertificate → Time → Option ServiceError
unfolding finite_nonnegative unit_open
check_group_bounds c now =
    if not (finite_nonnegative c.target_diameter_ucb)
      || not (finite_nonnegative c.diameter_limit)
      || lt_f c.diameter_limit c.target_diameter_ucb
    then some
        (message "Anti-Pigeon target diameter UCB must be finite and within its declared limit")
    else if not (finite_nonnegative c.effective_support)
        || not (finite_nonnegative c.min_effective_support)
        || lt_f c.effective_support c.min_effective_support
        || le_f c.min_effective_support zero_f
    then some (message "Anti-Pigeon effective support must meet a positive declared minimum")
    else if not (unit_open c.simultaneous_coverage)
        || c.valid_until == zero_time
        || not (before now c.valid_until)
    then some
        (message "Anti-Pigeon coverage must be in (0,1] and the certificate must be unexpired")
    else none

unfoldable pub check_group_head : AntiPigeonCertificate → Snapshot → Option ServiceError
unfolding is_blank
check_group_head c snapshot =
    if is_blank c.id
      || is_blank c.tenant_id
      || is_blank c.horizon_key
      || is_blank c.issuer
      || is_blank c.procedure
    then some (
        message
          "Anti-Pigeon certificate id, tenant_id, horizon_key, issuer, and procedure are required")
    else if not (str_eq c.horizon_key "retrieval-usefulness-v1")
    then some (message "Anti-Pigeon certificate horizon_key must be retrieval-usefulness-v1")
    else if not c.external_audit
    then some (message "Anti-Pigeon certificate must be issued by an external audit")
    else if not (c.graph_version == snapshot.graph_version)
        || not (c.evidence_epoch == snapshot.evidence_epoch)
    then some (message "Anti-Pigeon certificate does not bind the current graph and evidence epoch")
    else if ltb (length c.member_event_ids) 2
    then some (message "Anti-Pigeon certificate requires at least two members")
    else none

-- validateAntiPigeonCertificate
unfoldable pub validate_anti_pigeon_certificate :
    AntiPigeonCertificate → Snapshot → Time → Option ServiceError
unfolding check_group_head check_group_members check_group_bounds
validate_anti_pigeon_certificate c snapshot now =
    then_test (check_group_head c snapshot)
      (then_test (check_group_members [] c.member_event_ids) (check_group_bounds c now))

-- antiPigeonCertificateActive
unfoldable pub anti_pigeon_certificate_active : AntiPigeonCertificate → Snapshot → Time → Bool
unfolding validate_anti_pigeon_certificate
anti_pigeon_certificate_active c snapshot now =
    none_error (validate_anti_pigeon_certificate c snapshot now)

-- validateOmittedInfluenceCertificate
unfoldable pub validate_omitted_influence_certificate :
    OmittedInfluenceCertificate → Snapshot → Time → Option ServiceError
unfolding is_blank finite_nonnegative unit_open
validate_omitted_influence_certificate c snapshot now =
    if is_blank c.id || is_blank c.tenant_id || is_blank c.issuer || is_blank c.procedure
    then some
        (message "omitted-influence certificate id, tenant_id, issuer, and procedure are required")
    else if c.external_audit === c.runtime_estimated
    then some (
        message
          "omitted-influence certificate requires exactly one external or runtime estimator provenance")
    else if c.runtime_estimated && (is_blank c.query_digest || is_blank c.population_digest)
    then some
        (message "runtime omitted-influence certificate requires query and population bindings")
    else if not (c.policy_version == snapshot.policy_version)
        || not (c.evidence_epoch == snapshot.evidence_epoch)
    then some (
        message "omitted-influence certificate does not bind the current policy and evidence epoch")
    else if not (finite_nonnegative c.divergence_ucb)
        || not (finite_nonnegative c.divergence_limit)
        || lt_f c.divergence_limit c.divergence_ucb
    then some
        (message "omitted-influence divergence UCB must be finite and within its declared limit")
    else if not (unit_open c.audit_probability)
        || not (unit_open c.simultaneous_coverage)
        || c.valid_until == zero_time
        || not (before now c.valid_until)
    then some (
        message
          "omitted-influence audit probability and coverage must be in (0,1] and the certificate must be unexpired")
    else none

-- omittedInfluenceCertificateActive
unfoldable pub omitted_influence_certificate_active :
    OmittedInfluenceCertificate → Snapshot → Time → String → Bool
unfolding validate_omitted_influence_certificate
omitted_influence_certificate_active c snapshot now query_digest =
    none_error (validate_omitted_influence_certificate c snapshot now)
    && (not c.runtime_estimated || str_eq c.query_digest query_digest)

abbrev pub published : String → Store × Result Snapshot → Store × Reply (String × Snapshot)
published id (t, err e) = (t, failed (stored e))
published id (t, ok next) = (t, replied (id, next))

-- PublishSelectionCertificate
unfoldable pub request_selection :
    Store → Store → Time → String → SelectionSupportCertificate → Store × Reply (String × Snapshot)
unfolding check_protocol validate_selection_certificate publish_selection_certificate
request_selection at_snapshot at_publish now version c =
    elim (then_test (check_protocol version)
      (validate_selection_certificate c at_snapshot.snapshot now)) [
        | some e ↦ (at_publish, failed e)
        | none ↦ published c.id (publish_selection_certificate at_publish c)
      ]

-- PublishAntiPigeonCertificate
unfoldable pub request_anti_pigeon :
    Store → Store → Time → String → AntiPigeonCertificate → Store × Reply (String × Snapshot)
unfolding check_protocol validate_anti_pigeon_certificate publish_anti_pigeon_certificate
request_anti_pigeon at_snapshot at_publish now version c =
    elim (then_test (check_protocol version)
      (validate_anti_pigeon_certificate c at_snapshot.snapshot now)) [
        | some e ↦ (at_publish, failed e)
        | none ↦ published c.id (publish_anti_pigeon_certificate at_publish c)
      ]

-- PublishOmittedInfluenceCertificate; `close` is whether two probabilities differ by at most 1e-9.
unfoldable pub request_omitted_influence :
    (Float64 → Float64 → Bool)
    → Float64
    → Store
    → Store
    → Time
    → String
    → OmittedInfluenceCertificate
    → Store × Reply (String × Snapshot)
unfolding check_protocol validate_omitted_influence_certificate
    publish_omitted_influence_certificate
request_omitted_influence close audit_probability at_snapshot at_publish now version c =
    elim (then_test (check_protocol version) (
      then_test (validate_omitted_influence_certificate c at_snapshot.snapshot now) (
        if not (close c.audit_probability audit_probability)
        then some (
            message
              "omitted-influence certificate audit_probability does not match the active policy")
        else none))) [
          | some e ↦ (at_publish, failed e)
          | none ↦ published c.id (publish_omitted_influence_certificate at_publish c)
        ]
