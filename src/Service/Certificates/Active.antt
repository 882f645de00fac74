-- ===== src/Service/Certificates/Active.antt =====
-- How long a published certificate is active.
use eventframed.Prelude.{
  ◌≤◌, ◌<◌, String, true, false, ◌&&◌, none, ◌≡◌, ◌↔◌, inl, inr, refl, arith, ◌==◌, Bool-cases,
  Option-cases,
}
use eventframed.Prelude.Dict.{get-put_self}
use eventframed.Model.Certificate.{SelectionSupportCertificate}
use eventframed.Model.Snapshot.{Time, Snapshot}
use eventframed.Store.{Result, ok, err}
use eventframed.Memory.{Store}
use eventframed.Memory.Certificates.{publish_selection_certificate, get_selection_certificate}
use eventframed.Service.{replied, check_protocol, then_test, then_test-none}
use eventframed.Service.Certificates.{
  selection_stale, selection_closed, validate_selection_certificate, selection_certificate_active,
  published, request_selection,
}

pub published-ok :
    (id : String) (x : Store × Result Snapshot) {a : String × Snapshot}
    → (published id x).1 ≡ replied a
    → (next : Snapshot) × (x.1 ≡ ok next) × ((published id x).0 ≡ x.0)
published-ok id (t, err e) h = absurd (ground arith)
published-ok id (t, ok next) h = (next, refl, refl)

-- When a selection certificate counts.
pub record InForce (c : SelectionSupportCertificate) (snapshot : Snapshot) (now : Time)
    : Type 0 where
  pub policy : c.policy_version ≡ snapshot.policy_version
  pub epoch : c.evidence_epoch ≡ snapshot.evidence_epoch
  pub begun : c.valid_from ≤ now
  pub open_still : now < c.valid_until

selection_stale-bound :
    (c : SelectionSupportCertificate) (snapshot : Snapshot)
    → (selection_stale c snapshot ≡ false) ↔ (
        (c.policy_version ≡ snapshot.policy_version) × (c.evidence_epoch ≡ snapshot.evidence_epoch))
unfolding selection_stale
selection_stale-bound c snapshot = (λ h. ground arith, λ h. ground arith)

selection_closed-window :
    (c : SelectionSupportCertificate) (now later : Time)
    → selection_closed c now ≡ false
    → (selection_closed c later ≡ false) ↔ ((c.valid_from ≤ later) × (later < c.valid_until))
unfolding selection_closed
selection_closed-window c now later h = (λ k. ground arith, λ k. ground arith)

-- An accepted certificate keeps the tests that neither the snapshot nor the time decides.
validate_selection_certificate_iff :
    (c : SelectionSupportCertificate) (first current : Snapshot) (now later : Time)
    → validate_selection_certificate c first now ≡ none
    → (selection_certificate_active c current later ≡ true)
      ↔ ((selection_stale c current ≡ false) × (selection_closed c later ≡ false))
unfolding validate_selection_certificate selection_certificate_active
validate_selection_certificate_iff c first current now later h =
    (λ k. ground arith, λ k. ground arith)

validate_selection_certificate-open :
    (c : SelectionSupportCertificate) (first : Snapshot) (now : Time)
    → validate_selection_certificate c first now ≡ none
    → selection_closed c now ≡ false
unfolding validate_selection_certificate
validate_selection_certificate-open c first now h = ground arith

selection_certificate_active-InForce :
    (c : SelectionSupportCertificate) (first current : Snapshot) (now later : Time)
    → validate_selection_certificate c first now ≡ none
    → (selection_certificate_active c current later ≡ true) ↔ InForce c current later
selection_certificate_active-InForce c first current now later h =
    let (sound, full) = validate_selection_certificate_iff c first current now later h in
    let (bound, binds) = selection_stale-bound c current in
    let (opened, opens) =
      selection_closed-window c now later (validate_selection_certificate-open c first now h) in
    (
      λ active.
          let (fresh, window) = sound active in
          let (policy, epoch) = bound fresh in
          let (begun, still) = opened window in
          record { policy = policy; epoch = epoch; begun = begun; open_still = still },
      λ f. full (binds (f.policy, f.epoch), opens (f.begun, f.open_still)),
    )

publish_selection-found :
    (s : Store) (c : SelectionSupportCertificate) {next : Snapshot}
    → (publish_selection_certificate s c).1 ≡ ok next
    → get_selection_certificate (publish_selection_certificate s c).0 c.tenant_id ≡ ok c
unfolding publish_selection_certificate get_selection_certificate
publish_selection-found s c h =
    elim (Bool-cases (
      c.policy_version == s.snapshot.policy_version
      && c.evidence_epoch == s.snapshot.evidence_epoch)) [
        | inl yes_it ↦ rw (yes_it, get-put_self) refl
        | inr no_it ↦ absurd (ground arith)
      ]

-- A selection certificate that the service has accepted is the one that the tenant's recalls find
-- then, and at any later time and snapshot it is active exactly if the policy version and the
-- evidence epoch are still those that it names and the time lies in its window.
pub request_selection-InForce :
    (at_snapshot at_publish : Store) (now : Time) (version : String)
    (c : SelectionSupportCertificate) {a : String × Snapshot}
    → (request_selection at_snapshot at_publish now version c).1 ≡ replied a
    → (get_selection_certificate
          (request_selection at_snapshot at_publish now version c).0
          c.tenant_id
        ≡ ok c)
      × ((current : Snapshot) (later : Time)
          → (selection_certificate_active c current later ≡ true) ↔ InForce c current later)
unfolding request_selection
request_selection-InForce at_snapshot at_publish now version c {a} h =
    elim (Option-cases (
      then_test (check_protocol version)
        (validate_selection_certificate c at_snapshot.snapshot now))) [
          | inr (x, e) ↦ absurd (ground arith)
          | inl e ↦
              let (_, valid) = then_test-none (check_protocol version) _ e in
              let (next, accepted, state) =
                published-ok c.id (publish_selection_certificate at_publish c) {a = a}
                  (rw (e, request_selection) at h) in
              (
                rw (e, request_selection, state) (publish_selection-found at_publish c accepted),
                λ current later.
                    selection_certificate_active-InForce c at_snapshot.snapshot current now later
                      valid,
              )
        ]
