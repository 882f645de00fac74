-- ===== src/Store/Compatible.antt =====
-- What the journal test of internal/store/store.go decides, and that its fuel is enough.
use native.Mathlib.Decide.{ℕ_discrete}
use eventframed.Prelude.{
  ℕ, zero, suc, ◌+◌, ◌-◌, ◌≤◌, ◌<◌, Bool, true, ◌&&◌, some, ◌≡◌, ◌↔◌, inl, inr, arith, leb, leb→le,
  Bool-cases, Option-cases, and_left, and_right,
}
use eventframed.Prelude.Word.{u64_mod, inc}
use eventframed.Model.Snapshot.{Time, Snapshot}
use eventframed.Store.{Motion, same_semantics, motion_loop, journal_snapshot_compatible}

-- Every runtime version from `v` up to `current` is an ingestion that became available after `as_of`.
abbrev pub Covers : Motion → Time → ℕ → ℕ → Type 0
Covers motion as_of v current =
    (w : ℕ) → v ≤ w → w ≤ current → (t : Time) × (motion w ≡ some t) × (as_of < t)

loop-Covers :
    (fuel v current : ℕ) (as_of : Time) (motion : Motion)
    → current + 1 < u64_mod
    → motion_loop fuel v current as_of motion ≡ true
    → Covers motion as_of v current
unfolding motion_loop
loop-Covers zero v current as_of motion b h w p q = cc
loop-Covers (suc fuel) v current as_of motion b h w p q = elim (Option-cases (motion v)) [
  | inl e ↦ absurd (ground arith)
  | inr (t, e) ↦ elim (ℕ_discrete w v) [
    | yes same ↦ (t, rw same e, ground arith)
    | no differs ↦ loop-Covers fuel (v + 1) current as_of motion b (ground arith) w (omega arith) q
  ]
]

Covers-loop :
    (fuel v current : ℕ) (as_of : Time) (motion : Motion)
    → current + 1 < u64_mod
    → v ≤ current + 1
    → current + 1 < v + fuel
    → Covers motion as_of v current
    → motion_loop fuel v current as_of motion ≡ true
unfolding motion_loop
Covers-loop zero v current as_of motion b h k covers = absurd (omega arith)
Covers-loop (suc fuel) v current as_of motion b h k covers = elim (Bool-cases (leb v current)) [
  | inr past ↦ ground arith
  | inl more ↦
      let (t, e, later) = covers v (omega arith) (leb→le v current more) in
      let rest =
        Covers-loop fuel (v + 1) current as_of motion b (omega (arith, leb→le v current more))
          (omega arith) (λ w p q. covers w (omega arith) q) in
      ground arith
]

-- The journal test passes exactly when the seven semantic versions agree, the runtime version has
-- not gone back, and each runtime version since the captured one is an ingestion whose event became
-- available after `as_of`; the current runtime version is below 2^64 - 1.
pub journal_snapshot_compatible_iff :
    (captured current : Snapshot) (as_of : Time) (motion : Motion)
    → current.runtime_version + 1 < u64_mod
    → (journal_snapshot_compatible captured current as_of motion ≡ true) ↔ (
        (same_semantics captured current ≡ true)
        × (captured.runtime_version ≤ current.runtime_version)
        × Covers motion as_of (captured.runtime_version + 1) current.runtime_version)
unfolding journal_snapshot_compatible
journal_snapshot_compatible_iff captured current as_of motion b = (forth, back)
  where
    fuel : ℕ
    fuel = current.runtime_version - captured.runtime_version + 1

    same : Bool
    same = same_semantics captured current

    ordered : Bool
    ordered = leb captured.runtime_version current.runtime_version

    loop : Bool
    loop = motion_loop fuel (inc captured.runtime_version) current.runtime_version as_of motion

    next :
        captured.runtime_version ≤ current.runtime_version
        → inc captured.runtime_version ≡ captured.runtime_version + 1
    next h = omega arith

    forth :
        journal_snapshot_compatible captured current as_of motion ≡ true
        → (same_semantics captured current ≡ true)
          × (captured.runtime_version ≤ current.runtime_version)
          × Covers motion as_of (captured.runtime_version + 1) current.runtime_version
    forth h =
        let both = and_left (same && ordered) loop h in
        let order =
          leb→le captured.runtime_version current.runtime_version (and_right same ordered both) in
        let covers = and_right (same && ordered) loop h in
        (
          and_left same ordered both,
          order,
          loop-Covers fuel _ current.runtime_version as_of motion b (rw (next order) at covers),
        )

    back :
        (same_semantics captured current ≡ true)
          × (captured.runtime_version ≤ current.runtime_version)
          × Covers motion as_of (captured.runtime_version + 1) current.runtime_version
        → journal_snapshot_compatible captured current as_of motion ≡ true
    back (first, order, covers) =
        let found =
          Covers-loop fuel (captured.runtime_version + 1) current.runtime_version as_of motion b
            (omega arith) (omega arith) covers in
        rw (next order) (ground arith)
