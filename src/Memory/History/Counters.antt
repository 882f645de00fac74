-- ===== src/Memory/History/Counters.antt =====
-- How a history moves the version counters while none of them is near 2^64.
use eventframed.Prelude.{ℕ, suc, ◌+◌, ◌≤◌, ◌<◌, List, [], ◌∷◌, ◌≡◌, arith, length}
use eventframed.Prelude.Word.{u64_mod}
use eventframed.Model.Snapshot.{Snapshot}
use eventframed.Memory.{
  Store, bump_runtime, bump_agency, bump_abstraction, bump_evidence, bump_policy, bump_graph,
}
use eventframed.Memory.Events.{ingest, ingest_composition}
use eventframed.Memory.History.{Call, step, run}
use eventframed.Memory.History.Moves.{
  Bump, by_runtime, by_policy, by_abstraction, by_graph, Reset, Move, idle, queues, ingests, joins,
  mutates, resets,
}
use eventframed.Memory.History.Refine.{step-Move}

-- No counter can wrap within `n` calls.
pub record Room (n : ℕ) (c : Snapshot) : Type 0 where
  pub runtime : c.runtime_version + n < u64_mod
  pub policy : c.policy_version + n < u64_mod
  pub graph : c.graph_version + n < u64_mod
  pub posterior : c.posterior_version + n < u64_mod
  pub residual : c.residual_version + n < u64_mod
  pub abstraction : c.abstraction_version + n < u64_mod
  pub agency : c.agency_version + n < u64_mod
  pub evidence : c.evidence_epoch + n < u64_mod

-- `b` comes after `a`, and the runtime version has moved at least as far as the agency version.
pub record Later (a b : Snapshot) : Type 0 where
  pub runtime : a.runtime_version ≤ b.runtime_version
  pub policy : a.policy_version ≤ b.policy_version
  pub contract : a.contract_version ≡ b.contract_version
  pub graph : a.graph_version ≤ b.graph_version
  pub posterior : a.posterior_version ≤ b.posterior_version
  pub residual : a.residual_version ≤ b.residual_version
  pub abstraction : a.abstraction_version ≤ b.abstraction_version
  pub agency : a.agency_version ≤ b.agency_version
  pub evidence : a.evidence_epoch ≤ b.evidence_epoch
  pub lag : a.runtime_version + b.agency_version ≤ b.runtime_version + a.agency_version

-- One call: nothing counts by more than one.
pub record Near (a b : Snapshot) : Type 0 where
  pub later : Later a b
  pub runtime : b.runtime_version ≤ a.runtime_version + 1
  pub policy : b.policy_version ≤ a.policy_version + 1
  pub graph : b.graph_version ≤ a.graph_version + 1
  pub posterior : b.posterior_version ≤ a.posterior_version + 1
  pub residual : b.residual_version ≤ a.residual_version + 1
  pub abstraction : b.abstraction_version ≤ a.abstraction_version + 1
  pub agency : b.agency_version ≤ a.agency_version + 1
  pub evidence : b.evidence_epoch ≤ a.evidence_epoch + 1

Bump-Near : {a b : Snapshot} {n : ℕ} → Room (suc n) a → Bump a b → Near a b
unfolding bump_runtime bump_policy bump_abstraction bump_graph
Bump-Near r (by_runtime e) = rw e (omega arith)
Bump-Near r (by_policy e) = rw e (omega arith)
Bump-Near r (by_abstraction e) = rw e (omega arith)
Bump-Near r (by_graph e) = rw e (omega arith)

Reset-Near : {a b : Snapshot} {n : ℕ} → Room (suc n) a → Reset a b → Near a b
Reset-Near r e = omega arith

Move-Near : {s t : Store} {n : ℕ} → Room (suc n) s.snapshot → Move s t → Near s.snapshot t.snapshot
unfolding bump_agency bump_evidence bump_abstraction ingest ingest_composition
Move-Near r (idle e m c) = rw e (omega arith)
Move-Near r (queues e m c) = rw e (omega arith)
Move-Near r (ingests e v d h p) = rw p (omega arith)
Move-Near r (joins e v d h p) = rw p (omega arith)
Move-Near r (mutates b m) = Bump-Near r b
Move-Near r (resets b m) = Reset-Near r b

pub step-Near :
    (s : Store) (c : Call) {n : ℕ} → Room (suc n) s.snapshot → Near s.snapshot (step s c).snapshot
step-Near s c r = Move-Near r (step-Move s c)

pub step-Room :
    (s : Store) (c : Call) {n : ℕ} → Room (suc n) s.snapshot → Room n (step s c).snapshot
step-Room s c r = let near = step-Near s c r in Room-Near r near
  where
    Room-Near : {a b : Snapshot} {n : ℕ} → Room (suc n) a → Near a b → Room n b
    Room-Near r near = omega arith

Later-refl : (a : Snapshot) → Later a a
Later-refl a = omega arith

Later-trans : {a b c : Snapshot} → Later a b → Later b c → Later a c
Later-trans h k = record {
  runtime = omega arith;
  policy = omega arith;
  contract = omega arith;
  graph = omega arith;
  posterior = omega arith;
  residual = omega arith;
  abstraction = omega arith;
  agency = omega arith;
  evidence = omega arith;
  lag = omega arith;
}

-- Along any sequence of writing calls other than ApplyBayesianOutcome that the counters have room for,
-- every counter only grows, the contract version stays, and the runtime version counts at least each
-- step of the agency version.
pub run-Later :
    (s : Store) (cs : List Call)
    → Room (length cs) s.snapshot
    → Later s.snapshot (run s cs).snapshot
unfolding run
run-Later s [] r = Later-refl s.snapshot
run-Later s (c ∷ cs) r =
    Later-trans (step-Near s c r).later (run-Later (step s c) cs (step-Room s c r))

pub run-bound :
    (s : Store) (cs : List Call)
    → Room (suc (length cs)) s.snapshot
    → (run s cs).snapshot.runtime_version + 1 < u64_mod
unfolding run
run-bound s [] r = r.runtime
run-bound s (c ∷ cs) r = run-bound (step s c) cs (step-Room s c r)
