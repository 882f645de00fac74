-- ===== src/Memory/History/Frozen.antt =====
-- What a compatible forecast base says about the history since it was taken: the test of
-- internal/store/tau.go against the calls of the memory store.
use eventframed.Prelude.{
  ℕ, suc, ◌+◌, List, [], ◌∷◌, some, ◌≡◌, refl, subst, ◌∙◌, true, arith, length,
}
use eventframed.Model.Snapshot.{Snapshot}
use eventframed.Model.Proposal.{TauTurnBinding}
use eventframed.Store.Tau.{tau_snapshot_compatible}
use eventframed.Memory.{
  Store, bump_runtime, bump_abstraction, bump_evidence, bump_policy, bump_graph,
}
use eventframed.Memory.Events.{ingest, ingest_composition}
use eventframed.Memory.History.{Call, step, run}
use eventframed.Memory.History.Moves.{
  core, Bump, by_runtime, by_policy, by_abstraction, by_graph, Move, idle, queues, ingests, joins,
  mutates, resets,
}
use eventframed.Memory.History.Refine.{step-Move}
use eventframed.Memory.History.Counters.{Room, Later, step-Near, step-Room, run-Later}

-- The two counts of a forecast base.
record Even (a b : Snapshot) : Type 0 where
  lag : b.runtime_version + a.agency_version ≡ a.runtime_version + b.agency_version
  evidence : b.evidence_epoch ≡ a.evidence_epoch

Bump-uneven : {a b : Snapshot} {n : ℕ} → Room (suc n) a → Bump a b → Even a b → ⊥
unfolding bump_runtime bump_policy bump_abstraction bump_graph
Bump-uneven {a} r (by_runtime e) k = absurd (omega (arith, rw e at k.lag))
Bump-uneven {a} r (by_policy e) k = absurd (omega (arith, rw e at k.lag))
Bump-uneven {a} r (by_abstraction e) k = absurd (omega (arith, rw e at k.lag))
Bump-uneven {a} r (by_graph e) k = absurd (omega (arith, rw e at k.lag))

-- A call that keeps both counts even has not touched the core.
Move-core :
    {s t : Store} {n : ℕ}
    → Room (suc n) s.snapshot
    → Move s t
    → Even s.snapshot t.snapshot
    → core t ≡ core s
unfolding bump_evidence bump_abstraction ingest ingest_composition
Move-core r (idle e m c) k = c
Move-core r (queues e m c) k = c
Move-core r (ingests e v d h p) k = absurd (omega (arith, rw p at k.lag))
Move-core r (joins e v d h p) k = absurd (omega (arith, rw p at k.lag))
Move-core r (mutates b m) k = absurd (Bump-uneven r b k)
Move-core r (resets b m) k = absurd (omega arith)

Even-parts : {a b c : Snapshot} → Later a b → Later b c → Even a c → Even a b × Even b c
Even-parts h k e = (omega arith, omega arith)

run-core :
    (s : Store) (cs : List Call)
    → Room (length cs) s.snapshot
    → Even s.snapshot (run s cs).snapshot
    → core (run s cs) ≡ core s
unfolding run
run-core s [] r e = refl
run-core s (c ∷ cs) r e =
    let near = step-Near s c r in
    let room = step-Room s c r in
    let parts = Even-parts near.later (run-Later (step s c) cs room) e in
    run-core (step s c) cs room parts.1 ∙ Move-core r (step-Move s c) parts.0

compatible-Even :
    (tau : TauTurnBinding) (current : Snapshot)
    → tau_snapshot_compatible (some tau) current ≡ true
    → Even tau.base current
unfolding tau_snapshot_compatible
compatible-Even tau current h = ground arith

-- A forecast whose base was the snapshot of a store, and which is still compatible after any
-- sequence of writing calls other than ApplyBayesianOutcome, was made on the entries, certificates,
-- posteriors, residuals, graphs, tombstones and policy that the store still has, if the counters have
-- room for the calls.
pub compatible-core :
    (s : Store) (cs : List Call) (tau : TauTurnBinding)
    → Room (length cs) s.snapshot
    → tau.base ≡ s.snapshot
    → tau_snapshot_compatible (some tau) (run s cs).snapshot ≡ true
    → core (run s cs) ≡ core s
compatible-core s cs tau r base h =
    run-core s cs r (subst (λ b. Even b (run s cs).snapshot) base (compatible-Even tau _ h))
