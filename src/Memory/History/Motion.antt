-- ===== src/Memory/History/Motion.antt =====
-- The ingest motion of the memory store along a history: nothing is recorded ahead of the runtime
-- version, and no entry is rewritten.
use eventframed.Prelude.{ℕ, suc, ◌≤◌, ◌<◌, List, [], ◌∷◌, none, some, ◌≡◌, refl, arith, length}
use eventframed.Model.Snapshot.{Time}
use eventframed.Memory.{Store, new, bump_abstraction, bump_evidence, record_ingest_motion}
use eventframed.Memory.Events.{ingest, ingest_composition}
use eventframed.Memory.History.{Call, step, run}
use eventframed.Memory.History.Moves.{Move, idle, queues, ingests, joins, mutates, resets}
use eventframed.Memory.History.Refine.{step-Move}
use eventframed.Memory.History.Counters.{Room, Near, step-Near, step-Room}

-- No motion is recorded for a version to come.
abbrev pub IsFresh : Store → Type 0
IsFresh s = (v : ℕ) → s.snapshot.runtime_version < v → s.ingest_motion v ≡ none

pub new-IsFresh : IsFresh new
new-IsFresh v h = refl

Move-IsFresh :
    {s t : Store} {n : ℕ}
    → Room (suc n) s.snapshot
    → Near s.snapshot t.snapshot
    → Move s t
    → IsFresh s
    → IsFresh t
unfolding bump_evidence bump_abstraction ingest ingest_composition record_ingest_motion
Move-IsFresh r near (idle e m c) fresh v h = rw m (fresh v (omega (arith, near.later.runtime)))
Move-IsFresh r near (queues e m c) fresh v h = rw m (fresh v (omega (arith, near.later.runtime)))
Move-IsFresh r near (ingests x w d g p) fresh v h =
    let ahead = rw p at h in rw p (ground (arith, fresh v (omega (arith, near.later.runtime))))
Move-IsFresh r near (joins x w d g p) fresh v h =
    let ahead = rw p at h in rw p (ground (arith, fresh v (omega (arith, near.later.runtime))))
Move-IsFresh r near (mutates b m) fresh v h = rw m (fresh v (omega (arith, near.later.runtime)))
Move-IsFresh r near (resets b m) fresh v h = rw m (fresh v (omega (arith, near.later.runtime)))

pub step-IsFresh :
    (s : Store) (c : Call) {n : ℕ} → Room (suc n) s.snapshot → IsFresh s → IsFresh (step s c)
step-IsFresh s c r fresh = Move-IsFresh r (step-Near s c r) (step-Move s c) fresh

-- A recorded motion of a version up to the current one was there before the call.
Move-motion :
    {s t : Store} {n : ℕ} (v : ℕ) (a : Time)
    → Room (suc n) s.snapshot
    → Move s t
    → v ≤ s.snapshot.runtime_version
    → t.ingest_motion v ≡ some a
    → s.ingest_motion v ≡ some a
unfolding bump_evidence bump_abstraction ingest ingest_composition record_ingest_motion
Move-motion v a r (idle e m c) h k = rw m at k
Move-motion v a r (queues e m c) h k = rw m at k
Move-motion v a r (ingests x w d g p) h k = let old = rw p at k in ground arith
Move-motion v a r (joins x w d g p) h k = let old = rw p at k in ground arith
Move-motion v a r (mutates b m) h k = rw m at k
Move-motion v a r (resets b m) h k = rw m at k

pub run-motion :
    (s : Store) (cs : List Call) (v : ℕ) (a : Time)
    → Room (length cs) s.snapshot
    → v ≤ s.snapshot.runtime_version
    → (run s cs).ingest_motion v ≡ some a
    → s.ingest_motion v ≡ some a
unfolding run
run-motion s [] v a r h k = k
run-motion s (c ∷ cs) v a r h k =
    let near = step-Near s c r in
    Move-motion v a r (step-Move s c) h
      (run-motion (step s c) cs v a (step-Room s c r) (omega (arith, near.later.runtime)) k)
