-- ===== src/Memory/History/Recall.antt =====
-- What an admitted journal entry says about the history since its snapshot: the journal test of
-- internal/store/store.go against the retrievals of the memory store.
use eventframed.Prelude.{
  ℕ, suc, ◌+◌, ◌<◌, String, Bool, true, List, [], ◌∷◌, none, some, ◌≡◌, refl, ap, arith, length,
  inl, inr, Bool-cases, ◌↔◌,
}
use eventframed.Prelude.Dict.{get2}
use eventframed.Prelude.Float64.{Float64}
use eventframed.Prelude.Word.{u64_mod}
use eventframed.Model.Snapshot.{Time, Snapshot}
use eventframed.Store.{SearchResult, Motion, ok, same_semantics, journal_snapshot_compatible}
use eventframed.Store.Compatible.{Covers, journal_snapshot_compatible_iff}
use eventframed.Memory.{
  Store, bump_runtime, bump_agency, bump_abstraction, bump_evidence, bump_policy, bump_graph,
  record_ingest_motion,
}
use eventframed.Memory.Events.{ingest, ingest_composition}
use eventframed.Memory.Journals.{put_bayesian_journal, put_journal_checked}
use eventframed.Model.Journal.{BayesianJournalEntry}
use eventframed.Memory.Retrieval.{FloatOps, MayAnswer, get_events}
use eventframed.Memory.History.{Call, step, run}
use eventframed.Memory.History.Moves.{
  Core, Bump, by_runtime, by_policy, by_abstraction, by_graph, Move, idle, queues, ingests, joins,
  mutates, resets,
}
use eventframed.Memory.History.Refine.{step-Move}
use eventframed.Memory.History.Counters.{
  Room, Later, Near, step-Near, step-Room, run-Later, run-bound,
}
use eventframed.Memory.History.View.{
  SameRecall, put-SameRecall, SameRecall-trans, SameRecall-of_eq, get_events-SameRecall,
  search_events-SameRecall,
}
use eventframed.Memory.History.Motion.{IsFresh, step-IsFresh, run-motion}

record SameVersions (a b : Snapshot) : Type 0 where
  policy : a.policy_version ≡ b.policy_version
  graph : a.graph_version ≡ b.graph_version
  posterior : a.posterior_version ≡ b.posterior_version
  residual : a.residual_version ≡ b.residual_version
  abstraction : a.abstraction_version ≡ b.abstraction_version
  agency : a.agency_version ≡ b.agency_version

same_versions : (a b : Snapshot) → same_semantics a b ≡ true → SameVersions a b
unfolding same_semantics
same_versions a b h = ground arith

-- A call that changes the core without an ingestion leaves a version with no motion.
Bump-next :
    {a b : Snapshot} {n : ℕ} → Room (suc n) a → Bump a b → b.runtime_version ≡ a.runtime_version + 1
unfolding bump_runtime bump_policy bump_abstraction bump_graph
Bump-next r (by_runtime e) = rw e (omega arith)
Bump-next r (by_policy e) = rw e (omega arith)
Bump-next r (by_abstraction e) = rw e (omega arith)
Bump-next r (by_graph e) = rw e (omega arith)

Bump-silent :
    (s t : Store) {n : ℕ} {as_of : Time}
    → Room (suc n) s.snapshot
    → Bump s.snapshot t.snapshot
    → IsFresh s
    → t.ingest_motion ≡ s.ingest_motion
    → (t.snapshot.runtime_version ≡ s.snapshot.runtime_version + 1
        → (a : Time) × (t.ingest_motion t.snapshot.runtime_version ≡ some a) × (as_of < a))
    → ⊥
Bump-silent s t r b fresh m h =
    let next = Bump-next r b in
    let (a, e, later) = h next in
    let none_yet = fresh t.snapshot.runtime_version (omega (arith, next)) in
    cc (ap (λ (f : Motion). f t.snapshot.runtime_version) m)

Move-SameRecall :
    {s t : Store} {n : ℕ} (as_of : Time)
    → Room (suc n) s.snapshot
    → Move s t
    → IsFresh s
    → SameVersions s.snapshot t.snapshot
    → (t.snapshot.runtime_version ≡ s.snapshot.runtime_version + 1
        → (a : Time) × (t.ingest_motion t.snapshot.runtime_version ≡ some a) × (as_of < a))
    → SameRecall as_of s.entries t.entries
unfolding bump_agency bump_evidence bump_abstraction ingest ingest_composition record_ingest_motion
Move-SameRecall as_of r (idle e m c) fresh v h =
    SameRecall-of_eq as_of (ap (λ (k : Core). k.entries) c)
Move-SameRecall as_of r (queues e m c) fresh v h = absurd (omega (arith, rw e at v.agency))
Move-SameRecall {s} as_of r (ingests x w d g p) fresh v h =
    let (a, e, later) = (rw p at h) (omega arith) in
    rw p (put-SameRecall as_of s.entries x.tenant_id x.id _ (ground arith) g)
Move-SameRecall as_of r (joins x w d g p) fresh v h = absurd (omega (arith, rw p at v.abstraction))
Move-SameRecall {s} {t} as_of r (mutates b m) fresh v h = absurd (Bump-silent s t r b fresh m h)
Move-SameRecall as_of r (resets b m) fresh v h = absurd (omega arith)

-- What the journal test gives for the calls from `s` on.
record Admits (as_of : Time) (s f : Store) : Type 0 where
  versions : SameVersions s.snapshot f.snapshot
  covers : Covers f.ingest_motion as_of (s.snapshot.runtime_version + 1) f.snapshot.runtime_version

run-SameRecall :
    (s : Store) (cs : List Call) (as_of : Time)
    → Room (length cs) s.snapshot
    → IsFresh s
    → Admits as_of s (run s cs)
    → SameRecall as_of s.entries (run s cs).entries
unfolding run
run-SameRecall s [] as_of r fresh h = SameRecall-of_eq as_of refl
run-SameRecall s (c ∷ cs) as_of r fresh h =
    SameRecall-trans as_of (Move-SameRecall as_of r (step-Move s c) fresh first covered) (
      run-SameRecall t cs as_of room (step-IsFresh s c r fresh) (record {
        versions = rest;
        covers = λ w p q. h.covers w (omega (arith, near.later.runtime)) q;
      }))
  where
    t : Store
    t = step s c

    near : Near s.snapshot t.snapshot
    near = step-Near s c r

    room : Room (length cs) t.snapshot
    room = step-Room s c r

    later : Later t.snapshot (run t cs).snapshot
    later = run-Later t cs room

    first : SameVersions s.snapshot t.snapshot
    first = omega (arith, near.later, later, h.versions)

    rest : SameVersions t.snapshot (run t cs).snapshot
    rest = omega (arith, near.later, later, h.versions)

    covered :
        t.snapshot.runtime_version ≡ s.snapshot.runtime_version + 1
        → (a : Time) × (t.ingest_motion t.snapshot.runtime_version ≡ some a) × (as_of < a)
    covered next =
        let (a, e, after_it) =
          h.covers t.snapshot.runtime_version (omega (arith, next)) later.runtime in
        (a, run-motion t cs t.snapshot.runtime_version a room (omega arith) e, after_it)

admits :
    (s f : Store) (as_of : Time)
    → f.snapshot.runtime_version + 1 < u64_mod
    → journal_snapshot_compatible s.snapshot f.snapshot as_of f.ingest_motion ≡ true
    → Admits as_of s f
admits s f as_of b h =
    let (same, order, covers) =
      (journal_snapshot_compatible_iff s.snapshot f.snapshot as_of f.ingest_motion b).0 h in
    record { versions = same_versions s.snapshot f.snapshot same; covers = covers }

abbrev pub Unmoved : FloatOps → Time → Store → Store → Type 0
Unmoved ops as_of s f =
    ((tenant : String) (ids : List String) (hydrated : Bool)
      → get_events f tenant ids as_of hydrated ≡ get_events s tenant ids as_of hydrated)
    × ((tenant : String) (vector : List Float64) (limit : ℕ) (answer : List SearchResult)
        → MayAnswer ops f tenant vector as_of limit answer
          ↔ MayAnswer ops s tenant vector as_of limit answer)

-- The journal test itself: where it admits an entry, no retrieval has moved.
pub compatible-recall :
    (ops : FloatOps) (s : Store) (cs : List Call) (as_of : Time)
    → Room (suc (length cs)) s.snapshot
    → IsFresh s
    → journal_snapshot_compatible s.snapshot (run s cs).snapshot as_of (run s cs).ingest_motion
      ≡ true
    → Unmoved ops as_of s (run s cs)
compatible-recall ops s cs as_of r fresh h = (
  λ tenant ids hydrated. get_events-SameRecall as_of s (run s cs) tenant ids hydrated same,
  λ tenant vector limit answer.
      search_events-SameRecall ops as_of s (run s cs) tenant vector limit answer same,
)
  where
    room : Room (length cs) s.snapshot
    room = omega (arith, r)

    bound : (run s cs).snapshot.runtime_version + 1 < u64_mod
    bound = run-bound s cs r

    same : SameRecall as_of s.entries (run s cs).entries
    same = run-SameRecall s cs as_of room fresh (admits s (run s cs) as_of bound h)

accepted_compatible :
    (s : Store) (entry : BayesianJournalEntry)
    → get2 entry.tenant_id entry.id s.journals ≡ none
    → (put_bayesian_journal s entry).1 ≡ ok tt
    → journal_snapshot_compatible entry.snapshot s.snapshot entry.as_of s.ingest_motion ≡ true
unfolding put_bayesian_journal
accepted_compatible s entry absent h =
    elim (Bool-cases
      (journal_snapshot_compatible entry.snapshot s.snapshot entry.as_of s.ingest_motion)) [
        | inl e ↦ e
        | inr e ↦ cc (rw (absent, put_journal_checked, e) at h)
      ]

-- Let a recall take a store's snapshot, and let `PutBayesianJournal`, after any sequence of writing
-- calls other than ApplyBayesianOutcome, accept its journal entry under an id that the tenant had not
-- used. Then every `GetEvents` as of the entry's time still gives the answer that it gave at the
-- snapshot, and every `Search` as of that time may give exactly the answers that it might give then,
-- whose order among ties Go does not fix. The store has no motion recorded ahead of its runtime
-- version, and the counters have room for the calls and one more.
pub put_bayesian_journal-recall :
    (ops : FloatOps) (s : Store) (cs : List Call) (entry : BayesianJournalEntry)
    → Room (suc (length cs)) s.snapshot
    → IsFresh s
    → entry.snapshot ≡ s.snapshot
    → get2 entry.tenant_id entry.id (run s cs).journals ≡ none
    → (put_bayesian_journal (run s cs) entry).1 ≡ ok tt
    → Unmoved ops entry.as_of s (run s cs)
put_bayesian_journal-recall ops s cs entry r fresh base absent h =
    compatible-recall ops s cs entry.as_of r fresh
      (rw base at (accepted_compatible (run s cs) entry absent h))
