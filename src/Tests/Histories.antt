-- ===== src/Tests/Histories.antt =====
-- Histories of the memory store.
use eventframed.Prelude.{◌≡◌, refl, List, [], ◌∷◌, some, ◌↔◌, true, ◌+◌, ◌≤◌, arith, String, map}
use eventframed.Memory.Retrieval.{search_events}
use eventframed.Store.{SearchResult, same_semantics, journal_snapshot_compatible}
use eventframed.Store.Compatible.{Covers, journal_snapshot_compatible_iff}
use eventframed.Store.Tau.{tau_snapshot_compatible}
use eventframed.Prelude.Dict.{get, get2, inner, put, put2, count_values}
use eventframed.Memory.{Entry, Store, new}
use eventframed.Memory.Agency.{put_agency_proposal, admission}
use eventframed.Memory.Agency.Claim.{claim_agency_proposals}
use eventframed.Memory.History.{Call, puts, proposes, claims, step, run}
use eventframed.Memory.History.Moves.{core}
use eventframed.Memory.History.Counters.{Later, run-Later}
use eventframed.Memory.History.Motion.{IsFresh, new-IsFresh, step-IsFresh}
use eventframed.Memory.History.Frozen.{compatible-core}
use eventframed.Memory.History.Recall.{Unmoved, put_bayesian_journal-recall}
use eventframed.Memory.Events.{put_event, ingest}
use eventframed.Memory.Journals.{put_bayesian_journal}
use eventframed.Tests.Samples.{ops, event, journal, tau, proposal, pending_record}

-- A store with one event, available at time 5.
abbrev pub seeded : Store
seeded = ingest new (event "e1" 5) [] "d1"

-- Two events that become available after time 50.
abbrev later_events : List Call
later_events = puts (event "e2" 60) [] "d2" ∷ puts (event "e3" 70) [] "d3" ∷ []

-- Two calls of the agency queue.
abbrev pub agency_calls : List Call
agency_calls =
    proposes (pending_record (proposal (some (tau seeded.snapshot)) "p1")) "pd" 8 100 9
    ∷ claims "t" "c" 20 5 30
    ∷ []

seeded-IsFresh : IsFresh seeded
unfolding step put_event ingest get2 get
seeded-IsFresh = step-IsFresh new (puts (event "e1" 5) [] "d1") {n = 0} (omega arith) new-IsFresh

journal_iff_example :
    (journal_snapshot_compatible seeded.snapshot
        (run seeded later_events).snapshot
        50
        (run seeded later_events).ingest_motion
      ≡ true)
    ↔ ((same_semantics seeded.snapshot (run seeded later_events).snapshot ≡ true)
        × (seeded.snapshot.runtime_version ≤ (run seeded later_events).snapshot.runtime_version)
        × Covers
            (run seeded later_events).ingest_motion
            50
            (seeded.snapshot.runtime_version + 1)
            (run seeded later_events).snapshot.runtime_version)
unfolding run step put_event ingest get2 get put2 put
journal_iff_example =
    journal_snapshot_compatible_iff seeded.snapshot (run seeded later_events).snapshot 50
      (run seeded later_events).ingest_motion (omega arith)

put_bayesian_journal-recall_example : Unmoved ops 50 seeded (run seeded later_events)
unfolding run step put_event ingest put_bayesian_journal get2 inner get put2 put
put_bayesian_journal-recall_example =
    put_bayesian_journal-recall ops seeded later_events (journal "j" 50 seeded.snapshot)
      (omega arith) seeded-IsFresh refl refl refl

compatible-core_example : core (run seeded agency_calls) ≡ core seeded
unfolding run step put_event ingest put_agency_proposal claim_agency_proposals
    tau_snapshot_compatible get2 admission put2 put count_values
compatible-core_example =
    compatible-core seeded agency_calls (tau seeded.snapshot) (omega arith) refl refl

run-Later_example : Later seeded.snapshot (run seeded agency_calls).snapshot
unfolding ingest
run-Later_example = run-Later seeded agency_calls (omega arith)

abbrev entry_of : String → Entry
entry_of id = record { event = event id 5; vector = []; digest = "d" }

-- Two events that tie, visited in the two orders, with a limit of one.
search_test :
    map
        (λ (x : SearchResult). x.event.id)
        (search_events ops (("e1", entry_of "e1") ∷ ("e2", entry_of "e2") ∷ []) (λ x. x) [] 50 1)
      ≡ "e1" ∷ []
    × map
        (λ (x : SearchResult). x.event.id)
        (search_events ops (("e2", entry_of "e2") ∷ ("e1", entry_of "e1") ∷ []) (λ x. x) [] 50 1)
      ≡ "e2" ∷ []
unfolding search_events
search_test = (refl, refl)
