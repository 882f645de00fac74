-- ===== src/Service/Fuzz/Live.antt =====
-- Which jobs are live in the queue of background audits.
use eventframed.Prelude.{
  ℕ, zero, suc, ◌+◌, ◌%◌, ◌≤◌, String, Option, none, some, List, [], ◌∷◌, ◌++◌, ◌≡◌, ◌≢◌, inl, inr,
  refl, arith, ◌==◌, str_eq, eq_iff, length, if◌then◌else◌, Option-cases,
}
use eventframed.Prelude.Pick.{pick}
use eventframed.Prelude.Dict.{Dict, get, get-remove}
use eventframed.Prelude.Word.{u64_mod}
use eventframed.Model.Snapshot.{Time, zero_time}
use eventframed.Service.Fuzz.{BackgroundFuzzJob}
use eventframed.Service.Fuzz.Queue.{
  Worker, idle, received, auditing, FuzzQueue, sweep_key, sweep_dedup, FuzzStep, finishes,
}

-- How many of the jobs have the key.
abbrev pub tally : String → List BackgroundFuzzJob → ℕ
tally k [] = 0
tally k (job ∷ jobs) = (if str_eq job.dedup_key k then 1 else 0) + tally k jobs

abbrev pub at_work : String → Worker → ℕ
at_work k idle = 0
at_work k (received job) = if str_eq job.dedup_key k then 1 else 0
at_work k (auditing job) = if str_eq job.dedup_key k then 1 else 0

-- The jobs with the key that are on their way, queued or in the worker's hands.
abbrev pub live : String → FuzzQueue → ℕ
live k q = tally k q.hands + tally k q.dropping + tally k q.jobs + at_work k q.worker

-- A mark without a time never cools down.
abbrev pub held : Option Time → ℕ
held none = 0
held (some t) = if t == zero_time then 1 else 0

abbrev pub holding : Worker → ℕ
holding idle = 0
holding _ = 1

abbrev pub audits : Worker → ℕ
audits (auditing _) = 1
audits _ = 0

pub record Orderly (capacity : ℕ) (q : FuzzQueue) : Type 0 where
  pub marked : (k : String) → live k q ≡ held (get k q.dedup)
  pub room : length q.jobs ≤ capacity
  pub busy : q.running ≡ audits q.worker
  pub balance :
      (q.enqueued_total + q.sent) % u64_mod
      ≡ (length q.jobs + holding q.worker + q.completed_total + q.failed_total + q.stale_total)
        % u64_mod

-- The clock of the worker is past its zero.
abbrev pub Timed : FuzzStep → Type 0
Timed (finishes outcome completed_at) = completed_at ≢ zero_time
Timed _ = Unit

held-sweep_key :
    (now : Time) (key k : String) (dedup : Dict Time)
    → held (get k (sweep_key now key dedup)) ≡ held (get k dedup)
unfolding sweep_key
held-sweep_key now key k dedup = elim (Option-cases (get key dedup)) [
  | inl e ↦ rw (e, sweep_key) refl
  | inr (until, e) ↦ ground (arith, get-remove key k dedup, eq_iff key k)
]

pub held-sweep_dedup :
    (now : Time) (k : String) (keys dedup : Dict Time)
    → held (get k (sweep_dedup now keys dedup)) ≡ held (get k dedup)
unfolding sweep_dedup
held-sweep_dedup now k [] dedup = refl
held-sweep_dedup now k ((key, until) ∷ keys) dedup =
    ground
      (arith, held-sweep_dedup now k keys (sweep_key now key dedup), held-sweep_key now key k dedup)

pub tally-append :
    (k : String) (xs ys : List BackgroundFuzzJob) → tally k (xs ++ ys) ≡ tally k xs + tally k ys
tally-append k [] ys = omega arith
tally-append k (x ∷ xs) ys = omega (arith, tally-append k xs ys)

pub tally-pick :
    (k : String) (n : ℕ) (xs : List BackgroundFuzzJob) {job : BackgroundFuzzJob}
    {rest : List BackgroundFuzzJob}
    → pick n xs ≡ some (job, rest)
    → tally k xs ≡ (if str_eq job.dedup_key k then 1 else 0) + tally k rest
unfolding pick
tally-pick k n [] h = absurd (ground arith)
tally-pick k zero (x ∷ xs) h = ground arith
tally-pick k (suc n) (x ∷ xs) h = elim (Option-cases (pick n xs)) [
  | inl e ↦ absurd (ground arith)
  | inr ((y, ys), e) ↦ let rest = tally-pick k n xs e in ground arith
]
