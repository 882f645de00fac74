-- ===== src/Service/Fuzz/Queue.antt =====
-- internal/service/background_fuzz.go: `Enqueue`, `run` and `execute`, in the parts that are atomic.
use eventframed.Prelude.{
  ℕ, zero, suc, ◌+◌, String, not, ◌&&◌, Option, none, some, List, [], ◌∷◌, ◌++◌, ltb, ◌==◌, length,
  if◌then◌else◌, is_some,
}
use eventframed.Prelude.Pick.{pick}
use eventframed.Prelude.Dict.{Dict, get, put, remove}
use eventframed.Prelude.Word.{inc}
use eventframed.Model.Snapshot.{Time, Duration, zero_time, before}
use eventframed.Service.Fuzz.{
  BackgroundFuzzJob, BackgroundFuzzResultSummary, AuditOutcome, audited, stale_snapshot,
  deadline_exceeded, canceled, other_error,
}

-- The worker goroutine of `run`: waiting, between the receive and `execute`, or inside an audit.
pub data Worker : Type 0 where
  idle : Worker
  received auditing : BackgroundFuzzJob → Worker

-- backgroundFuzzQueue, with the goroutines that are inside `Enqueue`: `hands` have passed the
-- deduplication and not yet sent, `dropping` have found the channel full, and `sent` counts those
-- that have sent and not yet counted it.
pub record FuzzQueue : Type 0 where
  pub jobs : List BackgroundFuzzJob
  pub hands : List BackgroundFuzzJob
  pub dropping : List BackgroundFuzzJob
  pub sent : ℕ
  pub worker : Worker
  pub dedup : Dict Time
  pub running : ℕ
  pub enqueued_total : ℕ
  pub completed_total : ℕ
  pub failed_total : ℕ
  pub stale_total : ℕ
  pub dropped_total : ℕ
  pub deduplicated_total : ℕ
  pub last_result : Option BackgroundFuzzResultSummary

-- newBackgroundFuzzQueue
abbrev pub new_queue : FuzzQueue
new_queue = record {
  jobs = [];
  hands = [];
  dropping = [];
  sent = 0;
  worker = idle;
  dedup = [];
  running = 0;
  enqueued_total = 0;
  completed_total = 0;
  failed_total = 0;
  stale_total = 0;
  dropped_total = 0;
  deduplicated_total = 0;
  last_result = none;
}

-- One round of the loop over `dedup`: a key that has cooled down is deleted.
unfoldable pub sweep_key : Time → String → Dict Time → Dict Time
sweep_key now key dedup = elim (get key dedup) [
  | none ↦ dedup
  | some until ↦
      if not (until == zero_time) && not (before now until) then remove key dedup else dedup
]

-- The loop, over the keys of the map.
unfoldable pub sweep_dedup : Time → Dict Time → Dict Time → Dict Time
unfolding sweep_key
sweep_dedup now [] dedup = dedup
sweep_dedup now ((key, until) ∷ rest) dedup = sweep_dedup now rest (sweep_key now key dedup)

-- The first part of Enqueue.
unfoldable pub admit : BackgroundFuzzJob → Time → FuzzQueue → FuzzQueue
unfolding sweep_dedup
admit job now q =
    let dedup = sweep_dedup now q.dedup q.dedup in
    if is_some (get job.dedup_key dedup)
    then record q { dedup = dedup; deduplicated_total = inc q.deduplicated_total }
    else record q { dedup = put job.dedup_key zero_time dedup; hands = job ∷ q.hands }

-- The select of Enqueue: the send, where the channel has room, or the default.
unfoldable pub send : ℕ → ℕ → FuzzQueue → FuzzQueue
unfolding pick
send capacity n q = elim (pick n q.hands) [
  | none ↦ q
  | some (job, hands) ↦
      if ltb (length q.jobs) capacity
      then record q { hands = hands; jobs = q.jobs ++ (job ∷ []); sent = suc q.sent }
      else record q { hands = hands; dropping = job ∷ q.dropping }
]

-- The last part of Enqueue after a send.
unfoldable pub count_sent : FuzzQueue → FuzzQueue
count_sent q = elim q.sent [
  | zero ↦ q
  | suc sent ↦ record q { sent = sent; enqueued_total = inc q.enqueued_total }
]

-- The last part of Enqueue after the default.
unfoldable pub drop : ℕ → FuzzQueue → FuzzQueue
unfolding pick
drop n q = elim (pick n q.dropping) [
  | none ↦ q
  | some (job, dropping) ↦ record q {
    dropping = dropping;
    dedup = remove job.dedup_key q.dedup;
    dropped_total = inc q.dropped_total;
  }
]

unfoldable pub receive_from : FuzzQueue → Worker → List BackgroundFuzzJob → FuzzQueue
receive_from q idle (job ∷ jobs) = record q { jobs = jobs; worker = received job }
receive_from q _ _ = q

-- A tick of run: no recall is active, and the worker takes the next job if there is one.
unfoldable pub receive : ℕ → FuzzQueue → FuzzQueue
unfolding receive_from
receive active_recalls q = if active_recalls == 0 then receive_from q q.worker q.jobs else q

unfoldable pub start_from : FuzzQueue → Worker → FuzzQueue
start_from q (received job) = record q { worker = auditing job; running = 1 }
start_from q _ = q

-- The first part of execute.
unfoldable pub start : FuzzQueue → FuzzQueue
unfolding start_from
start q = start_from q q.worker

abbrev pub summary : BackgroundFuzzJob → Time → String → String → BackgroundFuzzResultSummary
summary job completed_at status error = record {
  job_id = job.id;
  trigger_reason = job.trigger_reason;
  answer_certainty = job.answer_certainty;
  event_count = length job.event_ids;
  perturbation_count = length job.perturbations;
  completed_at = completed_at;
  status = status;
  error = error;
  trial_count = 0;
  property_count = 0;
  conditional_invariants = 0;
}

-- The result of execute.
unfoldable pub result_of : BackgroundFuzzJob → Time → AuditOutcome → BackgroundFuzzResultSummary
result_of job t (audited trials properties invariants) = record (summary job t "completed" "") {
  trial_count = trials;
  property_count = properties;
  conditional_invariants = invariants;
}
result_of job t stale_snapshot = summary job t "stale" "snapshot changed before audit"
result_of job t deadline_exceeded = summary job t "failed" "background fuzz audit timed out"
result_of job t canceled = summary job t "failed" "background fuzz audit canceled"
result_of job t other_error = summary job t "failed" "background fuzz audit failed"

-- The counters at the end of execute.
unfoldable pub count_outcome : AuditOutcome → FuzzQueue → FuzzQueue
count_outcome (audited _ _ _) q = record q { completed_total = inc q.completed_total }
count_outcome stale_snapshot q = record q { stale_total = inc q.stale_total }
count_outcome _ q = record q { failed_total = inc q.failed_total }

unfoldable pub finish_from : Duration → AuditOutcome → Time → FuzzQueue → Worker → FuzzQueue
unfolding count_outcome result_of
finish_from cooldown outcome completed_at q (auditing job) = count_outcome outcome (record q {
  worker = idle;
  running = 0;
  last_result = some (result_of job completed_at outcome);
  dedup = put job.dedup_key (completed_at + cooldown) q.dedup;
})
finish_from cooldown outcome completed_at q _ = q

-- The last part of execute.
unfoldable pub finish : Duration → AuditOutcome → Time → FuzzQueue → FuzzQueue
unfolding finish_from
finish cooldown outcome completed_at q = finish_from cooldown outcome completed_at q q.worker

pub data FuzzStep : Type 0 where
  admits : BackgroundFuzzJob → Time → FuzzStep
  sends drops receives : ℕ → FuzzStep
  counts starts : FuzzStep
  finishes : AuditOutcome → Time → FuzzStep

-- A step of a goroutine that cannot go on changes nothing.
unfoldable pub fuzz_step : ℕ → Duration → FuzzQueue → FuzzStep → FuzzQueue
unfolding admit send drop receive count_sent start finish
fuzz_step capacity cooldown q (admits job now) = admit job now q
fuzz_step capacity cooldown q (sends n) = send capacity n q
fuzz_step capacity cooldown q (drops n) = drop n q
fuzz_step capacity cooldown q (receives active_recalls) = receive active_recalls q
fuzz_step capacity cooldown q counts = count_sent q
fuzz_step capacity cooldown q starts = start q
fuzz_step capacity cooldown q (finishes outcome completed_at) =
    finish cooldown outcome completed_at q

unfoldable pub fuzz_run : ℕ → Duration → FuzzQueue → List FuzzStep → FuzzQueue
unfolding fuzz_step
fuzz_run capacity cooldown q [] = q
fuzz_run capacity cooldown q (s ∷ rest) =
    fuzz_run capacity cooldown (fuzz_step capacity cooldown q s) rest
