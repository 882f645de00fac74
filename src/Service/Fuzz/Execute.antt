-- ===== src/Service/Fuzz/Execute.antt =====
-- The worker keeps the queue of background audits orderly, and so does any interleaving.
use eventframed.Prelude.{
  ℕ, ◌+◌, String, List, [], ◌∷◌, ◌≡◌, ◌≢◌, refl, arith, ◌==◌, eq_iff, All, if_elim,
}
use eventframed.Prelude.Dict.{get, put, get-put}
use eventframed.Model.Snapshot.{Time, Duration, zero_time}
use eventframed.Service.Fuzz.{
  BackgroundFuzzJob, AuditOutcome, audited, stale_snapshot, deadline_exceeded, canceled,
  other_error,
}
use eventframed.Service.Fuzz.Queue.{
  Worker, idle, received, auditing, FuzzQueue, new_queue, receive_from, receive, start_from, start,
  count_outcome, finish_from, finish, FuzzStep, admits, sends, drops, receives, counts, starts,
  finishes, fuzz_step, fuzz_run,
}
use eventframed.Service.Fuzz.Live.{tally, live, held, Orderly, Timed}
use eventframed.Service.Fuzz.Enqueue.{admit-Orderly, send-Orderly, drop-Orderly, count_sent-Orderly}

module _ (capacity : ℕ) where
  receive_from-Orderly :
      (q : FuzzQueue) (w : Worker) (jobs : List BackgroundFuzzJob)
      → q.worker ≡ w
      → q.jobs ≡ jobs
      → Orderly capacity q
      → Orderly capacity (receive_from q w jobs)
  unfolding receive_from
  receive_from-Orderly q idle (job ∷ jobs) e f o = record {
    marked = λ k. let m : live k q ≡ held (get k q.dedup) = o.marked k in ground arith;
    room = let room = o.room in ground arith;
    busy = let busy = o.busy in ground arith;
    balance = let balance = o.balance in ground arith;
  }
  receive_from-Orderly q idle [] e f o = o
  receive_from-Orderly q (received _) jobs e f o = o
  receive_from-Orderly q (auditing _) jobs e f o = o

  start_from-Orderly :
      (q : FuzzQueue) (w : Worker)
      → q.worker ≡ w
      → Orderly capacity q
      → Orderly capacity (start_from q w)
  unfolding start_from
  start_from-Orderly q idle e o = o
  start_from-Orderly q (received job) e o = record {
    marked = λ k. let m = o.marked k in ground arith;
    room = o.room;
    busy = refl;
    balance = let balance = o.balance in ground arith;
  }
  start_from-Orderly q (auditing _) e o = o

  finish_from-Orderly :
      (cooldown : Duration) (outcome : AuditOutcome) (t : Time) (q : FuzzQueue) (w : Worker)
      → t ≢ zero_time
      → q.worker ≡ w
      → Orderly capacity q
      → Orderly capacity (finish_from cooldown outcome t q w)
  unfolding finish_from count_outcome
  finish_from-Orderly cooldown outcome t q idle late e o = o
  finish_from-Orderly cooldown outcome t q (received job) late e o = o
  finish_from-Orderly cooldown outcome t q (auditing job) late e o = counted outcome
    where
      marked :
          (k : String)
          → tally k q.hands + tally k q.dropping + tally k q.jobs + 0
            ≡ held (get k (put job.dedup_key (t + cooldown) q.dedup))
      marked k = ground (
        arith,
        o.marked k,
        o.marked job.dedup_key,
        get-put job.dedup_key k (t + cooldown) q.dedup,
        eq_iff job.dedup_key k,
      )

      counted :
          (outcome : AuditOutcome)
          → Orderly capacity (finish_from cooldown outcome t q (auditing job))
      counted (audited _ _ _) = record {
        marked = marked;
        room = o.room;
        busy = refl;
        balance = let balance = o.balance in ground arith;
      }
      counted stale_snapshot = record {
        marked = marked;
        room = o.room;
        busy = refl;
        balance = let balance = o.balance in ground arith;
      }
      counted deadline_exceeded = record {
        marked = marked;
        room = o.room;
        busy = refl;
        balance = let balance = o.balance in ground arith;
      }
      counted canceled = record {
        marked = marked;
        room = o.room;
        busy = refl;
        balance = let balance = o.balance in ground arith;
      }
      counted other_error = record {
        marked = marked;
        room = o.room;
        busy = refl;
        balance = let balance = o.balance in ground arith;
      }

  receive-Orderly :
      (active_recalls : ℕ) (q : FuzzQueue)
      → Orderly capacity q
      → Orderly capacity (receive active_recalls q)
  unfolding receive
  receive-Orderly active_recalls q o =
      if_elim (Orderly capacity) (active_recalls == 0) _ _
        (λ _. receive_from-Orderly q q.worker q.jobs refl refl o) (λ _. o)

  module _ (cooldown : Duration) where
    fuzz_step-Orderly :
        (s : FuzzStep) (q : FuzzQueue)
        → Timed s
        → Orderly capacity q
        → Orderly capacity (fuzz_step capacity cooldown q s)
    unfolding fuzz_step start finish
    fuzz_step-Orderly (admits job now) q t o = admit-Orderly capacity job now q o
    fuzz_step-Orderly (sends n) q t o = send-Orderly capacity n q o
    fuzz_step-Orderly (drops n) q t o = drop-Orderly capacity n q o
    fuzz_step-Orderly (receives n) q t o = receive-Orderly n q o
    fuzz_step-Orderly counts q t o = count_sent-Orderly capacity q o
    fuzz_step-Orderly starts q t o = start_from-Orderly q q.worker refl o
    fuzz_step-Orderly (finishes outcome at) q t o =
        finish_from-Orderly cooldown outcome at q q.worker t refl o

    run_from-Orderly :
        (steps : List FuzzStep) (q : FuzzQueue)
        → All Timed steps
        → Orderly capacity q
        → Orderly capacity (fuzz_run capacity cooldown q steps)
    unfolding fuzz_run
    run_from-Orderly [] q t o = o
    run_from-Orderly (s ∷ steps) q t o =
        run_from-Orderly steps (fuzz_step capacity cooldown q s) t.1 (fuzz_step-Orderly s q t.0 o)

    -- After any interleaving of enqueuing calls with the worker, in which no audit ends at the zero
    -- time: with each key at most one job is on its way, queued or with the worker, and one is
    -- exactly if the key has a mark that does not cool down; the channel holds no more than its
    -- capacity; the queue shows as running exactly during an audit; and modulo 2^64, the jobs
    -- counted as enqueued, with those sent and not counted yet, are those queued, with the worker,
    -- completed, failed or stale.
    pub fuzz_run-Orderly :
        (steps : List FuzzStep)
        → All Timed steps
        → Orderly capacity (fuzz_run capacity cooldown new_queue steps)
    unfolding get
    fuzz_run-Orderly steps t =
        run_from-Orderly steps new_queue t
          (record { marked = λ k. ground arith; room = omega arith; busy = refl; balance = refl })
