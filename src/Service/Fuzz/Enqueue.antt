-- ===== src/Service/Fuzz/Enqueue.antt =====
-- The calls of `Enqueue` keep the queue orderly.
use eventframed.Prelude.{
  ℕ, zero, suc, [], ◌∷◌, ◌≡◌, inl, inr, refl, arith, ltb, eq_iff, length, length-append, Bool-cases,
  Option-cases,
}
use eventframed.Prelude.Pick.{pick}
use eventframed.Prelude.Dict.{Dict, get, get-put, get-remove}
use eventframed.Model.Snapshot.{Time, zero_time}
use eventframed.Service.Fuzz.{BackgroundFuzzJob}
use eventframed.Service.Fuzz.Queue.{FuzzQueue, sweep_dedup, admit, send, count_sent, drop}
use eventframed.Service.Fuzz.Live.{Orderly, held-sweep_dedup, tally-append, tally-pick}

module _ (capacity : ℕ) where
  pub admit-Orderly :
      (job : BackgroundFuzzJob) (now : Time) (q : FuzzQueue)
      → Orderly capacity q
      → Orderly capacity (admit job now q)
  unfolding admit
  admit-Orderly job now q o = elim (Option-cases (get job.dedup_key swept)) [
    | inl e ↦ record {
      marked = λ k. ground (
        arith,
        o.marked k,
        o.marked job.dedup_key,
        held-sweep_dedup now k q.dedup q.dedup,
        get-put job.dedup_key k zero_time swept,
        eq_iff job.dedup_key k,
      );
      room = rw e o.room;
      busy = rw e o.busy;
      balance = rw e o.balance;
    }
    | inr (t, e) ↦ record {
      marked = λ k. ground (arith, o.marked k, held-sweep_dedup now k q.dedup q.dedup);
      room = rw e o.room;
      busy = rw e o.busy;
      balance = rw e o.balance;
    }
  ]
    where
      swept : Dict Time
      swept = sweep_dedup now q.dedup q.dedup

  pub send-Orderly :
      (n : ℕ) (q : FuzzQueue) → Orderly capacity q → Orderly capacity (send capacity n q)
  unfolding send
  send-Orderly n q o = elim (Option-cases (pick n q.hands)) [
    | inl e ↦ rw (e, send) o
    | inr ((job, rest), e) ↦ elim (Bool-cases (ltb (length q.jobs) capacity)) [
      | inl free ↦
          rw (e, send)
            (rw free (record {
              marked = λ k.
                  omega
                    (arith, o.marked k, tally-pick k n q.hands e, tally-append k q.jobs (job ∷ []));
              room = ground (arith, length-append q.jobs (job ∷ []));
              busy = o.busy;
              balance = omega (arith, o.balance, length-append q.jobs (job ∷ []));
            }))
      | inr full ↦
          rw (e, send)
            (rw full (record {
              marked = λ k. omega (arith, o.marked k, tally-pick k n q.hands e);
              room = o.room;
              busy = o.busy;
              balance = o.balance;
            }))
    ]
  ]

  pub drop-Orderly : (n : ℕ) (q : FuzzQueue) → Orderly capacity q → Orderly capacity (drop n q)
  unfolding drop
  drop-Orderly n q o = elim (Option-cases (pick n q.dropping)) [
    | inl e ↦ rw (e, drop) o
    | inr ((job, rest), e) ↦
        rw (e, drop)
          (record {
            marked = λ k. ground (
              arith,
              o.marked k,
              tally-pick k n q.dropping e,
              get-remove job.dedup_key k q.dedup,
              eq_iff job.dedup_key k,
            );
            room = o.room;
            busy = o.busy;
            balance = o.balance;
          })
  ]

  pub count_sent-Orderly : (q : FuzzQueue) → Orderly capacity q → Orderly capacity (count_sent q)
  unfolding count_sent
  count_sent-Orderly q o = counted q.sent refl
    where
      counted : (n : ℕ) → q.sent ≡ n → Orderly capacity (count_sent q)
      counted zero e = rw (e, count_sent) o
      counted (suc n) e =
          rw (e, count_sent)
            (record {
              marked = o.marked;
              room = o.room;
              busy = o.busy;
              balance = omega (arith, o.balance, e);
            })
