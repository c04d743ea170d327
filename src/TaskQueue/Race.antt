-- ===== src/TaskQueue/Race.antt =====
-- src/thread/task.c: `ms_task_queue_dequeue` holds the lock as a reader. Readers share the lock, and each runs
-- `ms_ring_dequeue`: it loads the ring, and stores what is left of it.
use moonsugar.Prelude.{
  ℕ, ◌<◌, ◌≡◌, ◌≢◌, refl, arith, true, Option, some, ltb, sub32, ◌==◌, if◌then◌else◌,
}
use moonsugar.Ring
use moonsugar.Ring.{Ring, address, read_slot}
use moonsugar.TaskQueue.{TaskQueue}

-- Where a reader is in `ms_task_queue_dequeue`.
pub data Reader : Type 0 where
  outside : Reader
  loaded : Ring → Reader
  returned : Option ℕ → Reader

-- The queue and its readers, which are numbers.
pub record Shared : Type 0 where
  pub queue : TaskQueue
  pub at : ℕ → Reader

abbrev pub moved : (ℕ → Reader) → ℕ → Reader → ℕ → Reader
moved at i p j = if j == i then p else at j

-- One reader loads the ring, or stores it. The shared lock holds none of them back.
pub data Step (s : Shared) : Shared → Type 0 where
  load : (i : ℕ) → s.at i ≡ outside → Step s (record s { at = moved s.at i (loaded s.queue.queue) })
  store :
      (i : ℕ) (r : Ring)
      → s.at i ≡ loaded r
      → Step s (record {
        queue = record s.queue { queue = (Ring.dequeue r).1 };
        at = moved s.at i (returned (Ring.dequeue r).0);
      })

-- The states that are reached from a queue with every reader outside.
pub data Reach (q : TaskQueue) : Shared → Type 0 where
  start : Reach q (record { queue = q; at = λ _. outside })
  next : {s t : Shared} → Reach q s → Step s t → Reach q t

-- Where a task is queued, any two readers can both be given the same one, while the queue counts one less.
pub taken_twice :
    (q : TaskQueue) (i j : ℕ)
    → 0 < q.queue.count
    → i ≢ j
    → (s : Shared) × Reach q s
      × (pointer : ℕ) × (s.at i ≡ returned (some pointer))
      × (s.at j ≡ returned (some pointer))
      × (s.queue.queue.count ≡ sub32 q.queue.count 1)
unfolding Ring.dequeue
taken_twice q i j some_task apart = (
  both,
  next (next (next (next start (load i refl)) (load j at_j)) (store i q.queue at_i))
      (store j q.queue still_j),
  address q.queue (read_slot q.queue),
  ground (arith, apart, given),
  ground (arith, given),
  rw some_left refl,
)
  where
    l1 : ℕ → Reader
    l1 = moved (λ _. outside) i (loaded q.queue)

    l2 : ℕ → Reader
    l2 = moved l1 j (loaded q.queue)

    l3 : ℕ → Reader
    l3 = moved l2 i (returned (Ring.dequeue q.queue).0)

    both : Shared
    both = record {
      queue = record q { queue = (Ring.dequeue q.queue).1 };
      at = moved l3 j (returned (Ring.dequeue q.queue).0);
    }

    at_j : l1 j ≡ outside
    at_j = ground (arith, apart)

    at_i : l2 i ≡ loaded q.queue
    at_i = ground (arith, apart)

    still_j : l3 j ≡ loaded q.queue
    still_j = ground (arith, apart)

    some_left : ltb 0 q.queue.count ≡ true
    some_left = ground (arith, some_task)

    given : (Ring.dequeue q.queue).0 ≡ some (address q.queue (read_slot q.queue))
    given = rw some_left refl
