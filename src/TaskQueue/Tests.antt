-- ===== src/TaskQueue/Tests.antt =====
-- A task queue of two tasks, and the theorems at it.
use mathlib.Core.Option
use moonsugar.Prelude.{ℕ, ◌≡◌, refl, arith, Bool, false, some, [], ◌∷◌}
use moonsugar.Api.{Allocator}
use moonsugar.TaskQueue.{Task, TaskQueue, Store, enqueue, enqueue_many, dequeue}
use moonsugar.TaskQueue.Race.{Shared, Reach, returned, taken_twice}
use moonsugar.TaskQueue.Refine.{
  IsReady, tasks_of, put, put_all, get, enqueue_refines, dequeue_refines, enqueue_many_refines,
}

abbrev task : ℕ → Task
task n = record { handler = n; parent = 0; ctx = 0; unsatisfied_dependencies = 0 }

abbrev at_4096 : Allocator
at_4096 = record { allocate = λ _ _. 4096; reallocate = λ _ _. 0 }

abbrev fresh : TaskQueue
fresh = record {
  store = 4096;
  queue = record { count = 0; windex = 0; capacity = 2; item_size = 32; values = 4096 };
}

abbrev blank : Store
blank _ = task 0

fresh-IsReady : IsReady fresh
fresh-IsReady = record {
  valid = record {
    exponent = 1;
    exponent-lt = omega arith;
    power = refl;
    counted = omega arith;
    word = omega arith;
  };
  fits = omega arith;
}

third_is_refused :
    (enqueue_many blank fresh (task 1 ∷ task 2 ∷ task 3 ∷ []) ≡ some (false, blank, fresh))
unfolding enqueue_many
third_is_refused = refl

enqueue_refines_example :
    let (done, store', q') = enqueue blank fresh (task 1) in
    ((done, tasks_of store' q') ≡ put 2 (tasks_of blank fresh) (task 1)) × IsReady q'
enqueue_refines_example = enqueue_refines blank fresh fresh-IsReady (task 1)

enqueue_many_refines_example :
    (out : Bool × Store × TaskQueue) × (enqueue_many blank fresh (task 1 ∷ task 2 ∷ []) ≡ some out)
    × ((out.0, tasks_of out.1 out.2) ≡ put_all 2 (tasks_of blank fresh) (task 1 ∷ task 2 ∷ []))
    × IsReady out.2
enqueue_many_refines_example = enqueue_many_refines blank fresh fresh-IsReady (task 1 ∷ task 2 ∷ [])

dequeue_refines_example :
    let (pointer, q') = dequeue fresh in
    ((Option.map blank pointer, tasks_of blank q') ≡ get (tasks_of blank fresh)) × IsReady q'
dequeue_refines_example = dequeue_refines blank fresh fresh-IsReady

abbrev one_queued : TaskQueue
one_queued = record fresh { queue = record fresh.queue { count = 1; windex = 1 } }

taken_twice_example :
    (s : Shared) × Reach one_queued s
    × (pointer : ℕ) × (s.at 0 ≡ returned (some pointer))
    × (s.at 1 ≡ returned (some pointer))
    × (s.queue.queue.count ≡ 0)
taken_twice_example = taken_twice one_queued 0 1 (omega arith) (omega arith)
