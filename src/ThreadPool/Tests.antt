-- ===== src/ThreadPool/Tests.antt =====
-- A pool whose queue has room for four tasks and holds two children of a task at 9000, and the theorems at it.
use moonsugar.Prelude.{ℕ, ◌+◌, ◌≡◌, refl, arith, false, if◌then◌else◌, [], ◌∷◌, ◌==◌}
use moonsugar.Ring
use moonsugar.Ring.Fifo.{contents, items}
use moonsugar.TaskQueue
use moonsugar.TaskQueue.{Task, TaskQueue}
use moonsugar.TaskQueue.Refine.{IsReady, tasks_of}
use moonsugar.ThreadPool.{World, round, thread_main}
use moonsugar.ThreadPool.Round.{IsQuiet, plan_of, plan_round, kept, round_refines}
use moonsugar.ThreadPool.Family.{child, no_child, released, calls_of, family_completes}

abbrev first_child : Task
first_child = record { handler = 1; parent = 9000; ctx = 11; unsatisfied_dependencies = 0 }

abbrev second_child : Task
second_child = record { handler = 2; parent = 9000; ctx = 22; unsatisfied_dependencies = 0 }

abbrev parent : Task
parent = record { handler = 3; parent = 0; ctx = 33; unsatisfied_dependencies = 2 }

abbrev two_waiting : TaskQueue
two_waiting = record {
  store = 4096;
  queue = record { count = 2; windex = 2; capacity = 4; item_size = 32; values = 4096 };
}

abbrev world : World ℕ
world = record {
  pool = record { threads = 64; must_join = false; tasks = two_waiting; thread_count = 1 };
  store = λ pointer. if pointer == 4096 then first_child else second_child;
  family = λ _. parent;
  calls = [];
  user = 0;
}

-- A handler that adds its context to a number.
abbrev count : ℕ → ℕ → World ℕ → World ℕ
count handler ctx w = record w { user = w.user + ctx }

count-IsQuiet : IsQuiet count
count-IsQuiet h c w = refl

two_waiting-IsReady : IsReady two_waiting
two_waiting-IsReady = record {
  valid = record {
    exponent = 2;
    exponent-lt = omega arith;
    power = refl;
    counted = omega arith;
    word = omega arith;
  };
  fits = omega arith;
}

-- The children are called first, and the parent last.
in_order : (thread_main count 3 world).calls ≡ (1, 11) ∷ (2, 22) ∷ (3, 33) ∷ []
unfolding thread_main TaskQueue.dequeue TaskQueue.enqueue Ring.dequeue Ring.enqueue
in_order = refl

round_refines_example :
    (plan_of (round count world) ≡ plan_round 4 (plan_of world))
    × IsReady (round count world).pool.tasks
    × (kept (round count world) ≡ kept world)
round_refines_example = round_refines count count-IsQuiet world two_waiting-IsReady

family_completes_example :
    let w = thread_main count 2 world in
    (tasks_of w.store w.pool.tasks ≡ released parent ∷ [])
    × (w.calls ≡ calls_of (first_child ∷ second_child ∷ []))
unfolding contents items
family_completes_example =
    family_completes count count-IsQuiet world 9000 first_child (second_child ∷ []) []
      two_waiting-IsReady refl (omega arith) refl (child refl refl (child refl refl no_child)) refl
      (omega arith)
