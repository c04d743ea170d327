-- ===== src/ThreadPool.antt =====
-- src/thread/pool.c: a pool of threads that work through a task queue. `family` is the memory of the tasks
-- that the tasks in the queue name as parents, and `calls` the handlers called so far, each with its context.
-- `handle` is the code behind a handler and a context: it may change all of the world, `user` is what it has to
-- itself. A round of a worker is one step here, and the rounds of all
-- workers follow one another. `spawn` is what starting each thread answers.
pub mod Round
pub mod Family
mod Tests
use moonsugar.Prelude.{
  ℕ, zero, suc, ◌+◌, ◌-◌, ◌*◌, ◌^◌, ◌%◌, Bool, true, false, not, Option, none, some, List, [], ◌∷◌,
  ◌++◌, u64, ◌==◌, if◌then◌else◌,
}
use moonsugar.Api.{MsResult, success, memory, invalid_argument, Allocator, default_alignment, null}
use moonsugar.TaskQueue
use moonsugar.TaskQueue.{Task, TaskQueue, Store, zero_ring}

-- `ms_thread_pool`, less its allocator.
pub record ThreadPool : Type 0 where
  pub threads : ℕ
  pub must_join : Bool
  pub tasks : TaskQueue
  pub thread_count : ℕ

-- `ms_thread_pool_description`, less its allocator.
pub record ThreadPoolDescription : Type 0 where
  pub thread_count : ℕ
  pub task_capacity : ℕ

-- A pool and the memory it works on.
pub record World (U : Type 0) : Type 0 where
  pub pool : ThreadPool
  pub store : Store
  pub family : ℕ → Task
  pub calls : List (ℕ × ℕ)
  pub user : U

abbrev pub zero_queue : TaskQueue
zero_queue = record { store = null; queue = zero_ring }

-- The loop of `ms_thread_pool_construct`, on the threads from `i` on: the first result that is no success.
pub spawn_from : (ℕ → MsResult) → ℕ → ℕ → MsResult
spawn_from spawn i zero = success
spawn_from spawn i (suc n) = first (spawn i) (spawn_from spawn (i + 1) n)
  where
    first : MsResult → MsResult → MsResult
    first success rest = rest
    first failed rest = failed

-- `ms_thread_pool_construct`; `thread_size` is `sizeof(ms_thread)`.
pub construct : Allocator → (ℕ → MsResult) → ℕ → ThreadPoolDescription → MsResult × ThreadPool
unfolding spawn_from
construct a spawn thread_size description =
    if description.thread_count == 0
    then (
      invalid_argument,
      record { threads = null; must_join = false; tasks = zero_queue; thread_count = 0 },
    )
    else if threads == null
    then (memory, made zero_queue)
    else queued (TaskQueue.construct a description.task_capacity)
  where
    threads : ℕ
    threads = a.allocate (u64 (thread_size * description.thread_count)) default_alignment

    made : TaskQueue → ThreadPool
    made tasks = record {
      threads = threads;
      must_join = false;
      tasks = tasks;
      thread_count = description.thread_count;
    }

    queued : MsResult × TaskQueue → MsResult × ThreadPool
    queued (success, tasks) = (spawn_from spawn 0 description.thread_count, made tasks)
    queued (failed, tasks) = (failed, made tasks)

-- `ms_thread_pool_destroy`, once the threads have joined; the second part is what is freed.
pub destroy : ThreadPool → ThreadPool × List ℕ
destroy pool =
    let (tasks, freed) = TaskQueue.destroy pool.tasks in
    (
      record { threads = null; must_join = true; tasks = tasks; thread_count = 0 },
      freed ++ (pool.threads ∷ []),
    )

-- `ms_thread_pool_dispatch`: a task with unsatisfied dependencies is left to the last of its children.
pub dispatch : {U : Type 0} → World U → Task → Bool × World U
dispatch w task =
    if task.unsatisfied_dependencies == 0
    then (let (done, store, tasks) = TaskQueue.enqueue w.store w.pool.tasks task in
        (done, record w { store = store; pool = record w.pool { tasks = tasks } }))
    else (true, w)

-- `ms_atomic_sub_fetch` of a parent's `uint16_t` counter.
abbrev pub satisfied : Task → Task
satisfied task = record task {
  unsatisfied_dependencies = (task.unsatisfied_dependencies + 2 ^ 16 - 1) % 2 ^ 16;
}

-- What a worker does for the parent of a task that is done.
pub notify_parent : {U : Type 0} → World U → ℕ → World U
notify_parent w parent =
    let task = satisfied (w.family parent) in
    let told = record w { family = λ p. if p == parent then task else w.family p } in
    let (_, store, tasks) = TaskQueue.enqueue w.store w.pool.tasks task in
    if parent == null
    then w
    else if task.unsatisfied_dependencies == 0
    then record told { store = store; pool = record w.pool { tasks = tasks } }
    else told

module _ {U : Type 0} (handle : ℕ → ℕ → World U → World U) where
  -- The body of the loop of `thread_main`, for the task taken. Its slot is read again after the handler has run.
  pub work_on : World U → Option ℕ → World U
  unfolding notify_parent
  work_on w none = w
  work_on w (some t) =
      let called = record w { calls = w.calls ++ (((w.store t).handler, (w.store t).ctx) ∷ []) } in
      let handled = handle (w.store t).handler (w.store t).ctx called in
      if (w.store t).unsatisfied_dependencies == 0
      then notify_parent handled (handled.store t).parent
      else w

  -- One round of the loop of `thread_main`.
  pub round : World U → World U
  unfolding work_on
  round w =
      let (t, tasks) = TaskQueue.dequeue w.pool.tasks in
      work_on (record w { pool = record w.pool { tasks = tasks } }) t

  -- The loop of `thread_main`, as many rounds as it is given, while the pool need not join.
  pub thread_main : ℕ → World U → World U
  unfolding round
  thread_main zero w = w
  thread_main (suc rounds) w =
      let rest = thread_main rounds (round w) in if w.pool.must_join then w else rest
