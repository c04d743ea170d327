-- ===== src/ThreadPool/Round.antt =====
-- One round of a worker, against the same round on a queue that is a list of tasks.
use mathlib.Core.Option
use moonsugar.Prelude.{
  ℕ, ◌≡◌, inl, inr, refl, ap, ap₂, ◌∙◌, sym, subst, arith, Bool, Bool-cases, Option, none, some,
  List, [], ◌∷◌, ◌++◌, ◌==◌, if◌then◌else◌,
}
use moonsugar.Api.{null}
use moonsugar.Ring
use moonsugar.TaskQueue
use moonsugar.TaskQueue.{Task, TaskQueue, Store}
use moonsugar.TaskQueue.Refine.{
  IsReady, tasks_of, Queue, put, get, enqueue_refines, dequeue_refines,
}
use moonsugar.ThreadPool.{World, satisfied, notify_parent, work_on, round}

-- The queue, the tasks named as parents, and the calls so far.
pub record Plan : Type 0 where
  pub queue : Queue
  pub family : ℕ → Task
  pub calls : List (ℕ × ℕ)

abbrev pub plan_with : Queue → (ℕ → Task) → List (ℕ × ℕ) → Plan
plan_with queue family calls = record { queue = queue; family = family; calls = calls }

abbrev pub plan_of : {U : Type 0} → World U → Plan
plan_of w = record { queue = tasks_of w.store w.pool.tasks; family = w.family; calls = w.calls }

-- The parent of a task that is done has one dependency less, and joins the queue when it has none left.
unfoldable pub notify : ℕ → Plan → ℕ → Plan
notify cap plan parent =
    let task = satisfied (plan.family parent) in
    let told = record plan { family = λ p. if p == parent then task else plan.family p } in
    if parent == null
    then plan
    else if task.unsatisfied_dependencies == 0
    then record told { queue = (put cap plan.queue task).1 }
    else told

-- A task without dependencies left is called; any other is dropped.
unfoldable pub call : ℕ → Plan → Option Task → Plan
unfolding notify
call cap plan none = plan
call cap plan (some task) =
    if task.unsatisfied_dependencies == 0
    then notify cap (record plan { calls = plan.calls ++ ((task.handler, task.ctx) ∷ []) })
        task.parent
    else plan

unfoldable pub plan_round : ℕ → Plan → Plan
unfolding call
plan_round cap plan =
    let (task, rest) = get plan.queue in call cap (record plan { queue = rest }) task

-- The capacity of the queue, and the flag that ends the threads.
abbrev pub kept : {U : Type 0} → World U → ℕ × Bool
kept w = (w.pool.tasks.queue.capacity, w.pool.must_join)

dequeue_capacity : (q : TaskQueue) → (TaskQueue.dequeue q).1.queue.capacity ≡ q.queue.capacity
unfolding TaskQueue.dequeue Ring.dequeue
dequeue_capacity q = ground arith

enqueue_capacity :
    (store : Store) (q : TaskQueue) (task : Task)
    → (TaskQueue.enqueue store q task).2.queue.capacity ≡ q.queue.capacity
unfolding TaskQueue.enqueue Ring.enqueue
enqueue_capacity store q task = ground arith

module _ {U : Type 0} (w : World U) (ready : IsReady w.pool.tasks) where
  notify_parent-plan :
      (parent : ℕ)
      → (plan_of (notify_parent w parent) ≡ notify w.pool.tasks.queue.capacity (plan_of w) parent)
        × IsReady (notify_parent w parent).pool.tasks
        × (kept (notify_parent w parent) ≡ kept w)
  unfolding notify_parent notify
  notify_parent-plan parent = elim (Bool-cases (parent == null)) [
    | inl t ↦ rw t (refl, ready, refl)
    | inr f ↦ elim (Bool-cases ((satisfied (w.family parent)).unsatisfied_dependencies == 0)) [
      | inl t ↦
          let (same, ready') =
            enqueue_refines w.store w.pool.tasks ready (satisfied (w.family parent)) in
          rw (f, t)
            (
              ap
                  (λ (o : Bool × Queue).
                    plan_with o.1
                      (λ p. if p == parent then satisfied (w.family parent) else w.family p)
                      w.calls)
                  same,
              ready',
              ap (λ c. (c, w.pool.must_join))
                  (enqueue_capacity w.store w.pool.tasks (satisfied (w.family parent))),
            )
      | inr left ↦ rw (f, left) (refl, ready, refl)
    ]
  ]

-- A handler that leaves alone what the thread pool works on: it changes what is its own, and nothing else.
abbrev pub IsQuiet : {U : Type 0} → (ℕ → ℕ → World U → World U) → Type 0
IsQuiet {U} handle =
    (h c : ℕ) (w : World U) → handle h c w ≡ record w { user = (handle h c w).user }

module _ {U : Type 0} (handle : ℕ → ℕ → World U → World U) (quiet : IsQuiet handle) where
  work_on-plan :
      (w : World U)
      → IsReady w.pool.tasks
      → (t : Option ℕ)
      → (plan_of (work_on handle w t)
          ≡ call w.pool.tasks.queue.capacity (plan_of w) (Option.map w.store t))
        × IsReady (work_on handle w t).pool.tasks
        × (kept (work_on handle w t) ≡ kept w)
  unfolding work_on call
  work_on-plan w ready none = (refl, ready, refl)
  work_on-plan w ready (some t) = elim (Bool-cases ((w.store t).unsatisfied_dependencies == 0)) [
    | inl done ↦ rw done (
        subst
          (λ (x : World U).
            (plan_of (notify_parent x (x.store t).parent)
              ≡ notify w.pool.tasks.queue.capacity (plan_of called) (w.store t).parent)
            × IsReady (notify_parent x (x.store t).parent).pool.tasks
            × (kept (notify_parent x (x.store t).parent) ≡ kept w))
          (sym (quiet (w.store t).handler (w.store t).ctx called))
          (notify_parent-plan
            (record called { user = (handle (w.store t).handler (w.store t).ctx called).user })
            ready (w.store t).parent))
    | inr left ↦ rw left (refl, ready, refl)
  ]
    where
      called : World U
      called = record w { calls = w.calls ++ (((w.store t).handler, (w.store t).ctx) ∷ []) }

  -- Where the handlers leave the pool and its tasks alone, one round of a worker does to the queue, to the tasks named
  -- as parents and to the calls what the round on the list of waiting tasks does, and keeps the queue ready, its
  -- capacity and the flag that ends the threads.
  pub round_refines :
      (w : World U)
      → IsReady w.pool.tasks
      → (plan_of (round handle w) ≡ plan_round w.pool.tasks.queue.capacity (plan_of w))
        × IsReady (round handle w).pool.tasks
        × (kept (round handle w) ≡ kept w)
  unfolding round plan_round
  round_refines w ready =
      let (same, ready') = dequeue_refines w.store w.pool.tasks ready in
      let (t, tasks) = TaskQueue.dequeue w.pool.tasks in
      let (plan, ready'', join) =
        work_on-plan (record w { pool = record w.pool { tasks = tasks } }) ready' t in
      (
        plan
            ∙ ap₂ (λ cap (o : Option Task × Queue). call cap (plan_with o.1 w.family w.calls) o.0)
                (dequeue_capacity w.pool.tasks) same,
        ready'',
        join ∙ ap (λ c. (c, w.pool.must_join)) (dequeue_capacity w.pool.tasks),
      )
