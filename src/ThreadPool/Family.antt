-- ===== src/ThreadPool/Family.antt =====
-- A family of tasks: children that wait in the queue, and the parent that waits for them.
use mathlib.Core.List.{append_assoc}
use moonsugar.Prelude.{
  ℕ, zero, suc, ◌+◌, ◌<◌, ◌^◌, ◌≡◌, refl, ap, ap₂, ◌∙◌, arith, true, false, List, [], ◌∷◌, ◌++◌,
  length, length-append, ltb, ◌==◌, if◌then◌else◌,
}
use moonsugar.Api.{null}
use moonsugar.Ring.Fifo.{length-contents}
use moonsugar.TaskQueue.{Task}
use moonsugar.TaskQueue.Refine.{IsReady, tasks_of, Queue, put, get}
use moonsugar.ThreadPool.{World, satisfied, round, thread_main}
use moonsugar.ThreadPool.Round.{
  IsQuiet, Plan, plan_with, plan_of, notify, call, plan_round, round_refines,
}

-- Rounds on the list of waiting tasks.
rounds : ℕ → ℕ → Plan → Plan
rounds cap zero plan = plan
rounds cap (suc n) plan = rounds cap n (plan_round cap plan)

-- While the pool need not join, a worker does as many rounds as it is given.
thread_main-rounds :
    {U : Type 0} (handle : ℕ → ℕ → World U → World U) (quiet : IsQuiet handle) (n : ℕ) (w : World U)
    → IsReady w.pool.tasks
    → w.pool.must_join ≡ false
    → plan_of (thread_main handle n w) ≡ rounds w.pool.tasks.queue.capacity n (plan_of w)
unfolding thread_main rounds
thread_main-rounds handle quiet zero w ready on = refl
thread_main-rounds handle quiet (suc n) w ready on =
    let (same, ready', kept') = round_refines handle quiet w ready in
    let rest =
      thread_main-rounds handle quiet n (round handle w) ready' (ap (λ k. k.1) kept' ∙ on) in
    ap (λ b. plan_of (if b then w else thread_main handle n (round handle w))) on
    ∙ rest
    ∙ ap₂ (λ cap plan. rounds cap n plan) (ap (λ k. k.0) kept') same

-- Tasks that can be run, and that name the parent.
pub data Children (parent : ℕ) : List Task → Type 0 where
  no_child : Children parent []
  child :
      {task : Task} {tasks : List Task}
      → task.unsatisfied_dependencies ≡ 0
      → task.parent ≡ parent
      → Children parent tasks
      → Children parent (task ∷ tasks)

abbrev pub calls_of : List Task → List (ℕ × ℕ)
calls_of [] = []
calls_of (task ∷ tasks) = (task.handler, task.ctx) ∷ calls_of tasks

-- A task whose dependencies are satisfied.
abbrev pub released : Task → Task
released task = record task { unsatisfied_dependencies = 0 }

abbrev told : ℕ → (ℕ → Task) → ℕ → Task
told parent family p = if p == parent then satisfied (family parent) else family p

child_round :
    (cap : ℕ) (parent : ℕ) (task : Task) (q : Queue) (family : ℕ → Task) (calls : List (ℕ × ℕ))
    → task.unsatisfied_dependencies ≡ 0
    → task.parent ≡ parent
    → plan_round cap (plan_with (task ∷ q) family calls)
      ≡ notify cap (plan_with q family (calls ++ ((task.handler, task.ctx) ∷ []))) parent
unfolding plan_round call get
child_round cap parent task q family calls none_left named = rw (none_left, named) refl

module _ (cap : ℕ) (parent : ℕ) (real : ¬ (parent ≡ null)) where
  real-test : (parent == null) ≡ false
  real-test = ground arith

  told_parent : (family : ℕ → Task) → told parent family parent ≡ satisfied (family parent)
  told_parent family = let same : (parent == parent) ≡ true = ground arith in rw same refl

  notify_more :
      (q : Queue) (family : ℕ → Task) (calls : List (ℕ × ℕ)) (k : ℕ)
      → (family parent).unsatisfied_dependencies ≡ k + 2
      → k + 2 < 2 ^ 16
      → notify cap (plan_with q family calls) parent ≡ plan_with q (told parent family) calls
  unfolding notify
  notify_more q family calls k waits small =
      let left : ((satisfied (family parent)).unsatisfied_dependencies == 0) ≡ false =
        ground arith in
      rw (real-test, left) refl

  notify_last :
      (q : Queue) (family : ℕ → Task) (calls : List (ℕ × ℕ))
      → (family parent).unsatisfied_dependencies ≡ 1
      → length q < cap
      → notify cap (plan_with q family calls) parent
        ≡ plan_with (q ++ (released (family parent) ∷ [])) (told parent family) calls
  unfolding notify put
  notify_last q family calls waits room =
      let zero_left : (satisfied (family parent)).unsatisfied_dependencies ≡ 0 = omega arith in
      let free : ltb (length q) cap ≡ true = ground arith in
      let done : ((satisfied (family parent)).unsatisfied_dependencies == 0) ≡ true =
        ground arith in
      let last =
        ap
          (λ n.
            plan_with (q ++ (record (family parent) { unsatisfied_dependencies = n } ∷ []))
              (told parent family) calls)
          zero_left in
      rw (real-test, done, free) last

  -- After as many rounds as there are children, all children have been called, in order, and the parent waits
  -- last in the queue, its dependencies satisfied.
  family_rounds :
      (task : Task) (tasks : List Task) (rest : Queue) (family : ℕ → Task) (calls : List (ℕ × ℕ))
      → Children parent (task ∷ tasks)
      → (family parent).unsatisfied_dependencies ≡ length tasks + 1
      → length tasks + 1 < 2 ^ 16
      → length tasks + length rest < cap
      → let plan =
          rounds cap (suc (length tasks)) (plan_with ((task ∷ tasks) ++ rest) family calls) in
        (plan.queue ≡ rest ++ (released (family parent) ∷ []))
        × (plan.calls ≡ calls ++ calls_of (task ∷ tasks))
  unfolding rounds
  family_rounds task [] rest family calls (child none_left named _) waits small room =
      let one =
        child_round cap parent task rest family calls none_left named
        ∙ notify_last rest family (calls ++ ((task.handler, task.ctx) ∷ [])) waits (omega arith) in
      (ap (λ plan. plan.queue) one, ap (λ plan. plan.calls) one)
  family_rounds task (next ∷ tasks) rest family calls (child none_left named others) waits small
        room =
      let calls' = calls ++ ((task.handler, task.ctx) ∷ []) in
      let one =
        child_round cap parent task ((next ∷ tasks) ++ rest) family calls none_left named
        ∙ notify_more ((next ∷ tasks) ++ rest) family calls' (length tasks) (omega arith)
            (omega arith) in
      let (queue, others_called) =
        family_rounds next tasks rest (told parent family) calls' others
          (rw (told_parent family) (omega arith)) (omega arith) (omega arith) in
      (
        ap (λ plan. (rounds cap (suc (length tasks)) plan).queue) one
            ∙ queue
            ∙ ap (λ t. rest ++ (released t ∷ [])) (told_parent family),
        ap (λ plan. (rounds cap (suc (length tasks)) plan).calls) one
            ∙ others_called
            ∙ append_assoc calls ((task.handler, task.ctx) ∷ []) (calls_of (next ∷ tasks)),
      )

-- Where the handlers leave the pool and its tasks alone and the queue of a ready pool holds a family of children in front, all of them waiting for nothing, and their
-- parent waits for exactly them, a worker that does as many rounds as there are children calls all children, in the
-- order in which they wait, and nothing else, and the parent then stands last in the queue, its dependencies
-- satisfied.
pub family_completes :
    {U : Type 0} (handle : ℕ → ℕ → World U → World U) (quiet : IsQuiet handle) (w : World U)
    (parent : ℕ) (task : Task) (tasks : List Task) (rest : Queue)
    → IsReady w.pool.tasks
    → w.pool.must_join ≡ false
    → ¬ (parent ≡ null)
    → tasks_of w.store w.pool.tasks ≡ (task ∷ tasks) ++ rest
    → Children parent (task ∷ tasks)
    → (w.family parent).unsatisfied_dependencies ≡ length (task ∷ tasks)
    → length (task ∷ tasks) < 2 ^ 16
    → let w' = thread_main handle (length (task ∷ tasks)) w in
      (tasks_of w'.store w'.pool.tasks ≡ rest ++ (released (w.family parent) ∷ []))
      × (w'.calls ≡ w.calls ++ calls_of (task ∷ tasks))
family_completes handle quiet w parent task tasks rest ready on real held children waits small =
    let same =
      thread_main-rounds handle quiet (length (task ∷ tasks)) w ready on
      ∙ ap
          (λ queue.
            rounds w.pool.tasks.queue.capacity (length (task ∷ tasks))
              (plan_with queue w.family w.calls))
          held in
    let room : length tasks + length rest < w.pool.tasks.queue.capacity = omega (
      arith,
      ap length held,
      length-contents w.store w.pool.tasks.queue,
      length-append tasks rest,
      ready.valid.counted,
    ) in
    let (queue, calls) =
      family_rounds w.pool.tasks.queue.capacity parent real task tasks rest w.family w.calls
        children (omega arith) (omega arith) room in
    (ap (λ plan. plan.queue) same ∙ queue, ap (λ plan. plan.calls) same ∙ calls)
