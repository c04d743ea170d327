-- ===== src/TaskQueue/Refine.antt =====
-- The task queue behaves as a bounded first-in first-out queue of tasks.
use mathlib.Core.Option
use mathlib.Core.List.{append-nil, append_assoc}
use moonsugar.Prelude.{
  ℕ, ◌+◌, ◌-◌, ◌*◌, ◌≤◌, ◌<◌, ◌^◌, ◌≡◌, refl, ap, ◌∙◌, sym, arith, Bool, true, false, Option, none,
  some, List, [], ◌∷◌, ◌++◌, length, leb, ltb, if◌then◌else◌, Bool-cases, inl, inr, sub32, dec_lt,
}
use moonsugar.Api.{success, Allocator, default_alignment}
use moonsugar.Ring
use moonsugar.Ring.{Ring, RingDescription}
use moonsugar.Ring.Valid.{
  IsValid, Fits, enqueue-IsValid, dequeue-IsValid, capacity-lt, construct-IsValid,
  construct-Accepted,
}
use moonsugar.Ring.Fifo.{contents, length-contents, write, enqueue_appends, dequeue_first}
use moonsugar.TaskQueue.{
  Task, TaskQueue, Store, task_size, zero_ring, construct, fill, enqueue, enqueue_many, dequeue,
}

-- A queue whose ring is valid and whose items lie in one block.
pub record IsReady (q : TaskQueue) : Type 0 where
  pub valid : IsValid q.queue
  pub fits : Fits q.queue

abbrev pub tasks_of : Store → TaskQueue → List Task
tasks_of store q = contents store q.queue

-- The abstract queue.
abbrev pub Queue : Type 0
Queue = List Task

unfoldable pub put : ℕ → Queue → Task → Bool × Queue
put cap q task = if ltb (length q) cap then (true, q ++ (task ∷ [])) else (false, q)

unfoldable pub put_all : ℕ → Queue → List Task → Bool × Queue
put_all cap q tasks = if leb (length q + length tasks) cap then (true, q ++ tasks) else (false, q)

unfoldable pub get : Queue → Option Task × Queue
get [] = (none, [])
get (task ∷ q) = (some task, q)

ring_capacity : (r : Ring) → (Ring.enqueue r).1.capacity ≡ r.capacity
unfolding Ring.enqueue
ring_capacity r = ground arith

enqueue-Fits : {r : Ring} → Fits r → Fits (Ring.enqueue r).1
unfolding Ring.enqueue
enqueue-Fits f = ground arith

dequeue-Fits : {r : Ring} → Fits r → Fits (Ring.dequeue r).1
unfolding Ring.dequeue
dequeue-Fits f = ground arith

enqueue_full : (r : Ring) → ¬ (r.count < r.capacity) → Ring.enqueue r ≡ (none, r)
unfolding Ring.enqueue
enqueue_full r h = ground arith

dequeue_empty : (r : Ring) → ¬ (0 < r.count) → Ring.dequeue r ≡ (none, r)
unfolding Ring.dequeue
dequeue_empty r h = ground arith

free_slots : (r : Ring) → IsValid r → sub32 r.capacity r.count ≡ r.capacity - r.count
free_slots r v = omega (arith, v.counted, capacity-lt v)

enqueue_counts :
    (r : Ring)
    → IsValid r
    → r.count < r.capacity
    → ((Ring.enqueue r).1.count ≡ r.count + 1) × ((Ring.enqueue r).1.capacity ≡ r.capacity)
unfolding Ring.enqueue
enqueue_counts r v h = ground (arith, capacity-lt v)

-- What the loop has done when it has placed all tasks.
record Filled (store : Store) (r : Ring) (tasks : List Task) : Type 0 where
  store' : Store
  ring : Ring
  run : fill store r tasks ≡ some (store', ring)
  held : contents store' ring ≡ contents store r ++ tasks
  valid : IsValid ring
  fits : Fits ring

fill-Filled :
    (store : Store) (r : Ring) (tasks : List Task)
    → IsValid r
    → Fits r
    → r.count + length tasks ≤ r.capacity
    → Filled store r tasks
unfolding fill
fill-Filled store r [] v f room = record {
  store' = store;
  ring = r;
  run = refl;
  held = sym (append-nil _);
  valid = v;
  fits = f;
}
fill-Filled store r (task ∷ tasks) v f room =
    let (p, e, c) = enqueue_appends store v task f (omega arith) in
    let rest =
      fill-Filled (write store p task) (Ring.enqueue r).1 tasks (enqueue-IsValid v) (enqueue-Fits f)
        (omega (arith, enqueue_counts r v (omega arith))) in
    record {
      store' = rest.store';
      ring = rest.ring;
      run = rw (e, fill) rest.run;
      held = rest.held ∙ ap (λ q. q ++ tasks) c ∙ append_assoc (contents store r) (task ∷ []) tasks;
      valid = rest.valid;
      fits = rest.fits;
    }

-- A queue that holds nothing.
nil_of_length : (q : Queue) → length q ≡ 0 → q ≡ []
nil_of_length [] h = refl
nil_of_length (task ∷ q) h = absurd (omega arith)

module _ (store : Store) (q : TaskQueue) (ready : IsReady q) where
  -- `ms_task_queue_enqueue` answers as the abstract queue does, and leaves the queue holding what the
  -- abstract one holds: the task stands last where there is room, and else nothing changes.
  pub enqueue_refines :
      (task : Task)
      → let (done, store', q') = enqueue store q task in
        ((done, tasks_of store' q') ≡ put q.queue.capacity (tasks_of store q) task) × IsReady q'
  unfolding enqueue put
  enqueue_refines task = elim (dec_lt q.queue.count q.queue.capacity) [
    | yes h ↦
        let (p, e, c) = enqueue_appends store ready.valid task ready.fits h in
        (
          ground (arith, e, c, length-contents store q.queue),
          rw (e, enqueue)
              (record { valid = enqueue-IsValid ready.valid; fits = enqueue-Fits ready.fits }),
        )
    | no h ↦
        let e : (Ring.enqueue q.queue).0 ≡ none = ground (arith, enqueue_full q.queue h) in
        (
          ground (arith, enqueue_full q.queue h, length-contents store q.queue),
          rw (e, enqueue)
              (record { valid = enqueue-IsValid ready.valid; fits = enqueue-Fits ready.fits }),
        )
  ]

  -- `ms_task_queue_dequeue` hands out a pointer to the task that the abstract queue gives, and leaves
  -- the queue holding the rest.
  pub dequeue_refines :
      let (pointer, q') = dequeue q in
      ((Option.map store pointer, tasks_of store q') ≡ get (tasks_of store q)) × IsReady q'
  unfolding dequeue get
  dequeue_refines = elim (dec_lt 0 q.queue.count) [
    | yes h ↦
        let (p, e, c) = dequeue_first store ready.valid h in
        (
          rw (e, c) refl,
          record { valid = dequeue-IsValid ready.valid; fits = dequeue-Fits ready.fits },
        )
    | no h ↦
        let nothing =
          nil_of_length (tasks_of store q) (omega (arith, length-contents store q.queue, h)) in
        (rw (dequeue_empty q.queue h, nothing) refl, rw (dequeue_empty q.queue h) ready)
  ]

  -- `ms_task_queue_enqueue_many` never writes through NULL, and adds all tasks in order where there is
  -- room for all of them, else none.
  pub enqueue_many_refines :
      (tasks : List Task)
      → (out : Bool × Store × TaskQueue) × (enqueue_many store q tasks ≡ some out)
        × ((out.0, tasks_of out.1 out.2) ≡ put_all q.queue.capacity (tasks_of store q) tasks)
        × IsReady out.2
  unfolding enqueue_many put_all
  enqueue_many_refines tasks = elim (Bool-cases (leb (length tasks) (sub32 cap count))) [
    | inl room ↦
        let fit : count + length tasks ≤ cap = ground (arith, free_slots q.queue ready.valid) in
        let f = fill-Filled store q.queue tasks ready.valid ready.fits fit in
        (
          (true, f.store', record q { queue = f.ring }),
          rw (room, f.run) refl,
          ground (arith, f.held, length-contents store q.queue),
          record { valid = f.valid; fits = f.fits },
        )
    | inr none_left ↦ (
      (false, store, q),
      rw none_left refl,
      ground (arith, free_slots q.queue ready.valid, length-contents store q.queue),
      ready,
    )
  ]
    where
      open q.queue use {capacity as cap, count}

ring_of_construct :
    (a : Allocator) (capacity : ℕ) {q : TaskQueue}
    → construct a capacity ≡ (success, q)
    → Ring.construct a zero_ring (record { capacity = capacity; item_size = task_size })
      ≡ (success, q.queue)
unfolding construct
ring_of_construct a capacity e = ground arith

-- A queue that is constructed with success is ready and empty, where its tasks fill less than 2 ^ 32
-- bytes and the allocator's block ends within the address space.
pub construct-IsReady :
    (a : Allocator) (capacity : ℕ) (store : Store) {q : TaskQueue}
    → task_size * capacity < 2 ^ 32
    → a.allocate (task_size * capacity) default_alignment + task_size * capacity ≤ 2 ^ 64
    → construct a capacity ≡ (success, q)
    → IsReady q × (tasks_of store q ≡ []) × (q.queue.capacity ≡ capacity)
construct-IsReady a capacity store {q} small placed e =
    let ring = ring_of_construct a capacity e in
    let description : RingDescription = record { capacity = capacity; item_size = task_size } in
    let (valid, count, cap, _, _) =
      construct-IsValid a zero_ring description {r = q.queue} (omega arith) ring in
    let made = construct-Accepted a zero_ring description ring in
    (
      record { valid = valid; fits = ground (arith, made.same) },
      nil_of_length _ (length-contents store q.queue ∙ count),
      cap,
    )
