-- ===== src/TaskQueue.antt =====
-- src/thread/task.c: the queue of tasks that the thread pool works through. The lock is held over the
-- whole of each operation, so an operation is one step here. `store` is the memory behind the
-- ring's item pointers, one task to a pointer.
pub mod Refine
pub mod Race
mod Tests
use moonsugar.Prelude.{
  ℕ, ◌*◌, Bool, true, false, Option, none, some, List, [], ◌∷◌, length, leb, sub32, u64, ◌==◌,
  if◌then◌else◌,
}
use moonsugar.Api.{MsResult, success, memory, Allocator, default_alignment, null}
use moonsugar.Ring
use moonsugar.Ring.{Ring}
use moonsugar.Ring.Fifo.{write}

-- `ms_task`. The pointers are numbers; the handler is the code behind one.
pub record Task : Type 0 where
  pub handler : ℕ
  pub parent : ℕ
  pub ctx : ℕ
  pub unsatisfied_dependencies : ℕ

-- `sizeof(ms_task)` and `sizeof(ms_task*)` where pointers have 64 bits.
abbrev pub task_size : ℕ
task_size = 32

abbrev pub pointer_size : ℕ
pointer_size = 8

-- `ms_task_queue`, less its lock.
pub record TaskQueue : Type 0 where
  pub store : ℕ
  pub queue : Ring

abbrev pub zero_ring : Ring
zero_ring = record { count = 0; windex = 0; capacity = 0; item_size = 0; values = null }

-- The description is the capacity.
unfoldable pub construct : Allocator → ℕ → MsResult × TaskQueue
construct a capacity =
    if store == null
    then (memory, record { store = store; queue = zero_ring })
    else made (Ring.construct a zero_ring (record { capacity = capacity; item_size = task_size }))
  where
    store : ℕ
    store = a.allocate (u64 (pointer_size * capacity)) default_alignment

    made : MsResult × Ring → MsResult × TaskQueue
    made (result, ring) = (result, record { store = store; queue = ring })

-- The freed pointers, in order.
unfoldable pub destroy : TaskQueue → TaskQueue × List ℕ
destroy q =
    let (ring, values) = Ring.destroy q.queue in
    (record { store = null; queue = ring }, q.store ∷ values ∷ [])

-- The memory that the tasks of a queue stand in.
abbrev pub Store : Type 0
Store = ℕ → Task

unfoldable pub enqueue : Store → TaskQueue → Task → Bool × Store × TaskQueue
enqueue store q task =
    let (item, ring) = Ring.enqueue q.queue in
    elim item [
      | some pointer ↦ (true, write store pointer task, record q { queue = ring })
      | none ↦ (false, store, record q { queue = ring })
    ]

-- The loop of `ms_task_queue_enqueue_many`; `none` is the write through NULL that its assertion guards.
fill : Store → Ring → List Task → Option (Store × Ring)
fill store r [] = some (store, r)
fill store r (task ∷ tasks) =
    let (item, r') = Ring.enqueue r in
    elim item [ some pointer ↦ fill (write store pointer task) r' tasks | none ↦ none ]

unfoldable pub enqueue_many : Store → TaskQueue → List Task → Option (Bool × Store × TaskQueue)
unfolding fill
enqueue_many store q tasks =
    if leb (length tasks) (sub32 q.queue.capacity q.queue.count)
    then elim (fill store q.queue tasks) [
      | some (store', ring) ↦ some (true, store', record q { queue = ring })
      | none ↦ none
    ]
    else some (false, store, q)

unfoldable pub dequeue : TaskQueue → Option ℕ × TaskQueue
dequeue q = let (item, ring) = Ring.dequeue q.queue in (item, record q { queue = ring })
