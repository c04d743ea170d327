-- ===== src/Lib.antt =====
-- A verification library for moonsugar, a C library of containers, memory, threading and small services.
--
-- The program's parts and the files that model them (paths from the root of the repository):
--
-- - include/moonsugar/util.h: Util.antt. One function for each inline function and macro on unsigned words.
-- - include/moonsugar/api.h, include/moonsugar/memory.h: Api.antt. `MsResult` is `ms_result`. `Allocator` is
--   what a container sees of `ms_allocator`: the address that each request is answered with.
-- - src/containers/ring.c: Ring.antt. `ms_ring_enqueue` is `Ring.enqueue`, and so on: the operations keep the
--   words behind the prefix `ms_ring_`, here and in the files below.
-- - src/thread/task.c: TaskQueue.antt. The queue allocates the slots of its task store with a ring; the
--   tasks stand in a store, a function from addresses to tasks. An operation is one step; in
--   TaskQueue/Race.antt the readers of `ms_task_queue_dequeue`, which share their lock, interleave.
-- - src/thread/pool.c: ThreadPool.antt. A round of a worker is one step on the task queue; `family` is the memory
--   of the tasks named as parents, `calls` records the handlers called, and `handle` is the code of the handlers.
-- - src/containers/bit-array.c: BitArray.antt, src/containers/indexed-pool.c: IndexedPool.antt,
--   src/containers/auto-array.c: AutoArray.antt, src/containers/sparse-paged-array.c: SparseArray.antt,
--   src/containers/map.c: Map.antt, src/containers/paged-array.c: PagedArray.antt.
--   The words, pages or slots behind a pointer are a list.
-- - src/containers/pool.c: Pool.antt. The nodes stand in a memory, a function from a node to its `next`. The
--   allocator's answers are taken to be blocks, as the program takes them.
-- - src/memory/freelist.c: FreeList.antt. The nodes are read from a memory, a function from addresses to
--   nodes; the callbacks of the list's owner are arguments and work on the owner's state, `user`. A node that
--   would lie over another that is still read is `none`.
-- - src/memory/heap.c: Heap.antt. The heap passes the free list its callbacks, which commit memory.
-- - src/memory/arena.c: Arena.antt. A chain of nodes, each with a free list whose callbacks do nothing.
-- - src/memory/stack.c: Stack.antt. One allocation is one step.
-- - src/thread/spinlock.c: Spinlock.antt. Threads run the lock's loop and its release; `Step` is one atomic
--   operation of one thread, `Reach` the states of all interleavings.
-- - src/functional.c: Functional.antt. The callbacks that a map is given for the common types of keys.
-- - src/hash.c: Hash.antt. `XXH3_64bits` is an argument.
-- - src/path.c: Path.antt. Strings and buffers are lists of characters.
-- - src/config.c: Config.antt. The line buffer is a list of characters, and the callback a function.
-- - src/uri.c: Uri.antt. The output buffer is a list of characters, and `atoi` an argument.
-- - src/coroutine.c: Coroutine.antt. The handlers are a function that the scheduler is given.
-- - Prelude.antt holds the names all modules share, the list lemmas and the machine words; Bits.antt the
--   lemmas on the bits of a number.
--
-- An object that the program changes in place is passed and returned. A pointer is a number, 0 for NULL. A
-- w-bit integer is a number, with `% 2 ^ w` (`u32`, `u64`, `sub32`) where the program's arithmetic wraps.
-- Behaviour that C leaves undefined is `none`: an access outside a block, a shift as wide as its operand.
-- What memory holds when the allocator gives it is an argument, `fresh`. Assertions are hypotheses.
--
-- Loops are recursions on the number of rounds, which the program computes before the loop; no fuel is
-- needed there. `Coroutine.loop` has fuel, since a handler may never complete: one unit for each pass
-- and one for the end. `Map.set` and `PagedArray.append` recur on the list of the allocator's answers
-- to their growths. The walks over a free list, those of the arena's nodes included, have fuel: one
-- unit for each node and one for the end, so that one more than the length of the list is enough.
-- `thread_main` is given the number of its rounds.
--
-- Not modelled: the threads, mutexes and read-write locks and the log, which later work can
-- add; the contents of a heap's or an arena's blocks, the races on the committed top of a stack and those of
-- the workers of a pool within a round; the parts that only call the operating system or another library
-- (files, plugins, compression, system information).
pub mod Prelude
pub mod Bits
pub mod Util
pub mod Api
pub mod Ring
pub mod TaskQueue
pub mod BitArray
pub mod IndexedPool
pub mod AutoArray
pub mod SparseArray
pub mod Coroutine
pub mod Functional
pub mod Path
pub mod Map
pub mod FreeList
pub mod Heap
pub mod Spinlock
pub mod Stack
pub mod PagedArray
pub mod Pool
pub mod Config
pub mod Arena
pub mod ThreadPool
pub mod Uri
pub mod Hash
