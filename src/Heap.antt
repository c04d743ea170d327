-- ===== src/Heap.antt =====
-- src/memory/heap.c: a heap over reserved memory, with a free list in it. `ms_reserve` is the address that
-- it answers with, `commits` says whether `ms_commit` succeeds; `ms_decommit` and `ms_release` answer nothing.
-- The headers are a function from their addresses. What the bytes of a block spell as a node, when it is given
-- back, is the caller's doing: `stale`. The contents of blocks are not modelled. `none` is where the program
-- is stopped, by `ms_fatal`, or where the fuel of a walk runs out.
pub mod Place
pub mod Malloc
mod Tests
use moonsugar.Prelude.{
  ℕ, zero, suc, ◌+◌, ◌-◌, ◌^◌, ◌%◌, Bool, true, false, not, ◌&&◌, Option, none, some, u32, u64,
  sub64, ltb, leb, ◌==◌, if◌then◌else◌, ◌>>=◌,
}
use moonsugar.Api.{MsResult, success, memory, default_alignment, null}
use moonsugar.Util.{align_ptr, max as ms_max}
use moonsugar.FreeList.{
  Node, Memory, FreeList, write, header_size, create_node, malloc as list_malloc, free as list_free,
}

-- `MS_HEAP_DEALLOC_THR`.
abbrev pub dealloc_thr : ℕ
dealloc_thr = 4194304

-- `ms_header`.
pub record Header : Type 0 where
  pub size : ℕ
  pub padding : ℕ
  pub alignment : ℕ

-- What the callbacks of the free list change of the heap; `trapped` is set by `ms_fatal`.
pub record Commitment : Type 0 where
  pub base : ℕ
  pub committed_size : ℕ
  pub trapped : Bool

-- `ms_heap`; its base and its committed size stand in the user data of its free list.
pub record Heap : Type 0 where
  pub size : ℕ
  pub commit_page_size : ℕ
  pub free_list : FreeList Commitment
  pub headers : ℕ → Header

-- `HEAP_COMMITTED_END`.
abbrev pub committed_end : Commitment → ℕ
committed_end c = c.base + c.committed_size

-- `DOES_PTR_BELONG`, and `ms_heap_owns`.
pub owns : Heap → ℕ → Bool
owns heap ptr = ltb heap.free_list.user.base ptr && ltb ptr (heap.free_list.user.base + heap.size)

-- `ms_heap_get_header`: where the header of a pointer stands.
abbrev pub header_at : ℕ → ℕ
header_at ptr = ptr - header_size

-- `decommit`.
abbrev pub decommit : Commitment → ℕ → Commitment
decommit c size = record c { committed_size = sub64 c.committed_size size }

-- The end of `ms_heap_free`: memory at the end of the heap is given back to the system.
pub trim : Memory → ℕ → Commitment → Commitment
trim mem chunk c =
    let extra = committed_end c - chunk - dealloc_thr in
    if (mem chunk).next == null
      && ltb dealloc_thr (mem chunk).size
      && ltb (chunk + dealloc_thr) (committed_end c)
    then (let less = decommit c extra in
        record less { committed_size = sub64 less.committed_size extra })
    else c

-- The header that `ms_heap_malloc` writes into the chunk that the free list gives, and the pointer behind it.
abbrev pub place : (ℕ → Header) → ℕ → ℕ → ℕ → ℕ × (ℕ → Header)
place headers chunk chunk_size alignment =
    let aligned_min_ptr = chunk + header_size in
    let aligned_ptr = align_ptr aligned_min_ptr alignment in
    let header : Header = record {
      size = chunk_size;
      padding = u32 (aligned_ptr - aligned_min_ptr);
      alignment = u32 alignment;
    } in
    (aligned_ptr, λ at. if at == header_at aligned_ptr then header else headers at)

module _ (commits : ℕ → ℕ → Bool) where
  -- `commit`.
  abbrev pub commit : Commitment → ℕ → ℕ → Commitment
  commit c start size =
      if commits start size
      then record c { committed_size = u64 (c.committed_size + size) }
      else record c { trapped = true }

  -- `commit_free_list_node_memory`, `on_before_node_create` and `on_before_alloc_from_node`.
  pub commit_node_memory : ℕ → ℕ → Commitment → Commitment
  commit_node_memory chunk size_to_commit c =
      if ltb (committed_end c) (chunk + size_to_commit)
      then commit c (committed_end c) (chunk + size_to_commit - committed_end c)
      else c

  -- Nothing follows `ms_fatal`.
  abbrev pub unless_trapped {ℓ} : {A : Type ℓ} → Commitment → A → Option A
  unless_trapped c a = if c.trapped then none else some a

  -- `ms_heap_construct`, on the memory that the system reserves.
  pub construct : (ℕ → ℕ) → Memory → (ℕ → Header) → Heap → ℕ → ℕ → Option (MsResult × Heap)
  unfolding commit_node_memory
  construct reserve mem headers heap size page_size =
      let list =
        create_node commit_node_memory commit_node_memory
          (record {
            first = null;
            mem = mem;
            user = record { base = reserve size; committed_size = 0; trapped = false };
          })
          (reserve size) null null size in
      if reserve size == null
      then some (memory, heap)
      else unless_trapped list.user (
        success,
        record { size = size; commit_page_size = page_size; free_list = list; headers = headers },
      )

  -- `ms_heap_destroy`, less the warning it may log; the second part is the memory that is released. The size of
  -- the first node is read, which is an access through NULL where no memory is free.
  pub destroy : Heap → Option (Heap × ℕ × ℕ)
  destroy heap =
      if heap.free_list.first == null
      then none
      else some (
        record heap {
          free_list = record heap.free_list {
            first = null;
            user = record heap.free_list.user { base = null; committed_size = 0 };
          };
        },
        heap.free_list.user.base,
        heap.size,
      )

  -- `ms_heap_malloc`.
  pub malloc : ℕ → Heap → ℕ → ℕ → Option (ℕ × Heap)
  unfolding commit_node_memory
  malloc fuel heap count alignment =
      let aligned = ms_max alignment default_alignment in
      if ltb 0 count
      then (list_malloc commit_node_memory commit_node_memory fuel heap.free_list count
            (u32 aligned)
          >>= λ out.
              let (chunk, chunk_size, list) = out in
              let (ptr, headers) = place heap.headers chunk chunk_size aligned in
              unless_trapped list.user (
                if chunk == null
                then (null, record heap { free_list = list })
                else (ptr, record heap { free_list = list; headers = headers })))
      else some (null, heap)

  -- `ms_heap_free`.
  pub free : ℕ → Heap → ℕ → Node → Option Heap
  unfolding commit_node_memory owns trim
  free fuel heap ptr stale =
      let head = heap.headers (header_at ptr) in
      let chunk = header_at ptr - head.padding in
      if owns heap ptr
      then (list_free commit_node_memory commit_node_memory fuel
            (record heap.free_list { mem = write heap.free_list.mem chunk stale }) chunk head.size
          >>= λ list.
              unless_trapped list.user
                (record heap { free_list = record list { user = trim list.mem chunk list.user } }))
      else some heap

  -- `realloc_from_free_list`.
  pub realloc_from_free_list : ℕ → Heap → ℕ → ℕ → Node → Option (ℕ × Heap)
  unfolding malloc free
  realloc_from_free_list fuel heap ptr new_count stale =
      let hdr = heap.headers (header_at ptr) in
      let available_size = sub64 (sub64 hdr.size hdr.padding) header_size in
      if ltb available_size new_count
      then (malloc fuel heap new_count hdr.alignment >>= λ out.
          if out.0 == null
          then none
          else (free fuel out.1 ptr stale >>= λ heap. some (out.0, heap)))
      else some (ptr, heap)

  -- `ms_heap_realloc`.
  pub realloc : ℕ → Heap → ℕ → ℕ → Node → Option (ℕ × Heap)
  unfolding malloc free realloc_from_free_list owns
  realloc fuel heap ptr new_count stale =
      if ptr == null
      then malloc fuel heap new_count default_alignment
      else if ltb 0 new_count
      then (if owns heap ptr then realloc_from_free_list fuel heap ptr new_count stale else none)
      else (free fuel heap ptr stale >>= λ heap. some (null, heap))
