-- ===== src/FreeList.antt =====
-- src/memory/freelist.c: the free memory of a heap or an arena, as nodes that stand in that memory and are
-- linked both ways. The memory is a function from addresses to the node that would be read there. Addresses
-- do not wrap inside the memory, sizes are `size_t`. The walks over the list have fuel, and `none` is where
-- it runs out or a node would be written over one that is still read.
pub mod Links
pub mod Order
pub mod Blocks
pub mod Find
pub mod Split
pub mod Take
pub mod Before
pub mod Give
pub mod Merge
pub mod Free
pub mod Stale
pub mod Alone
mod Tests
use moonsugar.Prelude.{
  ℕ, zero, suc, ◌+◌, ◌-◌, ◌^◌, ◌%◌, Bool, true, false, not, ◌&&◌, ◌||◌, Option, none, some, u64,
  sub64, ltb, leb, ◌==◌, if◌then◌else◌, ◌>>=◌,
}
use moonsugar.Api.{null}
use moonsugar.Util.{align_sz}

-- `ms_free_list_node`.
pub record Node : Type 0 where
  pub next : ℕ
  pub prev : ℕ
  pub size : ℕ

-- `sizeof(ms_free_list_node)` and `sizeof(ms_header)`.
abbrev pub node_size : ℕ
node_size = 24

abbrev pub header_size : ℕ
header_size = 16

abbrev pub Memory : Type 0
Memory = ℕ → Node

-- `ms_free_list`, with the memory its nodes stand in; `user` is what the callbacks work on.
pub record FreeList (U : Type 0) : Type 0 where
  pub first : ℕ
  pub mem : Memory
  pub user : U

abbrev pub write : Memory → ℕ → Node → Memory
write mem at node a = if a == at then node else mem a

-- `if(p) p->next = q` and `if(q) q->prev = p`.
abbrev pub set_next : Memory → ℕ → ℕ → Memory
set_next mem p q = if p == null then mem else write mem p (record (mem p) { next = q })

abbrev pub set_prev : Memory → ℕ → ℕ → Memory
set_prev mem q p = if q == null then mem else write mem q (record (mem q) { prev = p })

abbrev pub set_size : Memory → ℕ → ℕ → Memory
set_size mem a size = write mem a (record (mem a) { size = size })

-- `NODE_END`.
abbrev pub node_end : Memory → ℕ → ℕ
node_end mem a = a + (mem a).size

-- `compute_free_list_node_size`.
unfoldable pub compute_node_size : ℕ → ℕ → ℕ
compute_node_size alloc_size alignment =
    align_sz (u64 (sub64 (u64 (alloc_size + header_size + alignment)) 1)) alignment

-- `detach_node`.
pub detach_node : {U : Type 0} → FreeList U → ℕ → FreeList U
detach_node list chunk = record list {
  first = (if list.first == chunk then (list.mem chunk).next else list.first);
  mem =
      set_prev (set_next list.mem (list.mem chunk).prev (list.mem chunk).next) (list.mem chunk).next
        (list.mem chunk).prev;
}

-- The first loop of `find_smallest_node`.
pub first_fit : ℕ → Memory → ℕ → ℕ → Option ℕ
first_fit zero mem chunk aligned_count = none
first_fit (suc fuel) mem chunk aligned_count =
    let rest = first_fit fuel mem (mem chunk).next aligned_count in
    if chunk == null
    then some null
    else if leb aligned_count (mem chunk).size
    then some chunk
    else rest

-- Its second loop.
pub refine : ℕ → Memory → ℕ → ℕ → ℕ → Option ℕ
refine zero mem chunk smallest aligned_count = none
refine (suc fuel) mem chunk smallest aligned_count =
    let rest =
      refine fuel mem (mem chunk).next
        (if leb aligned_count (mem chunk).size then chunk else smallest) aligned_count in
    if chunk == null || not (ltb (mem chunk).size (mem smallest).size) then some smallest else rest

-- `find_smallest_node`.
pub find_smallest_node : ℕ → Memory → ℕ → ℕ → Option ℕ
unfolding first_fit refine
find_smallest_node fuel mem first aligned_count =
    first_fit fuel mem first aligned_count >>= λ smallest.
    if smallest == null
    then some null
    else refine fuel mem (mem smallest).next smallest aligned_count

-- `find_prev_node`. It reads the size of `subject`, which is not in the list yet.
pub find_prev_node : ℕ → Memory → ℕ → ℕ → Option ℕ
find_prev_node zero mem c subject = none
find_prev_node (suc fuel) mem c subject =
    let rest = find_prev_node fuel mem (mem c).next subject in
    if c == null
    then some null
    else if leb (node_end mem c) subject
    then (if (mem c).next == null || leb (node_end mem subject) (mem c).next then some c else rest)
    else some null

-- `coalesce`.
pub coalesce : {U : Type 0} → FreeList U → ℕ → ℕ → FreeList U
unfolding detach_node
coalesce list left right =
    let detached = detach_node list right in
    record detached {
      mem = set_size detached.mem left (u64 ((detached.mem left).size + (detached.mem right).size));
    }

-- `try_coalesce_neighbors`: the first node of the sequence, and the list.
pub try_coalesce_neighbors : {U : Type 0} → FreeList U → ℕ → ℕ × FreeList U
unfolding coalesce
try_coalesce_neighbors list chunk =
    let prev = (list.mem chunk).prev in
    let next = (list.mem chunk).next in
    let merged =
      if not (next == null) && next == node_end list.mem chunk
      then coalesce list chunk next
      else list in
    let touches = not (prev == null) && chunk == node_end merged.mem prev in
    (if touches then prev else chunk, if touches then coalesce merged prev chunk else merged)

module _ {U : Type 0} (on_before_node_create on_before_alloc_from_node : ℕ → ℕ → U → U) where
  -- `ms_free_list_create_node`.
  pub create_node : FreeList U → ℕ → ℕ → ℕ → ℕ → FreeList U
  create_node list chunk prev next size =
      let mem = write list.mem chunk (record { next = next; prev = prev; size = size }) in
      record {
        first = (if prev == null then chunk else list.first);
        mem = set_prev (set_next mem prev chunk) next chunk;
        user = on_before_node_create chunk node_size list.user;
      }

  -- `malloc_node`, where the remaining node does not lie over the chunk's own: the size allocated, and the list.
  pub cut_node : FreeList U → ℕ → ℕ → ℕ × FreeList U
  unfolding create_node detach_node
  cut_node list chunk total_alloc_size =
      let remaining_size = (list.mem chunk).size - total_alloc_size in
      let split =
        create_node list (chunk + total_alloc_size) chunk (list.mem chunk).next remaining_size in
      if leb node_size remaining_size
      then (
        total_alloc_size,
        detach_node
            (record split {
              mem = set_size split.mem chunk ((split.mem chunk).size - remaining_size);
            })
            chunk,
      )
      else ((list.mem chunk).size, detach_node list chunk)

  -- `malloc_node`. A remaining node that begins inside the chunk's own node would be written over the size and
  -- the links that are still read: `none`.
  pub malloc_node : FreeList U → ℕ → ℕ → Option (ℕ × FreeList U)
  unfolding cut_node
  malloc_node list chunk total_alloc_size =
      if leb node_size ((list.mem chunk).size - total_alloc_size) && ltb total_alloc_size node_size
      then none
      else some (cut_node list chunk total_alloc_size)

  -- `ms_free_list_malloc`: the chunk or NULL, the total size, and the list.
  pub malloc : ℕ → FreeList U → ℕ → ℕ → Option (ℕ × ℕ × FreeList U)
  unfolding malloc_node find_smallest_node compute_node_size
  malloc fuel list count alignment =
      let total_size = compute_node_size count alignment in
      find_smallest_node fuel list.mem list.first total_size >>= λ chunk.
      if chunk == null
      then some (null, total_size, list)
      else (let told = record list {
        user = on_before_alloc_from_node chunk total_size list.user;
      } in
          malloc_node told chunk total_size >>= λ out. some (chunk, out.0, out.1))

  -- `ms_free_list_free`. Where the list is empty it takes the size that stands in the memory.
  pub free : ℕ → FreeList U → ℕ → ℕ → Option (FreeList U)
  unfolding find_prev_node create_node try_coalesce_neighbors
  free fuel list node size =
      if list.first == null
      then some (create_node list node null null (list.mem node).size)
      else (find_prev_node fuel list.mem list.first node >>= λ prev.
          let next = if prev == null then list.first else (list.mem prev).next in
          some (try_coalesce_neighbors (create_node list node prev next size) node).1)
