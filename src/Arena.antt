-- ===== src/Arena.antt =====
-- src/memory/arena.c: an arena, a chain of nodes each with a free list in it. The nodes from `first` on are a
-- list; each has the memory of its own free list, whose callbacks do nothing. The headers are a function from
-- their addresses. `fresh` is what a block spells as nodes when the allocator gives it, and `stale` what the
-- bytes of a block spell as a node when it is given back: both are the doing of others. `none` is an access
-- through NULL or to memory that is freed, or where the fuel of a walk over a free list runs out.
pub mod Nodes
pub mod Malloc
pub mod Grow
pub mod Free
pub mod Chain
mod Tests
use moonsugar.Prelude.{
  ℕ, zero, suc, ◌+◌, ◌-◌, ◌*◌, Bool, true, false, not, ◌&&◌, Option, none, some, List, [], ◌∷◌,
  ◌++◌, map, u32, u64, sub64, ltb, leb, ◌==◌, if◌then◌else◌, ◌>>=◌,
}
use moonsugar.Api.{Allocator, default_alignment, null}
use moonsugar.Util.{align_sz, max as ms_max, test_mask}
use moonsugar.FreeList.{
  Node, Memory, FreeList, write, create_node, malloc as list_malloc, free as list_free,
}
use moonsugar.Heap.{Header, header_at, place}

-- `sizeof(ms_arena_node)` and `MS_ARENA_STICKY_BIT`.
abbrev pub arena_node_size : ℕ
arena_node_size = 56

abbrev pub sticky_bit : ℕ
sticky_bit = 1

-- `ms_arena_node`, with its address.
pub record ArenaNode : Type 0 where
  pub at : ℕ
  pub free_list : FreeList (Unit {0})
  pub total_size : ℕ
  pub allocated_size : ℕ

-- `ms_arena`, less its allocator, and the headers in its memory.
pub record Arena : Type 0 where
  pub base_size : ℕ
  pub nodes : List ArenaNode
  pub flags : ℕ
  pub headers : ℕ → Header

-- `ms_arena_description`, less its allocator.
pub record ArenaDescription : Type 0 where
  pub base_size : ℕ
  pub flags : ℕ

-- `node->base`.
abbrev pub base_of : ArenaNode → ℕ
base_of node = node.at + arena_node_size

-- `DOES_PTR_BELONG`.
abbrev pub belongs : ArenaNode → ℕ → Bool
belongs node ptr = ltb (base_of node) ptr && ltb ptr (base_of node + node.total_size)

-- `on_before_node_create` and `on_before_alloc_from_node`.
abbrev pub no_callback : ℕ → ℕ → Unit {0} → Unit {0}
no_callback ptr size user = user

-- Whether empty nodes are kept.
abbrev pub is_sticky : Arena → Bool
is_sticky arena = test_mask arena.flags sticky_bit

-- `ms_arena_construct`, less the warning it may log.
pub construct : (ℕ → Header) → ArenaDescription → Arena
construct headers description = record {
  base_size = description.base_size;
  nodes = [];
  flags = description.flags;
  headers = headers;
}

-- `ms_arena_destroy`; the second part is the nodes that are freed.
pub destroy : Arena → Arena × List ℕ
destroy arena = (record arena { nodes = [] }, map (λ (node : ArenaNode). node.at) arena.nodes)

-- One free node over the whole of a node's memory.
abbrev pub whole : Memory → ℕ → ℕ → FreeList (Unit {0})
whole mem base size =
    create_node no_callback no_callback (record { first = null; mem = mem; user = tt }) base null
      null size

-- `create_arena_node`.
pub create_arena_node : Allocator → Memory → ℕ → Option ArenaNode
create_arena_node a fresh size =
    let next = a.allocate (u64 (size + arena_node_size)) default_alignment in
    if next == null
    then none
    else some (record {
      at = next;
      free_list = whole fresh (next + arena_node_size) size;
      total_size = size;
      allocated_size = 0;
    })

-- `allocate_from_node`: the pointer or NULL, the node and the headers.
pub allocate_from_node :
    ℕ → ArenaNode → (ℕ → Header) → ℕ → ℕ → Option (ℕ × ArenaNode × (ℕ → Header))
allocate_from_node fuel node headers count alignment =
    list_malloc no_callback no_callback fuel node.free_list count (u32 alignment) >>= λ out.
    let (chunk, chunk_size, list) = out in
    let (ptr, after) = place headers chunk chunk_size alignment in
    if chunk == null
    then some (null, record node { free_list = list }, headers)
    else some (
      ptr,
      record node { free_list = list; allocated_size = u64 (node.allocated_size + chunk_size) },
      after,
    )

-- The loop of `ms_arena_malloc`: NULL where no node gives the memory.
pub malloc_from :
    ℕ → List ArenaNode → (ℕ → Header) → ℕ → ℕ → Option (ℕ × List ArenaNode × (ℕ → Header))
unfolding allocate_from_node
malloc_from fuel [] headers count alignment = some (null, [], headers)
malloc_from fuel (node ∷ rest) headers count alignment =
    let pass_on = λ (node : ArenaNode).
      (malloc_from fuel rest headers count alignment >>= λ out.
      some (out.0, node ∷ out.1, out.2)) in
    if ltb (sub64 node.total_size node.allocated_size) count
    then pass_on node
    else (allocate_from_node fuel node headers count alignment >>= λ out.
        if out.0 == null then pass_on out.1 else some (out.0, out.1 ∷ rest, out.2))

-- `prev ? prev->total_size : arena->base_size` behind the loop.
pub last_total : List ArenaNode → ℕ → ℕ
last_total [] base_size = base_size
last_total (node ∷ rest) base_size = last_total rest node.total_size

pub new_node_size : Arena → ℕ → ℕ
unfolding last_total
new_node_size arena count = u64 (
    2
    * align_sz (ms_max (u64 (count * 8)) (last_total arena.nodes arena.base_size)) arena.base_size)

-- The end of `ms_arena_malloc`, with a new node.
pub malloc_new : Allocator → Memory → ℕ → Arena → ℕ → ℕ → Option (ℕ × Arena)
unfolding create_arena_node allocate_from_node new_node_size
malloc_new a fresh fuel arena count alignment =
    create_arena_node a fresh (new_node_size arena count) >>= λ node.
    allocate_from_node fuel node arena.headers count alignment >>= λ out.
    some (out.0, record arena { nodes = arena.nodes ++ (out.1 ∷ []); headers = out.2 })

-- `ms_arena_malloc`.
pub malloc : Allocator → Memory → ℕ → Arena → ℕ → ℕ → Option (ℕ × Arena)
unfolding malloc_from malloc_new
malloc a fresh fuel arena count alignment =
    let aligned = ms_max alignment default_alignment in
    if ltb 0 count
    then (malloc_from fuel arena.nodes arena.headers count aligned >>= λ out.
        let left = record arena { nodes = out.1; headers = out.2 } in
        if out.0 == null then malloc_new a fresh fuel left count aligned else some (out.0, left))
    else some (null, arena)

-- What `ms_arena_free` does in the node that the pointer belongs to.
pub free_in : ℕ → ArenaNode → (ℕ → Header) → ℕ → Node → Option ArenaNode
free_in fuel node headers ptr stale =
    let head = headers (header_at ptr) in
    let chunk = header_at ptr - head.padding in
    list_free no_callback no_callback fuel
      (record node.free_list { mem = write node.free_list.mem chunk stale }) chunk head.size
    >>= λ list.
        some
          (record node { free_list = list; allocated_size = sub64 node.allocated_size stale.size })

-- The loop of `ms_arena_free`: the nodes left, and those that are freed.
pub free_from :
    Bool → ℕ → List ArenaNode → (ℕ → Header) → ℕ → Node → Option (List ArenaNode × List ℕ)
unfolding free_in
free_from sticky fuel [] headers ptr stale = some ([], [])
free_from sticky fuel (node ∷ rest) headers ptr stale =
    let pass_on =
      (free_from sticky fuel rest headers ptr stale >>= λ out. some (node ∷ out.0, out.1)) in
    if belongs node ptr
    then (free_in fuel node headers ptr stale >>= λ after. some (
        if after.allocated_size == 0 && not sticky
        then ([], after.at ∷ [])
        else (after ∷ rest, [])))
    else pass_on

-- `ms_arena_free`, with the nodes that are freed.
pub free : ℕ → Arena → ℕ → Node → Option (Arena × List ℕ)
unfolding free_from
free fuel arena ptr stale =
    if ptr == null
    then some (arena, [])
    else (free_from (is_sticky arena) fuel arena.nodes arena.headers ptr stale >>= λ out.
        some (record arena { nodes = out.0 }, out.1))

-- `ms_arena_realloc`, less what it copies.
pub realloc : Allocator → Memory → ℕ → Arena → ℕ → ℕ → Node → Option (ℕ × Arena × List ℕ)
unfolding malloc free
realloc a fresh fuel arena ptr new_count stale =
    let hdr = arena.headers (header_at ptr) in
    let moved =
      (malloc a fresh fuel arena new_count hdr.alignment >>= λ out.
      if out.0 == null
      then none
      else (free fuel out.1 ptr stale >>= λ freed. some (out.0, freed.0, freed.1))) in
    if ptr == null
    then (malloc a fresh fuel arena new_count default_alignment >>= λ out. some (out.0, out.1, []))
    else if ltb 0 new_count
    then (if leb new_count hdr.size then some (ptr, arena, []) else moved)
    else (free fuel arena ptr stale >>= λ freed. some (null, freed.0, freed.1))

-- The loop of `ms_arena_clear`. Where the node is freed, its `next` is read from freed memory.
pub clear_from : Bool → List ArenaNode → Option (List ArenaNode)
clear_from sticky [] = some []
clear_from sticky (node ∷ rest) =
    let kept = record node {
      free_list =
          create_node no_callback no_callback node.free_list (base_of node) null null
            node.total_size;
      allocated_size = 0;
    } in
    let others = (clear_from sticky rest >>= λ nodes. some (kept ∷ nodes)) in
    if sticky then others else none

-- `ms_arena_clear`.
pub clear : Arena → Option Arena
unfolding clear_from
clear arena =
    clear_from (is_sticky arena) arena.nodes >>= λ nodes. some (record arena { nodes = nodes })
