-- ===== src/Heap/Malloc.antt =====
-- Where `ms_heap_malloc` places a block, and its header.
use moonsugar.Prelude.{
  ℕ, ◌+◌, ◌-◌, ◌^◌, ◌%◌, ◌≤◌, ◌<◌, ◌≡◌, ◌≢◌, ◌⊎◌, inl, inr, refl, ap, ◌∙◌, subst, arith, Bool, true,
  false, Option, some, length, u32, ltb, ◌==◌, if◌then◌else◌, ◌>>=◌,
}
use moonsugar.Api.{null}
use moonsugar.Util.{align_ptr}
use moonsugar.Util.Align.{two-pow-lt}
use moonsugar.FreeList.{FreeList, compute_node_size, header_size, malloc as list_malloc}
use moonsugar.FreeList.Links.{Nodes}
use moonsugar.FreeList.Blocks.{IsValid, Sorted, Sorted-le, Sorted-split}
use moonsugar.FreeList.Find.{AllSmall}
use moonsugar.FreeList.Take.{Taken, malloc_cases}
use moonsugar.Heap.Place.{compute_node_size_lem, aligned_at_least, PlacedAt, place_lem}
use moonsugar.Heap.{
  Heap, Header, Commitment, commit_node_memory, unless_trapped, place, header_at, malloc,
}

module _ (commits : ℕ → ℕ → Bool) where
  -- The pointer handed out lies behind the header, aligned, and its bytes end inside the chunk taken.
  pub record Placed (heap : Heap) (nodes : Nodes) (hi count k fuel : ℕ) (out : Option (ℕ × Heap))
      : Type 0 where
    pub taken :
        Taken
          (commit_node_memory commits)
          (commit_node_memory commits)
          nodes
          hi
          (compute_node_size count (2 ^ k))
          (list_malloc
            (commit_node_memory commits)
            (commit_node_memory commits)
            fuel
            heap.free_list
            count
            (2 ^ k))
    pub ptr : ℕ
    pub headers : ℕ → Header
    pub run :
        out
        ≡ unless_trapped commits taken.after.user
            (ptr, record heap { free_list = taken.after; headers = headers })
    pub aligned : ptr % 2 ^ k ≡ 0
    pub behind : taken.chunk + header_size ≤ ptr
    pub inside : ptr + count ≤ taken.chunk + taken.size
    pub header :
        headers (header_at ptr)
        ≡ record { size = taken.size; padding = header_at ptr - taken.chunk; alignment = 2 ^ k }
    pub others : (at : ℕ) → at ≢ header_at ptr → headers at ≡ heap.headers at

  -- `ms_heap_malloc` of some bytes, with an alignment of 2 ^ k from 8 to 2 ^ 31, on a heap whose free list is
  -- valid and which was not stopped, with fuel for one step more than the list has nodes, where the sizes and
  -- addresses fit their words. It returns NULL and leaves the heap, where no free block is large enough for
  -- the bytes, the header and the padding; or it takes a chunk from the free list and, unless committing its
  -- memory stops the program, returns an aligned pointer behind the header in the chunk, with all the bytes
  -- asked for inside it, and the header records the chunk. The header of no other pointer changes.
  pub malloc-Placed :
      (fuel : ℕ) (heap : Heap) (nodes : Nodes) (hi count k : ℕ)
      → IsValid heap.free_list nodes hi
      → heap.free_list.user.trapped ≡ false
      → length nodes < fuel
      → 0 < count
      → k < 32
      → 8 ≤ 2 ^ k
      → count + 2 ^ k + 16 ≤ 2 ^ 63
      → hi + 16 + 2 ^ k ≤ 2 ^ 64
      → ((malloc commits fuel heap count (2 ^ k) ≡ some (null, heap))
          × AllSmall nodes (compute_node_size count (2 ^ k)))
        ⊎ Placed heap nodes hi count k fuel (malloc commits fuel heap count (2 ^ k))
  unfolding malloc
  malloc-Placed fuel heap nodes hi count k v running enough some_bytes small least fits room =
      elim (malloc_cases (commit_node_memory commits) (commit_node_memory commits) fuel
        heap.free_list nodes hi count (2 ^ k) v enough (omega (arith, total))) [
          | inl (run, all_small) ↦ inl (step ∙ rw (run, running) refl, all_small)
          | inr t ↦ inr (placed t)
        ]
    where
      bound : (0 < 2 ^ k) × (2 ^ k < 2 ^ 32)
      bound = two-pow-lt k 32 small

      total : count + 15 + 2 ^ k ≤ compute_node_size count (2 ^ k)
      total = compute_node_size_lem k count small fits

      word : u32 (2 ^ k) ≡ 2 ^ k
      word = omega (arith, bound)

      positive : ltb 0 count ≡ true
      positive = ground arith

      finish : ℕ × ℕ × FreeList Commitment → Option (ℕ × Heap)
      finish (chunk, chunk_size, list) = unless_trapped commits list.user (
          if chunk == null then (null, record heap { free_list = list }) else (
            (place heap.headers chunk chunk_size (2 ^ k)).0,
            record heap {
              free_list = list;
              headers = (place heap.headers chunk chunk_size (2 ^ k)).1;
            },
          ))

      step : malloc commits fuel heap count (2 ^ k) ≡ (
          list_malloc
            (commit_node_memory commits)
            (commit_node_memory commits)
            fuel
            heap.free_list
            count
            (2 ^ k)
          >>= finish)
      step = rw (aligned_at_least k least, word, positive) refl

      placed :
          Taken
            (commit_node_memory commits)
            (commit_node_memory commits)
            nodes
            hi
            (compute_node_size count (2 ^ k))
            (list_malloc
              (commit_node_memory commits)
              (commit_node_memory commits)
              fuel
              heap.free_list
              count
              (2 ^ k))
          → Placed heap nodes hi count k fuel (malloc commits fuel heap count (2 ^ k))
      placed t = record {
        taken = t;
        ptr = ptr;
        headers = (place heap.headers t.chunk t.size (2 ^ k)).1;
        run = step ∙ ap (λ out. out >>= finish) t.run ∙ rw (not_null (where_chunk.0)) refl;
        aligned = at.aligned;
        behind = at.behind;
        inside = omega (arith, at.close, t.enough, total);
        header = at.header;
        others = at.others;
      }
        where
          ptr : ℕ
          ptr = align_ptr (t.chunk + header_size) (2 ^ k)

          parts :
              Sorted 1 t.from.front t.chunk
              × (24 ≤ t.from.size)
              × Sorted (t.chunk + t.from.size) t.from.back hi
          parts =
              Sorted-split 1 t.from.front t.chunk t.from.size t.from.back hi
                (subst (λ xs. Sorted 1 xs hi) t.from.at v.sorted)

          where_chunk : (0 < t.chunk) × (t.chunk ≤ hi)
          where_chunk = (
            Sorted-le 1 t.from.front t.chunk (parts.0),
            omega (arith, Sorted-le (t.chunk + t.from.size) t.from.back hi (parts.2)),
          )

          at : PlacedAt heap.headers t.chunk t.size k
          at = place_lem heap.headers t.chunk t.size k small (omega (arith, where_chunk.1))

          not_null : 0 < t.chunk → (t.chunk == null) ≡ false
          not_null h = ground arith
