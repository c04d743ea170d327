-- ===== src/Heap/Place.antt =====
-- Where a block and its header are placed in a chunk of free memory, by the heap and by the arena.
use moonsugar.Prelude.{
  ℕ, ◌+◌, ◌-◌, ◌^◌, ◌%◌, ◌≤◌, ◌<◌, ◌≡◌, ◌≢◌, refl, arith, true, u32, u64, sub64, ◌==◌,
}
use moonsugar.Api.{default_alignment}
use moonsugar.Util.{align_ptr, max as ms_max}
use moonsugar.Util.Align.{align_sz_lem, two-pow-lt}
use moonsugar.FreeList.{compute_node_size, header_size}
use moonsugar.Heap.{Header, place, header_at}

-- A request with its header and the padding of its alignment.
pub compute_node_size_lem :
    (k count : ℕ)
    → k < 32
    → count + 2 ^ k + 16 ≤ 2 ^ 63
    → count + 15 + 2 ^ k ≤ compute_node_size count (2 ^ k)
unfolding compute_node_size
compute_node_size_lem k count small fits =
    omega
      (arith, raw, (align_sz_lem k (u64 (sub64 (u64 (count + 16 + 2 ^ k)) 1)) (omega arith) room).1)
  where
    bound : (0 < 2 ^ k) × (2 ^ k < 2 ^ 32)
    bound = two-pow-lt k 32 small

    raw : u64 (sub64 (u64 (count + 16 + 2 ^ k)) 1) ≡ count + 15 + 2 ^ k
    raw = omega (arith, bound)

    room : u64 (sub64 (u64 (count + 16 + 2 ^ k)) 1) + 2 ^ k ≤ 2 ^ 64
    room = omega (arith, raw, bound)

-- The pointer behind the header, aligned.
pub align_ptr_lem :
    (k value : ℕ)
    → k < 32
    → value + 2 ^ k ≤ 2 ^ 64
    → (align_ptr value (2 ^ k) % 2 ^ k ≡ 0)
      × (value ≤ align_ptr value (2 ^ k))
      × (align_ptr value (2 ^ k) < value + 2 ^ k)
unfolding align_ptr
align_ptr_lem k value small fits = align_sz_lem k value (omega arith) fits

pub aligned_at_least : (k : ℕ) → 8 ≤ 2 ^ k → ms_max (2 ^ k) default_alignment ≡ 2 ^ k
unfolding ms_max
aligned_at_least k least = ground (arith, least)

-- The pointer lies behind the header, aligned, and the header in front of it records the chunk.
pub record PlacedAt (headers : ℕ → Header) (chunk size k : ℕ) : Type 0 where
  pub aligned : (place headers chunk size (2 ^ k)).0 % 2 ^ k ≡ 0
  pub behind : chunk + header_size ≤ (place headers chunk size (2 ^ k)).0
  pub close : (place headers chunk size (2 ^ k)).0 < chunk + header_size + 2 ^ k
  pub header :
      (place headers chunk size (2 ^ k)).1 (header_at (place headers chunk size (2 ^ k)).0)
      ≡ record {
        size = size;
        padding = header_at (place headers chunk size (2 ^ k)).0 - chunk;
        alignment = 2 ^ k;
      }
  pub others :
      (at : ℕ)
      → at ≢ header_at (place headers chunk size (2 ^ k)).0
      → (place headers chunk size (2 ^ k)).1 at ≡ headers at

pub place_lem :
    (headers : ℕ → Header) (chunk size k : ℕ)
    → k < 32
    → chunk + header_size + 2 ^ k ≤ 2 ^ 64
    → PlacedAt headers chunk size k
place_lem headers chunk size k small room = record {
  aligned = at.0;
  behind = at.1;
  close = at.2;
  header = rw (same, padding, word) refl;
  others = λ other ne. ground (arith, ne);
}
  where
    ptr : ℕ
    ptr = align_ptr (chunk + header_size) (2 ^ k)

    at : (ptr % 2 ^ k ≡ 0) × (chunk + header_size ≤ ptr) × (ptr < chunk + header_size + 2 ^ k)
    at = align_ptr_lem k (chunk + header_size) small room

    bound : (0 < 2 ^ k) × (2 ^ k < 2 ^ 32)
    bound = two-pow-lt k 32 small

    word : u32 (2 ^ k) ≡ 2 ^ k
    word = omega (arith, bound)

    same : (header_at ptr == header_at ptr) ≡ true
    same = ground arith

    padding : u32 (ptr - (chunk + header_size)) ≡ header_at ptr - chunk
    padding = omega (arith, at.1, at.2, bound)
