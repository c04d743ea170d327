-- ===== src/Arena/Nodes.antt =====
-- The nodes of an arena: what is free in them, and what they give.

use moonsugar.Prelude.{
  ℕ, ◌+◌, ◌-◌, ◌^◌, ◌%◌, ◌≤◌, ◌<◌, ◌≡◌, ◌≢◌, ◌⊎◌, inl, inr, refl, sym, subst, arith, false,
  Bool-cases, Option, some, [], ◌∷◌, ◌++◌, length, u32, u64, leb, ◌==◌,
}
use moonsugar.Api.{null}
use moonsugar.Util.Align.{two-pow-lt}
use moonsugar.FreeList.{Memory, compute_node_size, header_size, node_size, malloc as list_malloc}
use moonsugar.FreeList.Links.{Nodes}
use moonsugar.FreeList.Order.{create_node-Holds}
use moonsugar.FreeList.Blocks.{
  IsValid, Sorted, free_size, Sorted-le, Sorted-weaken, Sorted-split, Sorted-append,
}
use moonsugar.FreeList.Find.{AllSmall}
use moonsugar.FreeList.Split.{remainder}
use moonsugar.FreeList.Take.{Taken, malloc_cases}
use moonsugar.Heap.{Header, place, header_at}
use moonsugar.Heap.Place.{compute_node_size_lem, PlacedAt, place_lem}
use moonsugar.Arena.{ArenaNode, arena_node_size, base_of, no_callback, whole, allocate_from_node}

-- The free blocks of a node lie in its memory, and the bytes that are not free are counted.
pub record NodeValid (node : ArenaNode) : Type 0 where
  pub blocks : Nodes
  pub list : IsValid node.free_list blocks (base_of node + node.total_size)
  pub inside : Sorted (base_of node) blocks (base_of node + node.total_size)
  pub counted : node.allocated_size + free_size blocks ≡ node.total_size

-- One free block over the whole memory of a node.
pub whole-NodeValid :
    (mem : Memory) (at size : ℕ)
    → node_size ≤ size
    → at + arena_node_size + size < 2 ^ 64
    → (v : NodeValid (record {
      at = at;
      free_list = whole mem (at + arena_node_size) size;
      total_size = size;
      allocated_size = 0;
    }))
      × (v.blocks ≡ (at + arena_node_size, size) ∷ [])
whole-NodeValid mem at size large room = (
  record {
    blocks = (at + arena_node_size, size) ∷ [];
    list = record {
      holds =
          create_node-Holds no_callback no_callback (record { first = null; mem = mem; user = tt })
            [] (at + arena_node_size) size [] (at + arena_node_size + size)
            (record { first = refl; linked = tt }) (omega arith) (omega (arith, large));
      sorted = (omega arith, large, omega arith);
      word = room;
    };
    inside = (omega arith, large, omega arith);
    counted = omega arith;
  },
  refl,
)

-- The blocks that are left still lie in order.
remainder-Sorted :
    (lo a n total : ℕ) (back : Nodes) (hi : ℕ)
    → lo ≤ a
    → total ≤ n
    → Sorted (a + n) back hi
    → Sorted lo (remainder a n total ++ back) hi
remainder-Sorted lo a n total back hi h fits s = elim (Bool-cases (leb node_size (n - total))) [
  | inl t ↦ rw t (omega (arith, h), ground (arith, t), subst (λ x. Sorted x back hi) ends s)
  | inr f ↦ rw f (Sorted-weaken (a + n) lo back hi (omega (arith, h)) s)
]
  where
    ends : a + n ≡ a + total + (n - total)
    ends = omega (arith, fits)

Sorted-remainder :
    (lo : ℕ) (front : Nodes) (a n total : ℕ) (back : Nodes) (hi : ℕ)
    → total ≤ n
    → Sorted lo (front ++ ((a, n) ∷ back)) hi
    → Sorted lo (front ++ (remainder a n total ++ back)) hi
Sorted-remainder lo front a n total back hi fits s =
    let (before, large, behind) = Sorted-split lo front a n back hi s in
    Sorted-append lo front a (remainder a n total ++ back) hi before
      (remainder-Sorted a a n total back hi (omega arith) fits behind)

-- What a node gives: an aligned pointer with all the bytes inside its memory, behind a header that records the
-- chunk. The node stays valid and counts the chunk, and no other header changes.
pub record Given (node : ArenaNode) (headers : ℕ → Header) (count k : ℕ)
    (out : Option (ℕ × ArenaNode × (ℕ → Header))) : Type 0 where
  pub ptr : ℕ
  pub after : ArenaNode
  pub headers' : ℕ → Header
  pub run : out ≡ some (ptr, after, headers')
  pub aligned : ptr % 2 ^ k ≡ 0
  pub chunk : ℕ
  pub size : ℕ
  pub from : base_of node ≤ chunk
  pub behind : chunk + header_size ≤ ptr
  pub inside : ptr + count ≤ chunk + size
  pub ends : chunk + size ≤ base_of node + node.total_size
  pub header :
      headers' (header_at ptr)
      ≡ record { size = size; padding = header_at ptr - chunk; alignment = 2 ^ k }
  pub others : (at : ℕ) → at ≢ header_at ptr → headers' at ≡ headers at
  pub valid : NodeValid after
  pub same_place : (after.at ≡ node.at) × (after.total_size ≡ node.total_size)
  pub taken : after.allocated_size ≡ node.allocated_size + size

-- `allocate_from_node` on a valid node, with fuel for one step more than it has free blocks, where the sizes
-- and addresses fit their words, and the bytes and the alignment make up a free node: it gives the memory, or every free block is too small for the bytes, the
-- header and the padding, and nothing changes.
pub allocate_from_node_cases :
    (fuel : ℕ) (node : ArenaNode) (v : NodeValid node) (headers : ℕ → Header) (count k : ℕ)
    → length v.blocks < fuel
    → k < 32
    → 24 ≤ count + 15 + 2 ^ k
    → count + 2 ^ k + 16 ≤ 2 ^ 63
    → base_of node + node.total_size + 16 + 2 ^ k ≤ 2 ^ 64
    → ((allocate_from_node fuel node headers count (2 ^ k) ≡ some (null, node, headers))
        × AllSmall v.blocks (compute_node_size count (2 ^ k)))
      ⊎ Given node headers count k (allocate_from_node fuel node headers count (2 ^ k))
unfolding allocate_from_node
allocate_from_node_cases fuel node v headers count k enough small large fits room =
    elim (malloc_cases no_callback no_callback fuel node.free_list v.blocks
      (base_of node + node.total_size) count (2 ^ k) v.list enough (omega (arith, total, bound))) [
        | inl (run, all_small) ↦ inl (rw (word, run) refl, all_small)
        | inr t ↦ inr (given t)
      ]
  where
    bound : (0 < 2 ^ k) × (2 ^ k < 2 ^ 32)
    bound = two-pow-lt k 32 small

    total : count + 15 + 2 ^ k ≤ compute_node_size count (2 ^ k)
    total = compute_node_size_lem k count small fits

    word : u32 (2 ^ k) ≡ 2 ^ k
    word = omega (arith, bound)

    hi : ℕ
    hi = base_of node + node.total_size

    given :
        Taken no_callback no_callback v.blocks hi
          (compute_node_size count (2 ^ k))
          (list_malloc no_callback no_callback fuel node.free_list count (2 ^ k))
        → Given node headers count k (allocate_from_node fuel node headers count (2 ^ k))
    given t = record {
      ptr = (place headers t.chunk t.size (2 ^ k)).0;
      after = after;
      headers' = (place headers t.chunk t.size (2 ^ k)).1;
      run = rw (word, t.run, not_null) refl;
      aligned = at.aligned;
      chunk = t.chunk;
      size = t.size;
      from = from;
      behind = at.behind;
      inside = omega (arith, at.close, t.enough, total);
      ends = omega (arith, t.within, ends);
      header = at.header;
      others = at.others;
      valid = record {
        blocks = t.left;
        list = t.valid;
        inside =
            subst (λ xs. Sorted (base_of node) xs hi) (sym t.left-eq)
              (Sorted-remainder (base_of node) t.from.front t.chunk t.from.size
                (compute_node_size count (2 ^ k)) t.from.back hi t.from.large split);
        counted = omega (arith, exact, t.kept, v.counted);
      };
      same_place = (refl, refl);
      taken = exact;
    }
      where
        after : ArenaNode
        after = record node {
          free_list = t.after;
          allocated_size = u64 (node.allocated_size + t.size);
        }

        split : Sorted (base_of node) (t.from.front ++ ((t.chunk, t.from.size) ∷ t.from.back)) hi
        split = subst (λ xs. Sorted (base_of node) xs hi) t.from.at v.inside

        parts :
            Sorted (base_of node) t.from.front t.chunk
            × (node_size ≤ t.from.size)
            × Sorted (t.chunk + t.from.size) t.from.back hi
        parts = Sorted-split (base_of node) t.from.front t.chunk t.from.size t.from.back hi split

        from : base_of node ≤ t.chunk
        from = Sorted-le (base_of node) t.from.front t.chunk parts.0

        ends : t.chunk + t.from.size ≤ hi
        ends = Sorted-le (t.chunk + t.from.size) t.from.back hi parts.2

        not_null : (t.chunk == null) ≡ false
        not_null = ground (arith, from)

        at : PlacedAt headers t.chunk t.size k
        at = place_lem headers t.chunk t.size k small (omega (arith, ends, room))

        exact : u64 (node.allocated_size + t.size) ≡ node.allocated_size + t.size
        exact = omega (arith, t.kept, v.counted, v.list.word)
