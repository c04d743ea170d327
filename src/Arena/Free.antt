-- ===== src/Arena/Free.antt =====
-- `ms_arena_free`: the block goes back to the free list of its node, and what becomes of the chain.
use moonsugar.Prelude.{
  ℕ, ◌+◌, ◌-◌, ◌≤◌, ◌<◌, ◌≡◌, refl, ap, ◌∙◌, subst, arith, Option, some, [], ◌∷◌, ◌++◌, length,
  sub64,
}
use moonsugar.FreeList.{Node, FreeList, write, node_size, free as list_free}
use moonsugar.FreeList.Links.{Nodes, write-same}
use moonsugar.FreeList.Blocks.{IsValid, Sorted, free_size, Sorted-weaken}
use moonsugar.FreeList.Give.{merge, right_size, right_rest}
use moonsugar.FreeList.Free.{Freed, free-Freed}
use moonsugar.FreeList.Merge.{Sorted-left, Sorted-right}
use moonsugar.FreeList.Stale.{write-IsValid}
use moonsugar.Heap.{Header, header_at}
use moonsugar.Arena.{ArenaNode, base_of, no_callback, free_in}
use moonsugar.Arena.Nodes.{NodeValid}

free_size-le : (lo : ℕ) (blocks : Nodes) (hi : ℕ) → Sorted lo blocks hi → lo + free_size blocks ≤ hi
free_size-le lo [] hi h = omega (arith, h)
free_size-le lo ((a, n) ∷ blocks) hi (h, large, s) =
    omega (arith, h, free_size-le (a + n) blocks hi s)

merge-Sorted :
    (lo : ℕ) (front : Nodes) (s m : ℕ) (back : Nodes) (hi : ℕ)
    → Sorted lo front s
    → node_size ≤ m
    → Sorted (s + m) back hi
    → Sorted lo (merge front s m back) hi
merge-Sorted lo front s m back hi below large above =
    let (size, behind, same) = Sorted-right s m back hi large above in
    (Sorted-left lo front s (right_size s m back) (right_rest s m back) hi below size behind).0

-- A block of a node that is not free: where it is recorded, and between which free blocks it lies.
pub record Block (node : ArenaNode) (v : NodeValid node) (headers : ℕ → Header) (ptr : ℕ)
    : Type 0 where
  pub front : Nodes
  pub back : Nodes
  pub between : v.blocks ≡ front ++ back
  pub large : node_size ≤ (headers (header_at ptr)).size
  pub below : Sorted (base_of node) front (header_at ptr - (headers (header_at ptr)).padding)
  pub above :
      Sorted
        (header_at ptr - (headers (header_at ptr)).padding + (headers (header_at ptr)).size)
        back
        (base_of node + node.total_size)

-- The node valid again, with the block counted as free.
pub record Returned (node : ArenaNode) (m : ℕ) (out : Option ArenaNode) : Type 0 where
  pub after : ArenaNode
  pub run : out ≡ some after
  pub valid : NodeValid after
  pub counted : after.allocated_size + m ≡ node.allocated_size
  pub same_place : (after.at ≡ node.at) × (after.total_size ≡ node.total_size)

-- Giving back a block of a valid node, where its bytes spell its size as that of a free node, with fuel for one
-- step more than there are free blocks in front of it. The node is valid, and counts the block no more.
pub free_in-Returned :
    (fuel : ℕ) (node : ArenaNode) (v : NodeValid node) (headers : ℕ → Header) (ptr : ℕ)
    (stale : Node)
    → (b : Block node v headers ptr) → stale.size ≡ (headers (header_at ptr)).size
    → length b.front < fuel
    → Returned node (headers (header_at ptr)).size (free_in fuel node headers ptr stale)
unfolding free_in
free_in-Returned fuel node v headers ptr stale b same enough = record {
  after = after;
  run = rw freed.run refl;
  valid = record {
    blocks = merge b.front s m b.back;
    list = freed.valid;
    inside = inside;
    counted = omega (arith, fewer, freed.kept, ap free_size b.between, v.counted);
  };
  counted = fewer;
  same_place = (refl, refl);
}
  where
    m : ℕ
    m = (headers (header_at ptr)).size

    s : ℕ
    s = header_at ptr - (headers (header_at ptr)).padding

    hi : ℕ
    hi = base_of node + node.total_size

    list : FreeList (Unit {0})
    list = record node.free_list { mem = write node.free_list.mem s stale }

    below : Sorted 1 b.front s
    below = Sorted-weaken (base_of node) 1 b.front s (omega arith) b.below

    ready : IsValid list (b.front ++ b.back) hi
    ready =
        write-IsValid node.free_list b.front s m b.back hi stale
          (subst (λ xs. IsValid node.free_list xs hi) b.between v.list) b.large below b.above

    freed :
        Freed no_callback no_callback b.front s m b.back hi
          (list_free no_callback no_callback fuel list s m)
    freed =
        free-Freed no_callback no_callback fuel list s m hi b.large
          (ap (λ (n : Node). n.size) (write-same node.free_list.mem s stale) ∙ same) b.front b.back
          ready below b.above enough

    inside : Sorted (base_of node) (merge b.front s m b.back) hi
    inside = merge-Sorted (base_of node) b.front s m b.back hi b.below b.large b.above

    after : ArenaNode
    after = record node {
      free_list = freed.after;
      allocated_size = sub64 node.allocated_size stale.size;
    }

    fewer : sub64 node.allocated_size stale.size + m ≡ node.allocated_size
    fewer = omega (
      arith,
      same,
      v.counted,
      freed.kept,
      ap free_size b.between,
      free_size-le (base_of node) (merge b.front s m b.back) hi inside,
      v.list.word,
    )
