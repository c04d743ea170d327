-- ===== src/FreeList/Stale.antt =====
-- A block that is given back: what its bytes spell does not touch the list.
use moonsugar.Prelude.{ℕ, suc, ◌+◌, ◌≤◌, ◌≡◌, refl, arith, ◌++◌}
use moonsugar.Api.{null}
use moonsugar.FreeList.{Node, Memory, FreeList, write, create_node, node_size}
use moonsugar.FreeList.Links.{
  Nodes, head, last, Linked, Linked-split, Linked-append, Linked-frame, write-other,
}
use moonsugar.FreeList.Blocks.{IsValid, Sorted, Sorted-weaken, Sorted-Ascending}

module _ {U : Type 0} where
  pub write-IsValid :
      (list : FreeList U) (front : Nodes) (s m : ℕ) (back : Nodes) (hi : ℕ) (stale : Node)
      → IsValid list (front ++ back) hi
      → node_size ≤ m
      → Sorted 1 front s
      → Sorted (s + m) back hi
      → IsValid (record list { mem = write list.mem s stale }) (front ++ back) hi
  write-IsValid list front s m back hi stale v large below above = record {
    holds = record {
      first = v.holds.first;
      linked =
          Linked-append mem null front back null
            (Linked-frame list.mem mem null 1 front (head back null) s
              (Sorted-Ascending 1 front s below)
              (λ b lo hi'. write-other list.mem s stale b (λ e. omega (arith, e, hi'))) split.0)
            (Linked-frame list.mem mem (last front null) (suc s) back null hi
              (Sorted-Ascending (suc s) back hi
                (Sorted-weaken (s + m) (suc s) back hi (omega (arith, large)) above))
              (λ b lo hi'. write-other list.mem s stale b (λ e. omega (arith, e, lo))) split.1);
    };
    sorted = v.sorted;
    word = v.word;
  }
    where
      mem : Memory
      mem = write list.mem s stale

      split :
          Linked list.mem null front (head back null) × Linked list.mem (last front null) back null
      split = Linked-split list.mem null front back null v.holds.linked

  -- A node that is the first has no regard for the list's head.
  pub create_node-first :
      (on_create on_alloc : ℕ → ℕ → U → U) (list : FreeList U) (c n : ℕ)
      → create_node on_create on_alloc list c null null n
        ≡ create_node on_create on_alloc (record list { first = null }) c null null n
  unfolding create_node
  create_node-first on_create on_alloc list c n = refl
