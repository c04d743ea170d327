-- ===== src/FreeList/Take.antt =====
-- Taking memory from a free list: `malloc_node` and `ms_free_list_malloc`.

use moonsugar.Prelude.{
  ℕ, ◌+◌, ◌-◌, ◌≤◌, ◌<◌, ◌≡◌, ◌⊎◌, inl, inr, refl, ap, ◌∙◌, sym, subst, arith, false, Option, some,
  ◌++◌, leb, ltb, ◌&&◌, length, ◌==◌,
}
use moonsugar.Api.{null}
use moonsugar.FreeList.{FreeList, node_size, cut_node, malloc, compute_node_size}
use moonsugar.FreeList.Links.{Nodes}
use moonsugar.FreeList.Blocks.{
  IsValid, Sorted, free_size, Sorted-le, Sorted-Ascending, Sorted-split,
}
use moonsugar.FreeList.Find.{Fitting, AllSmall, find_smallest_node-Fitting}
use moonsugar.FreeList.Split.{remainder, size_taken, cut_node-IsValid}

module _ {U : Type 0} (on_create on_alloc : ℕ → ℕ → U → U) where
  -- What a request that is met has taken.
  pub record Taken (nodes : Nodes) (hi total : ℕ) (out : Option (ℕ × ℕ × FreeList U)) : Type 0 where
    pub chunk : ℕ
    pub size : ℕ
    pub after : FreeList U
    pub run : out ≡ some (chunk, size, after)
    pub from : Fitting nodes total chunk
    pub enough : total ≤ size
    pub within : size ≤ from.size
    pub left : Nodes
    pub left-eq : left ≡ from.front ++ (remainder chunk from.size total ++ from.back)
    pub valid : IsValid after left hi
    pub kept : free_size left + size ≡ free_size nodes

  -- `ms_free_list_malloc` on a valid list, with fuel for one step more than it has nodes, ends. With T the
  -- size of the request with header and padding, at least the size of a node, it returns NULL where every node is smaller
  -- than T, and the list stays as it is; or it takes at least T bytes from the beginning of one node, the list
  -- is valid with that node replaced by its remainder, and the free bytes shrink by what was taken.
  pub malloc_cases :
      (fuel : ℕ) (list : FreeList U) (nodes : Nodes) (hi count alignment : ℕ)
      → IsValid list nodes hi
      → length nodes < fuel
      → node_size ≤ compute_node_size count alignment
      → ((malloc on_create on_alloc fuel list count alignment
            ≡ some (null, compute_node_size count alignment, list))
          × AllSmall nodes (compute_node_size count alignment))
        ⊎ Taken nodes hi
            (compute_node_size count alignment)
            (malloc on_create on_alloc fuel list count alignment)
  unfolding malloc
  malloc_cases fuel list nodes hi count alignment v enough some_bytes =
      elim (find_smallest_node-Fitting list.mem total fuel null 1 nodes hi (omega arith)
        (Sorted-Ascending 1 nodes hi v.sorted) v.holds.linked enough) [
          | inl (run, small) ↦ inl (rw (v.holds.first, run) refl, small)
          | inr (a, run, fit) ↦
              let told = record list { user = on_alloc a total list.user } in
              let valid : IsValid told nodes hi = record {
                holds = record { first = v.holds.first; linked = v.holds.linked };
                sorted = v.sorted;
                word = v.word;
              } in
              let (size, valid', kept) =
                cut_node-IsValid on_create on_alloc told fit.front a fit.size fit.back hi total
                  (subst (λ xs. IsValid told xs hi) fit.at valid) (omega (arith, some_bytes))
                  fit.large in
              inr (record {
                chunk = a;
                size = (cut_node on_create on_alloc told a total).0;
                after = (cut_node on_create on_alloc told a total).1;
                run = rw (v.holds.first, run, not_null a fit, apart told a) refl;
                from = fit;
                enough = at_least fit.size fit.large size;
                within = at_most fit.size fit.large size;
                left = fit.front ++ (remainder a fit.size total ++ fit.back);
                left-eq = refl;
                valid = valid';
                kept = kept ∙ ap free_size (sym fit.at);
              })
        ]
    where
      total : ℕ
      total = compute_node_size count alignment

      at_least : (n : ℕ) → total ≤ n → {size : ℕ} → size ≡ size_taken n total → total ≤ size
      at_least n fits e = ground (arith, e)

      at_most : (n : ℕ) → total ≤ n → {size : ℕ} → size ≡ size_taken n total → size ≤ n
      at_most n fits e = ground (arith, e)

      apart :
          (list : FreeList U) (a : ℕ)
          → (leb node_size ((list.mem a).size - total) && ltb total node_size) ≡ false
      apart list a = ground (arith, some_bytes)

      not_null : (a : ℕ) → Fitting nodes total a → (a == null) ≡ false
      not_null a fit = ground (
        arith,
        Sorted-le 1 fit.front a
            (Sorted-split 1 fit.front a fit.size fit.back hi
              (subst (λ xs. Sorted 1 xs hi) fit.at v.sorted)).0,
      )
