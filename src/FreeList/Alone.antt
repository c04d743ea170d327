-- ===== src/FreeList/Alone.antt =====
-- A block given back to a list without free blocks, src/memory/freelist.c, and what the next request is given.
use moonsugar.Prelude.{
  ℕ, ◌+◌, ◌^◌, ◌≤◌, ◌<◌, ◌≡◌, refl, ap, ◌∙◌, sym, arith, true, some, [], ◌∷◌, ◌++◌, length,
  length-append, ◌==◌, inl, inr,
}
use moonsugar.Api.{null}
use moonsugar.FreeList.{FreeList, node_size, compute_node_size, create_node, malloc, free}
use moonsugar.FreeList.Links.{Nodes, head}
use moonsugar.FreeList.Order.{create_node-Holds}
use moonsugar.FreeList.Blocks.{IsValid}
use moonsugar.FreeList.Find.{Fitting}
use moonsugar.FreeList.Take.{malloc_cases}

-- The only block is the one that fits.
only_block : {s n count a : ℕ} → Fitting ((s, n) ∷ []) count a → a ≡ s
only_block {s} {n} {count} {a} fit = at_front fit.front fit.at
  where
    at_front : (front : Nodes) → (s, n) ∷ [] ≡ front ++ ((a, fit.size) ∷ fit.back) → a ≡ s
    at_front [] e = sym (ap (λ xs. head xs null) e)
    at_front (x ∷ front) e =
        absurd (omega (arith, ap length e, length-append front ((a, fit.size) ∷ fit.back)))

module _ {U : Type 0} (on_create on_alloc : ℕ → ℕ → U → U) where
  free_alone :
      (fuel : ℕ) (list : FreeList U) (s m : ℕ)
      → list.first ≡ null
      → free on_create on_alloc fuel list s m
        ≡ some (create_node on_create on_alloc list s null null (list.mem s).size)
  unfolding free
  free_alone fuel list s m e =
      let empty : (list.first == null) ≡ true = ground (arith, e) in rw empty refl

  create_node-IsValid :
      (list : FreeList U) (s n hi : ℕ)
      → list.first ≡ null
      → 0 < s
      → node_size ≤ n
      → s + n ≤ hi
      → hi < 2 ^ 64
      → IsValid (create_node on_create on_alloc list s null null n) ((s, n) ∷ []) hi
  create_node-IsValid list s n hi e place large ends word = record {
    holds =
        create_node-Holds on_create on_alloc list [] s n [] hi (record { first = e; linked = tt })
          (omega (arith, place)) (omega (arith, large, ends));
    sorted = (omega (arith, place), large, omega (arith, ends));
    word = word;
  }

  -- Where no block is free, `ms_free_list_free` takes the size of the block given back from its bytes. Where these
  -- spell more than the block has, a request that is too large for the block, but not for what the bytes spell, is
  -- given the block as a chunk of more bytes than were given back.
  pub malloc-free_overruns :
      (fuel : ℕ) (list : FreeList U) (s m hi count alignment : ℕ)
      → list.first ≡ null
      → 0 < s
      → s + (list.mem s).size ≤ hi
      → hi < 2 ^ 64
      → node_size ≤ compute_node_size count alignment
      → m < compute_node_size count alignment
      → compute_node_size count alignment ≤ (list.mem s).size
      → 1 < fuel
      → (freed : FreeList U) × (size : ℕ) × (after : FreeList U) × (free on_create on_alloc fuel
            list s m
          ≡ some freed)
        × (malloc on_create on_alloc fuel freed count alignment ≡ some (s, size, after))
        × (m < size)
  malloc-free_overruns fuel list s m hi count alignment e place ends word large more spelled
        enough =
      let freed = create_node on_create on_alloc list s null null (list.mem s).size in
      elim (malloc_cases on_create on_alloc fuel freed ((s, (list.mem s).size) ∷ []) hi count
        alignment
        (create_node-IsValid list s (list.mem s).size hi e place (omega (arith, large, spelled))
          ends word)
        (omega (arith, enough)) large) [
          | inl (run, small) ↦ absurd (omega (arith, small, spelled))
          | inr t ↦ (
            freed,
            t.size,
            t.after,
            free_alone fuel list s m e,
            t.run ∙ ap (λ a. some (a, t.size, t.after)) (only_block t.from),
            omega (arith, more, t.enough),
          )
        ]
