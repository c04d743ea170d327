-- ===== src/Arena/Grow.antt =====
-- `ms_arena_malloc` as a whole: a node of the chain, or a new one behind them.
use moonsugar.Prelude.{
  ℕ, ◌+◌, ◌^◌, ◌≤◌, ◌<◌, ◌≡◌, ◌≢◌, ◌⊎◌, inl, inr, refl, ap, ◌∙◌, sym, subst, arith, true, false,
  Option, some, [], ◌∷◌, ◌++◌, length, u64, ltb, ◌==◌, ◌>>=◌,
}
use moonsugar.Api.{Allocator, default_alignment, null}
use moonsugar.FreeList.{Memory, compute_node_size, node_size}
use moonsugar.FreeList.Find.{AllSmall}
use moonsugar.Heap.Place.{aligned_at_least}
use moonsugar.Arena.{
  Arena, ArenaNode, arena_node_size, base_of, whole, allocate_from_node, malloc_from, new_node_size,
  malloc_new, create_arena_node, malloc,
}
use moonsugar.Arena.Nodes.{NodeValid, Given, whole-NodeValid, allocate_from_node_cases}
use moonsugar.Arena.Malloc.{AllReady, AllRefuse, Served, malloc_from_cases}

-- The address that the allocator gives a new node of some size, and the node there.
abbrev pub new_address : Allocator → ℕ → ℕ
new_address a size = a.allocate (u64 (size + arena_node_size)) default_alignment

abbrev pub new_node : Allocator → Memory → ℕ → ArenaNode
new_node a fresh size = record {
  at = new_address a size;
  free_list = whole fresh (new_address a size + arena_node_size) size;
  total_size = size;
  allocated_size = 0;
}

-- What the allocator gives for a new node: a block, whose addresses fit their words, for a node in which a free
-- block fits.
pub record Grants (a : Allocator) (size k : ℕ) : Type 0 where
  pub block : new_address a size ≢ null
  pub large : node_size ≤ size
  pub room : new_address a size + arena_node_size + size + 16 + 2 ^ k ≤ 2 ^ 64

module _ (a : Allocator) (fresh : Memory) (fuel : ℕ) (arena : Arena) (count k : ℕ) where
  -- A new node serves the request, or has no room for it.
  pub data Grown (out : Option (ℕ × Arena)) : Type 0 where
    served :
        (g : Given (new_node a fresh (new_node_size arena count)) arena.headers count k (
          allocate_from_node fuel
            (new_node a fresh (new_node_size arena count))
            arena.headers
            count
            (2 ^ k)))
        → out
          ≡ some
              (g.ptr, record arena { nodes = arena.nodes ++ (g.after ∷ []); headers = g.headers' })
        → Grown out
    refused :
        new_node_size arena count < compute_node_size count (2 ^ k)
        → out
          ≡ some (
            null,
            record arena {
              nodes = arena.nodes ++ (new_node a fresh (new_node_size arena count) ∷ []);
            },
          )
        → Grown out

  linked : ArenaNode → Option (ℕ × Arena)
  linked node = allocate_from_node fuel node arena.headers count (2 ^ k) >>= λ out.
      some (out.0, record arena { nodes = arena.nodes ++ (out.1 ∷ []); headers = out.2 })

  malloc_new-linked :
      new_address a (new_node_size arena count) ≢ null
      → malloc_new a fresh fuel arena count (2 ^ k)
        ≡ linked (new_node a fresh (new_node_size arena count))
  unfolding malloc_new create_arena_node linked
  malloc_new-linked block = rw (given_block) refl
    where
      given_block : (new_address a (new_node_size arena count) == null) ≡ false
      given_block = ground (arith, block)

  malloc_new-Grown :
      1 < fuel
      → k < 32
      → 24 ≤ count + 15 + 2 ^ k
      → count + 2 ^ k + 16 ≤ 2 ^ 63
      → Grants a (new_node_size arena count) k
      → Grown (malloc_new a fresh fuel arena count (2 ^ k))
  unfolding linked
  malloc_new-Grown enough small large fits g =
      elim (allocate_from_node_cases fuel new valid.0 arena.headers count k
        (omega (arith, ap length valid.1, enough)) small large fits g.room) [
          | inl (run, all_small) ↦
              refused
                (subst (λ xs. AllSmall xs (compute_node_size count (2 ^ k))) valid.1 all_small).0
                (malloc_new-linked g.block
                  ∙ ap
                      (λ t. t >>= λ out. some (
                        out.0,
                        record arena { nodes = arena.nodes ++ (out.1 ∷ []); headers = out.2 },
                      ))
                      run)
          | inr given ↦ served given (
              malloc_new-linked g.block
              ∙ ap
                  (λ t. t >>= λ out.
                    some (
                      out.0,
                      record arena { nodes = arena.nodes ++ (out.1 ∷ []); headers = out.2 },
                    ))
                  given.run)
        ]
    where
      new : ArenaNode
      new = new_node a fresh (new_node_size arena count)

      valid : (v : NodeValid new) × (v.blocks ≡ (base_of new, new_node_size arena count) ∷ [])
      valid =
          whole-NodeValid fresh new.at (new_node_size arena count) g.large (omega (arith, g.room))

  -- `ms_arena_malloc` of some bytes, with an alignment of 2 ^ k from 8 to 2 ^ 31, on an arena of valid nodes,
  -- with fuel for one step more than any of them has free blocks, where the allocator grants a new node. A node
  -- of the chain serves the request, and nothing else changes; or no free block of any node is large enough for
  -- the bytes, the header and the padding, and a new node is chained behind the others, which serves the
  -- request or, where it is smaller than these, is left in the chain while NULL is returned.
  pub arena-malloc_cases :
      (r : AllReady fuel k arena.nodes)
      → 1 < fuel
      → 0 < count
      → k < 32
      → 8 ≤ 2 ^ k
      → count + 2 ^ k + 16 ≤ 2 ^ 63
      → Grants a (new_node_size arena count) k
      → ((s : Served fuel count k arena.headers arena.nodes
            (malloc_from fuel arena.nodes arena.headers count (2 ^ k)))
          × (malloc a fresh fuel arena count (2 ^ k)
              ≡ some (
                s.given.ptr,
                record arena {
                  nodes = s.front ++ (s.given.after ∷ s.back);
                  headers = s.given.headers';
                },
              )))
        ⊎ (AllRefuse fuel k arena.nodes r (compute_node_size count (2 ^ k))
            × Grown (malloc a fresh fuel arena count (2 ^ k)))
  unfolding malloc
  arena-malloc_cases r enough some_bytes small least fits g =
      elim (malloc_from_cases fuel count k arena.headers some_bytes small (omega arith) fits
        arena.nodes r) [
          | inl (run, refuse) ↦ inr (
            refuse,
            subst Grown (sym (grows run)) (malloc_new-Grown enough small (omega arith) fits g),
          )
          | inr s ↦ inl (s, rw (aligned_at_least k least, positive, s.run, not_null s) refl)
        ]
    where
      positive : ltb 0 count ≡ true
      positive = ground arith

      grows :
          malloc_from fuel arena.nodes arena.headers count (2 ^ k)
            ≡ some (null, arena.nodes, arena.headers)
          → malloc a fresh fuel arena count (2 ^ k) ≡ malloc_new a fresh fuel arena count (2 ^ k)
      grows run = rw (aligned_at_least k least, positive, run) refl

      not_null :
          (s : Served fuel count k arena.headers arena.nodes
            (malloc_from fuel arena.nodes arena.headers count (2 ^ k)))
          → (s.given.ptr == null) ≡ false
      not_null s = ground (arith, s.given.behind)
