-- ===== src/Arena/Malloc.antt =====
-- `ms_arena_malloc`: which node serves a request, and when a new one is chained.
use moonsugar.Prelude.{
  ℕ, ◌+◌, ◌^◌, ◌≤◌, ◌<◌, ◌≡◌, ◌⊎◌, inl, inr, refl, ap, ◌∙◌, arith, true, false, Bool-cases, Option,
  some, List, [], ◌∷◌, ◌++◌, length, sub64, ltb, ◌==◌, ◌>>=◌,
}
use moonsugar.Api.{null}
use moonsugar.FreeList.{compute_node_size}
use moonsugar.FreeList.Links.{Nodes}
use moonsugar.FreeList.Blocks.{free_size}
use moonsugar.FreeList.Find.{AllSmall}
use moonsugar.Heap.{Header}
use moonsugar.Heap.Place.{compute_node_size_lem}
use moonsugar.Arena.{ArenaNode, base_of, allocate_from_node, malloc_from}
use moonsugar.Arena.Nodes.{NodeValid, Given, allocate_from_node_cases}

-- Where fewer bytes are free than asked for, no block is large enough: the preliminary check skips only nodes
-- that could not serve.
AllSmall-free_size : (blocks : Nodes) (m : ℕ) → free_size blocks < m → AllSmall blocks m
AllSmall-free_size [] m h = tt
AllSmall-free_size ((a, n) ∷ blocks) m h =
    (omega (arith, h), AllSmall-free_size blocks m (omega (arith, h)))

-- A node is valid, the fuel is enough for its free blocks, and its addresses fit their words.
pub record Ready (fuel k : ℕ) (node : ArenaNode) : Type 0 where
  pub valid : NodeValid node
  pub enough : length valid.blocks < fuel
  pub room : base_of node + node.total_size + 16 + 2 ^ k ≤ 2 ^ 64

abbrev pub AllReady : ℕ → ℕ → List ArenaNode → Type 0
AllReady fuel k [] = Unit
AllReady fuel k (node ∷ rest) = Ready fuel k node × AllReady fuel k rest

-- No free block of any node is large enough.
abbrev pub AllRefuse : (fuel k : ℕ) (nodes : List ArenaNode) → AllReady fuel k nodes → ℕ → Type 0
AllRefuse fuel k [] r m = Unit
AllRefuse fuel k (node ∷ rest) (r, rs) m = AllSmall r.valid.blocks m × AllRefuse fuel k rest rs m

module _ (fuel count k : ℕ) (headers : ℕ → Header) where
  -- One node of the chain serves the request, and the others are as they were.
  pub record Served (nodes : List ArenaNode) (out : Option (ℕ × List ArenaNode × (ℕ → Header)))
      : Type 0 where
    pub front : List ArenaNode
    pub node : ArenaNode
    pub back : List ArenaNode
    pub at : nodes ≡ front ++ (node ∷ back)
    pub given : Given node headers count k (allocate_from_node fuel node headers count (2 ^ k))
    pub run : out ≡ some (given.ptr, front ++ (given.after ∷ back), given.headers')

  module _ (some_bytes : 0 < count) (small : k < 32) (large : 24 ≤ count + 15 + 2 ^ k)
      (fits : count + 2 ^ k + 16 ≤ 2 ^ 63) where
    large_request : count ≤ compute_node_size count (2 ^ k)
    large_request = omega (arith, compute_node_size_lem k count small fits)

    one_node :
        (node : ArenaNode) (rest : List ArenaNode) (r : Ready fuel k node)
        → ((malloc_from fuel (node ∷ rest) headers count (2 ^ k) ≡ (
              malloc_from fuel rest headers count (2 ^ k) >>= λ out.
              some (out.0, node ∷ out.1, out.2)))
            × AllSmall r.valid.blocks (compute_node_size count (2 ^ k)))
          ⊎ ((g : Given node headers count k (allocate_from_node fuel node headers count (2 ^ k)))
              × (malloc_from fuel (node ∷ rest) headers count (2 ^ k)
                  ≡ some (g.ptr, g.after ∷ rest, g.headers')))
    unfolding malloc_from
    one_node node rest r =
        elim (Bool-cases (ltb (sub64 node.total_size node.allocated_size) count)) [
          | inl t ↦ inl (
            rw t refl,
            AllSmall-free_size r.valid.blocks (compute_node_size count (2 ^ k)) (too_few t),
          )
          | inr f ↦
              elim (allocate_from_node_cases fuel node r.valid headers count k r.enough small large
                fits r.room) [
                  | inl (run, all_small) ↦ inl (rw (f, run) refl, all_small)
                  | inr g ↦ inr (g, rw (f, g.run, not_null g) refl)
                ]
        ]
      where
        too_few :
            ltb (sub64 node.total_size node.allocated_size) count ≡ true
            → free_size r.valid.blocks < compute_node_size count (2 ^ k)
        too_few t = ground (arith, t, left, large_request)
          where
            left : sub64 node.total_size node.allocated_size ≡ free_size r.valid.blocks
            left = omega (arith, r.valid.counted, r.room)

        not_null :
            (g : Given node headers count k (allocate_from_node fuel node headers count (2 ^ k)))
            → (g.ptr == null) ≡ false
        not_null g = ground (arith, g.behind)

    pub malloc_from_cases :
        (nodes : List ArenaNode) (r : AllReady fuel k nodes)
        → ((malloc_from fuel nodes headers count (2 ^ k) ≡ some (null, nodes, headers))
            × AllRefuse fuel k nodes r (compute_node_size count (2 ^ k)))
          ⊎ Served nodes (malloc_from fuel nodes headers count (2 ^ k))
    unfolding malloc_from
    malloc_from_cases [] r = inl (refl, tt)
    malloc_from_cases (node ∷ rest) (r, rs) = elim (one_node node rest r) [
      | inl (step, all_small) ↦ elim (malloc_from_cases rest rs) [
        | inl (run, refuse) ↦ inl (
          step ∙ ap (λ t. t >>= λ out. some (out.0, node ∷ out.1, out.2)) run,
          (all_small, refuse),
        )
        | inr s ↦ inr (record {
          front = node ∷ s.front;
          node = s.node;
          back = s.back;
          at = ap (◌∷◌ node) s.at;
          given = s.given;
          run = step ∙ ap (λ t. t >>= λ out. some (out.0, node ∷ out.1, out.2)) s.run;
        })
      ]
      | inr (g, run) ↦
          inr (record { front = []; node = node; back = rest; at = refl; given = g; run = run })
    ]
