-- ===== src/Arena/Tests.antt =====
-- A node of 1024 bytes at 1000, whose first 64 bytes are one block, in an arena of its own.
use moonsugar.Prelude.{
  ◌+◌, ◌<◌, ◌≡◌, ◌⊎◌, refl, arith, true, false, none, some, [], ◌∷◌, ◌++◌, length,
}
use moonsugar.Api.{Allocator, null}
use moonsugar.FreeList.{Node, Memory, compute_node_size}
use moonsugar.Util.{align_sz, max}
use moonsugar.Heap.{Header, place}
use moonsugar.Heap.Place.{place_lem}
use moonsugar.Arena.{
  Arena, ArenaNode, is_sticky, new_node_size, malloc_from, free_in, malloc, free, realloc, clear,
}
use moonsugar.Arena.Nodes.{NodeValid}
use moonsugar.Arena.Malloc.{Ready, AllRefuse, Served}
use moonsugar.Arena.Grow.{Grants, Grown, arena-malloc_cases}
use moonsugar.Arena.Free.{Block, Returned}
use moonsugar.Arena.Chain.{chained, AllEmpty, arena_free_lem, clear_cases, realloc_overruns}

abbrev at_4096 : Allocator
at_4096 = record { allocate = λ size alignment. 4096; reallocate = λ base size. 4096 }

abbrev memory : Memory
memory a = record { next = null; prev = null; size = 960 }

abbrev node : ArenaNode
node = record {
  at = 1000;
  free_list = record { first = 1120; mem = memory; user = tt };
  total_size = 1024;
  allocated_size = 64;
}

abbrev header : Header
header = record { size = 64; padding = 0; alignment = 8 }

abbrev arena : Arena
arena = record { base_size = 512; nodes = node ∷ []; flags = 0; headers = λ at. header }

abbrev node-NodeValid : NodeValid node
node-NodeValid = record {
  blocks = (1120, 960) ∷ [];
  list = record {
    holds = record { first = refl; linked = (refl, tt) };
    sorted = omega arith;
    word = omega arith;
  };
  inside = omega arith;
  counted = omega arith;
}

abbrev node-Ready : Ready 2 3 node
node-Ready = record { valid = node-NodeValid; enough = omega arith; room = omega arith }

arena-Grants : Grants at_4096 2048 3
arena-Grants = record { block = omega arith; large = omega arith; room = omega arith }

arena-malloc_cases_example :
    ((s : Served 2 16 3 arena.headers arena.nodes (malloc_from 2 arena.nodes arena.headers 16 8))
      × (malloc at_4096 memory 2 arena 16 8
          ≡ some (
            s.given.ptr,
            record arena {
              nodes = s.front ++ (s.given.after ∷ s.back);
              headers = s.given.headers';
            },
          )))
    ⊎ (AllRefuse 2 3 arena.nodes (node-Ready, tt) (compute_node_size 16 8)
        × Grown at_4096 memory 2 arena 16 3 (malloc at_4096 memory 2 arena 16 8))
unfolding new_node_size align_sz max
arena-malloc_cases_example =
    arena-malloc_cases at_4096 memory 2 arena 16 3 (node-Ready, tt) (omega arith) (omega arith)
      (omega arith) (omega arith) (omega arith) arena-Grants

abbrev stale : Node
stale = record { next = null; prev = null; size = 64 }

abbrev block : Block node node-NodeValid arena.headers 1072
block = record {
  front = [];
  back = (1120, 960) ∷ [];
  between = refl;
  large = omega arith;
  below = omega arith;
  above = omega arith;
}

clear_cases_example :
    ((is_sticky arena ≡ true)
      × ((after : Arena) × (clear arena ≡ some after)
          × (length after.nodes ≡ 1)
          × AllEmpty after.nodes))
    ⊎ ((is_sticky arena ≡ false)
        × ((clear arena ≡ none) ⊎ ((arena.nodes ≡ []) × (clear arena ≡ some arena))))
clear_cases_example = clear_cases arena (omega arith, omega arith, tt)

arena_free_lem_example :
    (r : Returned node 64 (free_in 1 node arena.headers 1072 stale)) × (free 1 arena 1072 stale
      ≡ some (
        record arena { nodes = (chained (is_sticky arena) [] r.after []).0 },
        (chained (is_sticky arena) [] r.after []).1,
      ))
arena_free_lem_example =
    arena_free_lem 1 arena [] node [] node-NodeValid 1072 stale refl tt refl block refl
      (omega arith)

realloc_overruns_example :
    (realloc at_4096 memory 1
        (record arena { headers = (place arena.headers 1056 64 8).1 })
        (place arena.headers 1056 64 8).0
        64
        stale
      ≡ some (
        (place arena.headers 1056 64 8).0,
        record arena { headers = (place arena.headers 1056 64 8).1 },
        [],
      ))
    × (1056 + 64 < (place arena.headers 1056 64 8).0 + 64)
realloc_overruns_example =
    realloc_overruns at_4096 memory 1 arena arena.headers 1056 64 3 stale
      (place_lem arena.headers 1056 64 3 (omega arith) (omega arith)) (omega arith)
