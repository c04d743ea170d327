-- ===== src/Heap/Tests.antt =====
-- A heap of 1024 bytes at 64, with one free block, and a last chunk behind which too much is committed.
use moonsugar.Prelude.{ℕ, ◌^◌, ◌≡◌, ◌⊎◌, refl, arith, Bool, true, false, some, [], ◌∷◌}
use moonsugar.Api.{null}
use moonsugar.FreeList.{Memory, compute_node_size}
use moonsugar.FreeList.Blocks.{IsValid}
use moonsugar.FreeList.Find.{AllSmall}
use moonsugar.Heap.{Heap, malloc}
use moonsugar.Heap.Malloc.{Placed, malloc-Placed}

abbrev commits : ℕ → ℕ → Bool
commits start size = true

abbrev memory : Memory
memory a = record { next = null; prev = null; size = 1024 }

abbrev heap : Heap
heap = record {
  size = 1024;
  commit_page_size = 4096;
  free_list = record {
    first = 64;
    mem = memory;
    user = record { base = 64; committed_size = 24; trapped = false };
  };
  headers = λ _. record { size = 0; padding = 0; alignment = 0 };
}

heap-IsValid : IsValid heap.free_list ((64, 1024) ∷ []) 1088
heap-IsValid = record {
  holds = record { first = refl; linked = (refl, tt) };
  sorted = (omega arith, omega arith, omega arith);
  word = omega arith;
}

malloc-Placed_example :
    ((malloc commits 2 heap 100 (2 ^ 4) ≡ some (null, heap))
      × AllSmall ((64, 1024) ∷ []) (compute_node_size 100 (2 ^ 4)))
    ⊎ Placed commits heap ((64, 1024) ∷ []) 1088 100 4 2 (malloc commits 2 heap 100 (2 ^ 4))
malloc-Placed_example =
    malloc-Placed commits 2 heap ((64, 1024) ∷ []) 1088 100 4 heap-IsValid refl (omega arith)
      (omega arith) (omega arith) (omega arith) (omega arith) (omega arith)
