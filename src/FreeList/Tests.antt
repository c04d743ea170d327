-- ===== src/FreeList/Tests.antt =====
-- A list of two free blocks, at 64 and 256 in a memory of 1024 bytes, with a block in use between them.
use moonsugar.Prelude.{◌<◌, ℕ, ◌≡◌, ◌⊎◌, refl, arith, some, [], ◌∷◌, ◌==◌, if◌then◌else◌}
use moonsugar.Api.{null}
use moonsugar.Util.{align_sz}
use moonsugar.FreeList.{Memory, FreeList, compute_node_size, malloc, free}
use moonsugar.FreeList.Blocks.{IsValid}
use moonsugar.FreeList.Find.{AllSmall}
use moonsugar.FreeList.Take.{Taken, malloc_cases}
use moonsugar.FreeList.Free.{Freed, free-Freed}
use moonsugar.FreeList.Alone.{malloc-free_overruns}

abbrev quiet : ℕ → ℕ → ℕ → ℕ
quiet at size user = user

abbrev memory : Memory
memory a =
    if a == 64
    then record { next = 256; prev = null; size = 64 }
    else if a == 256
    then record { next = null; prev = 64; size = 768 }
    else record { next = 0; prev = 0; size = 128 }

abbrev two_blocks : FreeList ℕ
two_blocks = record { first = 64; mem = memory; user = 0 }

abbrev empty : FreeList ℕ
empty = record { first = null; mem = memory; user = 0 }

two_blocks-IsValid : IsValid two_blocks ((64, 64) ∷ ((256, 768) ∷ [])) 1024
two_blocks-IsValid = record {
  holds = record { first = refl; linked = (refl, (refl, tt)) };
  sorted = (omega arith, omega arith, (omega arith, omega arith, omega arith));
  word = omega arith;
}

request : compute_node_size 100 8 ≡ 128
unfolding compute_node_size align_sz
request = refl

small_request : compute_node_size 20 8 ≡ 48
unfolding compute_node_size align_sz
small_request = refl

malloc_cases_example :
    ((malloc quiet quiet 3 two_blocks 100 8 ≡ some (null, compute_node_size 100 8, two_blocks))
      × AllSmall ((64, 64) ∷ ((256, 768) ∷ [])) (compute_node_size 100 8))
    ⊎ Taken quiet quiet
        ((64, 64) ∷ ((256, 768) ∷ []))
        1024
        (compute_node_size 100 8)
        (malloc quiet quiet 3 two_blocks 100 8)
malloc_cases_example =
    malloc_cases quiet quiet 3 two_blocks ((64, 64) ∷ ((256, 768) ∷ [])) 1024 100 8
      two_blocks-IsValid (omega arith) (omega (arith, request))

free-Freed_example :
    Freed quiet quiet
      ((64, 64) ∷ [])
      128
      128
      ((256, 768) ∷ [])
      1024
      (free quiet quiet 2 two_blocks 128 128)
free-Freed_example =
    free-Freed quiet quiet 2 two_blocks 128 128 1024 (omega arith) refl ((64, 64) ∷ [])
      ((256, 768) ∷ []) two_blocks-IsValid (omega arith, omega arith, omega arith)
      (omega arith, omega arith, omega arith) (omega arith)

-- The bytes at 64 spell 64, twice what is given back.
malloc-free_overruns_example :
    (freed : FreeList ℕ) × (size : ℕ) × (after : FreeList ℕ) × (free quiet quiet 2 empty 64 32
      ≡ some freed)
    × (malloc quiet quiet 2 freed 20 8 ≡ some (64, size, after))
    × (32 < size)
malloc-free_overruns_example =
    malloc-free_overruns quiet quiet 2 empty 64 32 1024 20 8 refl (omega arith) (omega arith)
      (omega arith) (omega (arith, small_request)) (omega (arith, small_request))
      (omega (arith, small_request)) (omega arith)
