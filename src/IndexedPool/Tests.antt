-- ===== src/IndexedPool/Tests.antt =====
-- A pool of 128 items, the first 64 of which and item 65 are taken.
use moonsugar.Prelude.{
  ℕ, zero, suc, ◌^◌, ◌<◌, ◌≡◌, ◌⊎◌, refl, arith, some, [], ◌∷◌, u32_max, u64_max, get_or, ◌==◌,
  if◌then◌else◌,
}
use moonsugar.Api.{success, invalid_argument, Allocator}
use moonsugar.IndexedPool.{IndexedPool, construct, acquire, release}
use moonsugar.IndexedPool.Acquire.{IsValid, taken, Acquired, acquire_cases}
use moonsugar.IndexedPool.Release.{release_lem}

abbrev at_1000 : Allocator
at_1000 = record { allocate = λ _ _. 1000; reallocate = λ _ _. 1000 }

abbrev pool : IndexedPool
pool = record { state_pointer = 1000; state = u64_max ∷ 2 ∷ []; item_count = 128; last_state = 0 }

abbrev fresh : IndexedPool
fresh = record { state_pointer = 1000; state = 0 ∷ 0 ∷ []; item_count = 128; last_state = 0 }

pool-IsValid : IsValid pool
pool-IsValid = record {
  sized = refl;
  multiple = refl;
  small = omega arith;
  words = words;
  from = omega arith;
}
  where
    words : (i : ℕ) → get_or pool.state i 0 < 2 ^ 64
    words zero = omega arith
    words (suc zero) = omega arith
    words (suc (suc i)) = omega arith

acquire_cases_example :
    Acquired pool (acquire pool)
    ⊎ ((acquire pool ≡ some (u32_max, pool)) × ((j : ℕ) → j < 128 → taken pool j ≡ 1))
acquire_cases_example = acquire_cases pool-IsValid

release_lem_example :
    (after : IndexedPool) × (release pool 5
      ≡ some ((if taken pool 5 == 0 then invalid_argument else success), after))
    × ((j : ℕ) → taken after j ≡ (if j == 5 then 0 else taken pool j))
    × IsValid after
release_lem_example = release_lem pool-IsValid 5 (omega arith) (omega arith)

constructed : construct at_1000 pool 128 ≡ (success, fresh)
unfolding construct
constructed = refl
