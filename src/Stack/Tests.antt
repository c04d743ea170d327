-- ===== src/Stack/Tests.antt =====
-- An allocation of 16 bytes that commits memory, from a top that is not aligned.
use moonsugar.Prelude.{ℕ, ◌≤◌, ◌≡◌, refl, arith, Bool, true, some}
use moonsugar.Stack.{Stack, malloc}
use moonsugar.Stack.Laws.{IsValid, malloc_lem}

abbrev commits : ℕ → ℕ → Bool
commits start count = true

abbrev stack : Stack
stack = record { base = 4096; size = 65536; top = 4099; committed_top = 4100 }

stack-IsValid : IsValid stack
stack-IsValid = record { based = omega arith; committed = omega arith; word = omega arith }

malloc_lem_example :
    (after : Stack) × (malloc commits stack 16 8 ≡ some (4099, after))
    × IsValid after
    × (4115 ≤ after.top)
    × (after.base ≡ 4096)
malloc_lem_example =
    malloc_lem commits stack stack-IsValid 16 8 (λ start count. refl) (omega arith) (omega arith)
