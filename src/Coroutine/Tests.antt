-- ===== src/Coroutine/Tests.antt =====
-- Two coroutines, of which the handler 1 completes at once and the handler 2 counts its runs.
use mathlib.Core.List.{Perm, reverse}
use moonsugar.Prelude.{
  ℕ, ◌+◌, ◌≡◌, refl, arith, some, List, [], ◌∷◌, replicate, ◌==◌, if◌then◌else◌,
}
use moonsugar.Coroutine.{Coroutine, Scheduler, status_completed, execute, run_once, loop}
use moonsugar.Coroutine.Pass.{pass}
use moonsugar.Coroutine.Finish.{CompletesIn, loop_ends}
use moonsugar.Coroutine.RunOnce.{Holds, run_once_lem}

abbrev counting : ℕ → ℕ → ℕ → ℕ → ℕ × ℕ
counting handler context status w = (if handler == 1 then status_completed else status + 1, w + 1)

abbrev ends : Coroutine
ends = record { handler = 1; context = 0; status = 0 }

abbrev counts : Coroutine
counts = record { handler = 2; context = 0; status = 0 }

abbrev scheduler : Scheduler
scheduler = record { coroutines = ends ∷ counts ∷ replicate 1022 ends; count = 2 }

scheduler-Holds : Holds scheduler (ends ∷ counts ∷ [])
scheduler-Holds = record { junk = replicate 1022 ends; slots = refl; count = refl }

run_once_lem_example :
    (after : Scheduler) × (remaining : List Coroutine) × (run_once counting scheduler 0
      ≡ some (after, (pass counting (reverse (ends ∷ counts ∷ [])) 0).1))
    × Holds after remaining
    × Perm remaining (pass counting (reverse (ends ∷ counts ∷ [])) 0).0
run_once_lem_example =
    run_once_lem counting (ends ∷ counts ∷ []) scheduler 0 scheduler-Holds (omega arith)

-- A handler that completes when it is run for the second time.
abbrev twice : ℕ → ℕ → ℕ → ℕ → ℕ × ℕ
twice handler context status w = (if status == 0 then 1 else status_completed, w + 1)

completes : (c : Coroutine) → c.status ≡ 0 → CompletesIn twice 2 c
unfolding execute
completes c fresh w left w' again = ground arith

loop_ends_example :
    (after : Scheduler) × (w : ℕ) × (loop twice 3 scheduler 0 ≡ some (after, w)) × (after.count ≡ 0)
loop_ends_example =
    loop_ends twice 2 (ends ∷ counts ∷ []) scheduler 0 scheduler-Holds (omega arith)
      (completes ends refl, (completes counts refl, tt))
