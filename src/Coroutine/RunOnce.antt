-- ===== src/Coroutine/RunOnce.antt =====
-- One pass of the scheduler, src/coroutine.c, and scheduling one coroutine more.
use mathlib.Core.List.{Perm, reverse, reverse-reverse, append-nil}
use moonsugar.Prelude.{
  ℕ, ◌+◌, ◌^◌, ◌<◌, ◌≡◌, ap, subst, ◌∙◌, sym, arith, some, List, [], ◌++◌, length, set as set_elem,
}
use moonsugar.Coroutine.{Coroutine, Scheduler, run_from, run_once}
use moonsugar.Coroutine.Rows.{onto, onto-reverse, length-reverse}
use moonsugar.Coroutine.Pass.{pass, pass_lem}

-- The coroutines that a scheduler holds, in the order of its slots.
pub record Holds (s : Scheduler) (active : List Coroutine) : Type 0 where
  pub junk : List Coroutine
  pub slots : s.coroutines ≡ active ++ junk
  pub count : s.count ≡ length active

-- A pass over a scheduler that holds the coroutines `active`, fewer than 2 ^ 32 of them, does not leave
-- the slots. It executes each coroutine exactly once, from the last to the first, in the world that the
-- ones before left, and the scheduler then holds, in some order, the ones that have not completed.
pub run_once_lem :
    {W : Type 0} (call : ℕ → ℕ → ℕ → W → ℕ × W) (active : List Coroutine) (s : Scheduler) (w : W)
    → Holds s active
    → s.count < 2 ^ 32
    → (after : Scheduler) × (remaining : List Coroutine) × (run_once call s w
        ≡ some (after, (pass call (reverse active) w).1))
      × Holds after remaining
      × Perm remaining (pass call (reverse active) w).0
unfolding run_once
run_once_lem call active s w h word =
    let r = pass_lem call (reverse active) [] h.junk s w slots count word in
    (
      r.after,
      r.remaining,
      ap (λ n. run_from call n s w) all ∙ r.run,
      record { junk = r.junk; slots = r.slots; count = r.count },
      subst (Perm r.remaining) (append-nil _) r.same,
    )
  where
    all : s.count ≡ length (reverse active)
    all = h.count ∙ sym (length-reverse active)

    count : s.count ≡ length (reverse active) + 0
    count = omega (arith, all)

    slots : s.coroutines ≡ onto (reverse active) h.junk
    slots =
        h.slots
        ∙ sym (
            onto-reverse (reverse active) h.junk ∙ ap (λ cs. cs ++ h.junk) (reverse-reverse active))
