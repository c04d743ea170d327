-- ===== src/Spinlock/Tests.antt =====
-- Thread 0 is in the critical section and leaves it, while thread 1 spins.
use moonsugar.Prelude.{ℕ, true, ◌≡◌, refl}
use moonsugar.Spinlock.{
  System, Reach, critical, spinning, idle, start, next, call_lock, spin, leave, move, unlock,
}
use moonsugar.Spinlock.Safety.{mutual_exclusion}

abbrev entered : System
entered = record {
  spinlock = record { lock = true };
  at = move (move (move (λ _. idle) 0 spinning) 1 spinning) 0 critical;
}

abbrev left : System
left = record { spinlock = unlock entered.spinlock; at = move entered.at 0 idle }

entered-Reach : Reach entered
entered-Reach = next (next (next start (call_lock 0 refl)) (call_lock 1 refl)) (spin 0 refl)

left-Reach : Reach left
left-Reach = next entered-Reach (leave 0 refl)

mutual_exclusion_example : ◌≡◌ {A = ℕ} 0 0
mutual_exclusion_example = mutual_exclusion entered-Reach 0 0 refl refl
