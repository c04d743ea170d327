-- ===== src/Spinlock.antt =====
-- src/thread/spinlock.c: the spinlock, and threads that run between its atomic operations. A thread is a number.
-- Its program is: lock, critical section, unlock, any number of times; only a thread that holds the lock
-- unlocks it.
pub mod Safety
mod Tests
use moonsugar.Prelude.{ℕ, ◌≡◌, Bool, true, false, ◌==◌, if◌then◌else◌}

-- `ms_spinlock`.
pub record Spinlock : Type 0 where
  pub lock : Bool

-- `ms_spinlock_construct`.
abbrev pub construct : Spinlock
construct = record { lock = false }

-- One round of the loop of `ms_spinlock_lock`: the value before, which keeps the thread in the loop.
abbrev pub test_and_set : Spinlock → Bool × Spinlock
test_and_set s = (s.lock, record { lock = true })

-- `ms_spinlock_unlock`.
abbrev pub unlock : Spinlock → Spinlock
unlock s = record { lock = false }

-- Where a thread is.
pub data Place : Type 0 where
  idle spinning critical : Place

pub record System : Type 0 where
  pub spinlock : Spinlock
  pub at : ℕ → Place

abbrev pub move : (ℕ → Place) → ℕ → Place → ℕ → Place
move at i p j = if j == i then p else at j

-- One atomic operation of one thread. After `test_and_set` the thread is in the loop still, or behind it.
pub data Step (s : System) : System → Type 0 where
  call_lock : (i : ℕ) → s.at i ≡ idle → Step s (record s { at = move s.at i spinning })
  spin :
      (i : ℕ)
      → s.at i ≡ spinning
      → Step s (record {
        spinlock = (test_and_set s.spinlock).1;
        at = move s.at i (if (test_and_set s.spinlock).0 then spinning else critical);
      })
  leave :
      (i : ℕ)
      → s.at i ≡ critical
      → Step s (record { spinlock = unlock s.spinlock; at = move s.at i idle })

-- The states that are reached from a lock just constructed, with every thread outside.
pub data Reach : System → Type 0 where
  start : Reach (record { spinlock = construct; at = λ _. idle })
  next : {s t : System} → Reach s → Step s t → Reach t
