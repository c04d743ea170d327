-- ===== src/Spinlock/Safety.antt =====
-- What holds in every state that a spinlock reaches.
use moonsugar.Prelude.{
  ℕ, ◌≡◌, ◌≢◌, ◌⊎◌, inl, inr, refl, arith, true, false, Bool-cases, if◌then◌else◌,
}
use moonsugar.Spinlock.{
  spinning, critical, System, Step, call_lock, spin, leave, Reach, start, next, move, test_and_set,
}

-- The lock is set exactly while a thread is in the critical section, and that is one thread.
record Guarded (s : System) : Type 0 where
  unique : (i j : ℕ) → s.at i ≡ critical → s.at j ≡ critical → i ≡ j
  held : (i : ℕ) → s.at i ≡ critical → s.spinlock.lock ≡ true
  holder : s.spinlock.lock ≡ true → (i : ℕ) × (s.at i ≡ critical)

spin-Guarded :
    (s : System) (i : ℕ)
    → s.at i ≡ spinning
    → (s.spinlock.lock ≡ true) ⊎ (s.spinlock.lock ≡ false)
    → Guarded s
    → Guarded (record {
      spinlock = (test_and_set s.spinlock).1;
      at = move s.at i (if (test_and_set s.spinlock).0 then spinning else critical);
    })
spin-Guarded s i e (inl t) g = record {
  unique = λ a b p q. ground (arith, t, g.unique a b, e);
  held = λ a p. refl;
  holder = λ h. let (a, p) = g.holder t in (a, ground (arith, t, e));
}
spin-Guarded s i e (inr f) g = record {
  unique = λ a b p q. ground (arith, f, g.held a, g.held b);
  held = λ a p. refl;
  holder = λ h. (i, ground (arith, f));
}

Step-Guarded : {s t : System} → Step s t → Guarded s → Guarded t
Step-Guarded (call_lock i e) g = record {
  unique = λ a b p q. ground (arith, g.unique a b, e);
  held = λ a p. ground (arith, g.held a, e);
  holder = λ h. let (a, p) = g.holder h in (a, ground (arith, e));
}
Step-Guarded {s = s} (spin i e) g = spin-Guarded s i e (Bool-cases s.spinlock.lock) g
Step-Guarded (leave i e) g = record {
  unique = λ a b p q. ground (arith, g.unique a b);
  held = λ a p. ground (arith, g.unique a i);
  holder = λ h. ground arith;
}

Reach-Guarded : {s : System} → Reach s → Guarded s
Reach-Guarded start = record {
  unique = λ a b p q. ground arith;
  held = λ a p. ground arith;
  holder = λ h. ground arith;
}
Reach-Guarded (next r st) = Step-Guarded st (Reach-Guarded r)

-- In every state that is reached, whatever the order of the threads' steps, at most one thread is in the
-- critical section.
pub mutual_exclusion :
    {s : System} → Reach s → (i j : ℕ) → s.at i ≡ critical → s.at j ≡ critical → i ≡ j
mutual_exclusion r i j p q = (Reach-Guarded r).unique i j p q

-- In every state that is reached where no thread is in the critical section, a thread that spins is in the
-- critical section after its next step.
pub spin_enters :
    {s : System}
    → Reach s
    → ((j : ℕ) → s.at j ≢ critical)
    → (i : ℕ) → s.at i ≡ spinning
    → (t : System) × Step s t × (t.at i ≡ critical)
spin_enters {s} r none_inside i e = (
  record {
    spinlock = (test_and_set s.spinlock).1;
    at = move s.at i (if (test_and_set s.spinlock).0 then spinning else critical);
  },
  spin i e,
  ground (arith, free),
)
  where
    free : s.spinlock.lock ≡ false
    free = elim (Bool-cases s.spinlock.lock) [
      | inl t ↦ let (j, p) = (Reach-Guarded r).holder t in absurd (none_inside j p)
      | inr f ↦ f
    ]
