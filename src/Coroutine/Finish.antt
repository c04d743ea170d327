-- ===== src/Coroutine/Finish.antt =====
-- The loop of the scheduler, src/coroutine.c, ends where every coroutine completes after a bounded number of runs.
use mathlib.Core.List.{Perm, Permᴰ, reverse, reverse_perm}
use mathlib.Core.List.Perm
use mathlib.Core.Logic.{∥∥₁_elim}
use native.Mathlib.Nat.{ℕ_set}
use moonsugar.Prelude.{
  ℕ, zero, suc, ◌^◌, ◌≤◌, ◌<◌, ◌≡◌, refl, ap, subst, ◌∙◌, arith, true, false, Bool-cases, inl, inr,
  some, List, [], ◌∷◌, length, ltb,
}
use moonsugar.Coroutine.{Coroutine, Scheduler, execute, loop}
use moonsugar.Coroutine.Rows.{length-reverse}
use moonsugar.Coroutine.Pass.{pass}
use moonsugar.Coroutine.RunOnce.{Holds, run_once_lem}

module _ {W : Type 0} (call : ℕ → ℕ → ℕ → W → ℕ × W) where
  -- The coroutine completes within `n` runs, in whichever worlds it is run.
  abbrev pub CompletesIn : ℕ → Coroutine → Type 0
  CompletesIn zero c = ⊥
  CompletesIn (suc n) c =
      (w : W) → (execute call c w).0 ≡ false → CompletesIn n (execute call c w).1

  abbrev pub AllCompleteIn : ℕ → List Coroutine → Type 0
  AllCompleteIn n [] = Unit
  AllCompleteIn n (c ∷ cs) = CompletesIn n c × AllCompleteIn n cs

  CompletesIn-prop : (n : ℕ) (c : Coroutine) → IsProp (CompletesIn n c)
  CompletesIn-prop zero c = hlevel
  CompletesIn-prop (suc n) c =
      let each : (c : Coroutine) → IsProp (CompletesIn n c) = CompletesIn-prop n in hlevel each

  AllCompleteIn-prop : (n : ℕ) (cs : List Coroutine) → IsProp (AllCompleteIn n cs)
  AllCompleteIn-prop n [] = hlevel
  AllCompleteIn-prop n (c ∷ cs) = hlevel (CompletesIn-prop n c, AllCompleteIn-prop n cs)

  permute : (n : ℕ) {xs ys : List Coroutine} → Permᴰ xs ys → AllCompleteIn n xs → AllCompleteIn n ys
  permute n Permᴰ.nil h = tt
  permute n (Permᴰ.cons e p) (h, rest) = (subst (CompletesIn n) e h, permute n p rest)
  permute n (Permᴰ.swap e f) (h, (k, rest)) =
      (subst (CompletesIn n) f k, (subst (CompletesIn n) e h, rest))
  permute n (Permᴰ.trans p q) h = permute n q (permute n p h)

  length-Perm : {xs ys : List Coroutine} → Permᴰ xs ys → length xs ≡ length ys
  length-Perm Permᴰ.nil = refl
  length-Perm (Permᴰ.cons e p) = ap suc (length-Perm p)
  length-Perm (Permᴰ.swap e f) = refl
  length-Perm (Permᴰ.trans p q) = length-Perm p ∙ length-Perm q

  lengths : {xs ys : List Coroutine} → Perm xs ys → length xs ≡ length ys
  lengths {xs} {ys} p = ∥∥₁_elim p (ℕ_set _ _) length-Perm

  permuted : (n : ℕ) {xs ys : List Coroutine} → Perm xs ys → AllCompleteIn n xs → AllCompleteIn n ys
  permuted n {xs} {ys} p h = ∥∥₁_elim p (AllCompleteIn-prop n ys) (λ d. permute n d h)

  -- After a pass, one run less is left to each coroutine that remains.
  pass-AllCompleteIn :
      (n : ℕ) (cs : List Coroutine) (w : W)
      → AllCompleteIn (suc n) cs
      → AllCompleteIn n (pass call cs w).0
  unfolding pass
  pass-AllCompleteIn n [] w h = tt
  pass-AllCompleteIn n (c ∷ cs) w (h, rest) =
      let others = pass-AllCompleteIn n cs (execute call c w).2 rest in
      elim (Bool-cases (execute call c w).0) [
        | inl done ↦ rw done others
        | inr left ↦ rw left (h w left, others)
      ]

  length-pass : (cs : List Coroutine) (w : W) → length (pass call cs w).0 ≤ length cs
  unfolding pass
  length-pass [] w = omega arith
  length-pass (c ∷ cs) w =
      let others = length-pass cs (execute call c w).2 in
      elim (Bool-cases (execute call c w).0) [
        | inl done ↦ rw done (omega (arith, others))
        | inr left ↦ rw left (omega (arith, others))
      ]

-- Where every coroutine that a scheduler holds, fewer than 2 ^ 32 of them, completes within `n` runs, whatever
-- the others do, `ms_co_scheduler_loop` ends after at most `n` passes, and the scheduler holds no coroutine.
pub loop_ends :
    {W : Type 0} (call : ℕ → ℕ → ℕ → W → ℕ × W) (n : ℕ) (active : List Coroutine) (s : Scheduler)
    (w : W)
    → Holds s active
    → s.count < 2 ^ 32
    → AllCompleteIn call n active
    → (after : Scheduler) × (w' : W) × (loop call (suc n) s w ≡ some (after, w'))
      × (after.count ≡ 0)
unfolding loop
loop_ends call n [] s w h word bounded =
    let stop : ltb 0 s.count ≡ false = ground (arith, h.count) in (s, w, rw stop refl, h.count)
loop_ends call zero (c ∷ cs) s w h word (never, rest) = absurd never
loop_ends call (suc n) (c ∷ cs) s w h word bounded =
    let active = c ∷ cs in
    let go : ltb 0 s.count ≡ true = ground (arith, h.count) in
    let (next, remaining, run, holds, same) = run_once_lem call active s w h word in
    let all = permuted call (suc n) (Perm.symm (reverse_perm active)) bounded in
    let fewer : next.count < 2 ^ 32 = omega (
      arith,
      holds.count,
      lengths call same,
      length-pass call (reverse active) w,
      length-reverse active,
      h.count,
      word,
    ) in
    let (after, w', rest, none_left) =
      loop_ends call n remaining next (pass call (reverse active) w).1 holds fewer
        (permuted call n (Perm.symm same) (pass-AllCompleteIn call n (reverse active) w all)) in
    (after, w', rw (go, run) rest, none_left)
