-- ===== src/Coroutine/Pass.antt =====
-- The loop of one pass of the scheduler, and the taking away of a coroutine in it.
use mathlib.Core.List.{Perm, perm_middle, append_assoc, perm_append_singleton}
use mathlib.Core.List.Perm
use moonsugar.Prelude.{
  ℕ, suc, ◌+◌, ◌^◌, ◌<◌, ◌≡◌, refl, ap, ap₂, subst, ◌∙◌, sym, arith, true, false, Option, some,
  List, [], ◌∷◌, ◌++◌, length, length-append, get_elem?, set as set_elem, sub32, if◌then◌else◌,
  Bool-cases, inl, inr, ◌⊎◌,
}
use moonsugar.Coroutine.{Coroutine, Scheduler, remove_coroutine, execute, run_from}
use moonsugar.Coroutine.Rows.{onto, get_elem?-onto, set-onto, Snoc, Snoc-cases, get_elem?-append}

module _ {W : Type 0} (call : ℕ → ℕ → ℕ → W → ℕ × W) where
  -- The pass on the coroutines in the order in which they run: each is executed once, in the world
  -- that the ones before it left, and the ones that have not completed remain.
  unfoldable pub pass : List Coroutine → W → List Coroutine × W
  pass [] w = ([], w)
  pass (c ∷ cs) w =
      let (completed, c', w') = execute call c w in
      let (rest, w'') = pass cs w' in (if completed then rest else c' ∷ rest, w'')

  -- What the loop has done when the coroutines `rs` are still to run and `back` have remained.
  pub record Ran (rs back : List Coroutine) (w : W) (out : Option (Scheduler × W)) : Type 0 where
    pub after : Scheduler
    pub remaining : List Coroutine
    pub junk : List Coroutine
    pub run : out ≡ some (after, (pass rs w).1)
    pub slots : after.coroutines ≡ remaining ++ junk
    pub count : after.count ≡ length remaining
    pub same : Perm remaining ((pass rs w).0 ++ back)

  remove_at :
      (s : Scheduler) (i n : ℕ) (last : Coroutine)
      → s.count ≡ suc n
      → n < 2 ^ 32
      → get_elem? s.coroutines n ≡ some last
      → remove_coroutine s i
        ≡ some (record { coroutines = set_elem s.coroutines i last; count = n })
  unfolding remove_coroutine
  remove_at s i n last e word found = rw (less, found)
    where
      less : sub32 s.count 1 ≡ n
      less = rw e (omega arith)

  -- Slot `length rs`, in front of `back`, is away: the last of those behind it moved there.
  abbrev Removed : List Coroutine → List Coroutine → Scheduler → Type 0
  Removed rs back s =
      (after : Scheduler) × (back' : List Coroutine) × (junk' : List Coroutine) × (remove_coroutine
          s (length rs)
        ≡ some after)
      × (after.coroutines ≡ onto rs (back' ++ junk'))
      × (after.count ≡ length rs + length back')
      × (length back' ≡ length back)
      × Perm back' back

  remove_lem :
      (rs back junk : List Coroutine) (c : Coroutine) (s : Scheduler)
      → s.coroutines ≡ onto rs (c ∷ (back ++ junk))
      → s.count ≡ length rs + suc (length back)
      → s.count < 2 ^ 32
      → Removed rs back s
  remove_lem rs back junk c s slots count word =
      elim (Snoc-cases back) as (λ (z : Snoc back). Removed rs back s) [
        | inl e ↦ (
          record { coroutines = set_elem s.coroutines (length rs) c; count = length rs },
          [],
          c ∷ junk,
          remove_at s (length rs) (length rs) c (ends e) (omega arith) (first ∙ ap some refl),
          moved c ∙ ap (λ b. onto rs (c ∷ (b ++ junk))) e,
          omega arith,
          sym (ap length e),
          subst (λ b. Perm [] b) (sym e) Perm.nil,
        )
        | inr (front, last, e) ↦ (
          record {
            coroutines = set_elem s.coroutines (length rs) last;
            count = length rs + suc (length front);
          },
          last ∷ front,
          last ∷ junk,
          remove_at s (length rs) (length rs + suc (length front)) last (longer front last e)
              (omega (arith, longer front last e)) (found front last e),
          moved last ∙ ap (λ b. onto rs (last ∷ b)) (parts front last e),
          refl,
          omega (arith, ap length e, length-append front (last ∷ [])),
          subst (λ b. Perm (last ∷ front) b) (sym e) (Perm.symm (perm_append_singleton last front)),
        )
      ]
    where
      plus_zero : length rs ≡ length rs + 0
      plus_zero = omega arith

      ends : back ≡ [] → s.count ≡ suc (length rs)
      ends e = omega (arith, ap length e)

      first : get_elem? s.coroutines (length rs) ≡ some c
      first = ap₂ get_elem? slots plus_zero ∙ get_elem?-onto rs (c ∷ (back ++ junk)) 0

      moved : (x : Coroutine) → set_elem s.coroutines (length rs) x ≡ onto rs (x ∷ (back ++ junk))
      moved x = ap₂ (λ cs n. set_elem cs n x) slots plus_zero ∙ set-onto rs (c ∷ (back ++ junk)) 0 x

      parts :
          (front : List Coroutine) (last : Coroutine)
          → back ≡ front ++ (last ∷ [])
          → back ++ junk ≡ front ++ (last ∷ junk)
      parts front last e = ap (λ b. b ++ junk) e ∙ append_assoc front (last ∷ []) junk

      longer :
          (front : List Coroutine) (last : Coroutine)
          → back ≡ front ++ (last ∷ [])
          → s.count ≡ suc (length rs + suc (length front))
      longer front last e = omega (arith, ap length e, length-append front (last ∷ []))

      found :
          (front : List Coroutine) (last : Coroutine)
          → back ≡ front ++ (last ∷ [])
          → get_elem? s.coroutines (length rs + suc (length front)) ≡ some last
      found front last e =
          ap (λ cs. get_elem? cs (length rs + suc (length front))) slots
          ∙ get_elem?-onto rs (c ∷ (back ++ junk)) (suc (length front))
          ∙ ap₂ get_elem? (parts front last e) zeros
          ∙ get_elem?-append front (last ∷ junk) 0
        where
          zeros : length front ≡ length front + 0
          zeros = omega arith

  -- One round whose coroutine has completed, and one whose has not.
  round_completed :
      (c : Coroutine) (rs back back' : List Coroutine) (s after : Scheduler) (w : W)
      → let (completed, c', w') = execute call c w in
        get_elem? s.coroutines (length rs) ≡ some c
        → completed ≡ true
        → remove_coroutine
            (record s { coroutines = set_elem s.coroutines (length rs) c' })
            (length rs)
          ≡ some after
        → Perm back' back
        → Ran rs back' w' (run_from call (length rs) after w')
        → Ran (c ∷ rs) back w (run_from call (suc (length rs)) s w)
  unfolding pass run_from
  round_completed c rs back back' s after w found t gone same_back r = record {
    after = r.after;
    remaining = r.remaining;
    junk = r.junk;
    run = rw (found, t, gone) r.run;
    slots = r.slots;
    count = r.count;
    same = rw t (Perm.trans r.same (Perm.append_left (pass rs (execute call c w).2).0 same_back));
  }

  round_kept :
      (c : Coroutine) (rs back : List Coroutine) (s : Scheduler) (w : W)
      → let (completed, c', w') = execute call c w in
        let ran = record s { coroutines = set_elem s.coroutines (length rs) c' } in
        get_elem? s.coroutines (length rs) ≡ some c
        → completed ≡ false
        → Ran rs (c' ∷ back) w' (run_from call (length rs) ran w')
        → Ran (c ∷ rs) back w (run_from call (suc (length rs)) s w)
  unfolding pass run_from
  round_kept c rs back s w found f r = record {
    after = r.after;
    remaining = r.remaining;
    junk = r.junk;
    run = rw (found, f) r.run;
    slots = r.slots;
    count = r.count;
    same = rw f (Perm.trans r.same (perm_middle (pass rs (execute call c w).2).0 back));
  }

  -- The rest of a pass.
  pub pass_lem :
      (rs back junk : List Coroutine) (s : Scheduler) (w : W)
      → s.coroutines ≡ onto rs (back ++ junk)
      → s.count ≡ length rs + length back
      → s.count < 2 ^ 32
      → Ran rs back w (run_from call (length rs) s w)
  unfolding pass run_from
  pass_lem [] back junk s w slots count word = record {
    after = s;
    remaining = back;
    junk = junk;
    run = refl;
    slots = slots;
    count = count ∙ omega arith;
    same = Perm.refl back;
  }
  pass_lem (c ∷ rs) back junk s w slots count word =
      elim (Bool-cases (execute call c w).0)
        as (λ (z : ((execute call c w).0 ≡ true) ⊎ ((execute call c w).0 ≡ false)).
          Ran (c ∷ rs) back w (run_from call (suc (length rs)) s w)) [
            | inl t ↦
                let (after, back', junk', gone, after-slots, fewer, same_length, same_back) =
                  remove_lem rs back junk c' ran ran-slots (omega (arith, count)) word in
                round_completed c rs back back' s after w found t gone same_back (
                  pass_lem rs back' junk' after w' after-slots fewer
                    (omega (arith, fewer, count, word, same_length)))
            | inr f ↦
                round_kept c rs back s w found f
                  (pass_lem rs (c' ∷ back) junk ran w' ran-slots (omega (arith, count)) word)
          ]
    where
      c' : Coroutine
      c' = (execute call c w).1

      w' : W
      w' = (execute call c w).2

      plus_zero : length rs ≡ length rs + 0
      plus_zero = omega arith

      found : get_elem? s.coroutines (length rs) ≡ some c
      found = ap₂ get_elem? slots plus_zero ∙ get_elem?-onto rs (c ∷ (back ++ junk)) 0

      ran : Scheduler
      ran = record s { coroutines = set_elem s.coroutines (length rs) c' }

      ran-slots : ran.coroutines ≡ onto rs (c' ∷ (back ++ junk))
      ran-slots =
          ap₂ (λ cs n. set_elem cs n c') slots plus_zero ∙ set-onto rs (c ∷ (back ++ junk)) 0 c'
