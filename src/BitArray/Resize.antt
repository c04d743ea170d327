-- ===== src/BitArray/Resize.antt =====
-- `ms_barray_resize`, and what rests on it: growing keeps the bits, shrinking writes out of bounds.
use mathlib.Core.List.{append-nil}
use moonsugar.Prelude.Loops.{zero_from_lem}
use moonsugar.Prelude.{
  ℕ, ◌+◌, ◌-◌, ◌*◌, ◌/◌, ◌%◌, ◌^◌, ◌≤◌, ◌<◌, ◌≡◌, refl, ap, ap₂, ◌∙◌, sym, arith, true, false, ◌&&◌,
  none, some, List, [], ◌++◌, length, get_or, take, replicate, length-take, length-append,
  length-replicate, take-append, take-take, drop_all, get_or-append, get_or-replicate, bit, ◌==◌,
  if◌then◌else◌, ltb, leb, dec_lt, ℕ_discrete, lt→ltb, sub32,
}
use moonsugar.Api.{success, memory, Allocator, null}
use moonsugar.Bits.{bit-zero}
use moonsugar.BitArray.{BitArray, resize, zero_words, clear_all}
use moonsugar.BitArray.Laws.{IsValid, bit_at}

-- What clearing the words behind the old ones leaves.
module _ (ws fresh : List ℕ) (old new : ℕ) (sized : length ws ≡ old) where
  abbrev grown : List ℕ
  grown = take new (ws ++ fresh)

  length-grown : new ≤ old + length fresh → length grown ≡ new
  length-grown h = omega (arith, length-take new (ws ++ fresh), length-append ws fresh)

  zero_words-grown :
      old ≤ new
      → new ≤ old + length fresh
      → zero_words grown old (new - old) ≡ some (ws ++ replicate (new - old) 0)
  zero_words-grown h given = rw inside (
      ap some (
        ap₂ ◌++◌ (take-take old new (ws ++ fresh) h ∙ take-append old ws fresh sized) (
          ap (λ rest. replicate (new - old) 0 ++ rest)
            (drop_all (old + (new - old)) grown (omega (arith, length-grown given)))
          ∙ append-nil _)))
    where
      inside : leb (old + (new - old)) (length grown) ≡ true
      inside = ground (arith, length-grown given)

  clearing :
      old ≤ new
      → new < 2 ^ 32
      → new ≤ old + length fresh
      → (if ltb 0 (sub32 new old) then zero_words grown old (sub32 new old) else some grown)
        ≡ some (ws ++ replicate (new - old) 0)
  clearing h word given = elim (ℕ_discrete old new) [
    | yes e ↦
        let none_new : sub32 new old ≡ 0 = omega arith in
        let all_old : new - old ≡ 0 = omega arith in
        rw (none_new, all_old)
          (ap some (take-append new ws fresh (sized ∙ e) ∙ sym (append-nil ws)))
    | no ne ↦
        let delta : sub32 new old ≡ new - old = omega (arith, ne) in
        let some_new : ltb 0 (new - old) ≡ true = lt→ltb _ _ (omega (arith, ne)) in
        rw (delta, some_new) (zero_words-grown h given)
  ]

  bit-grown :
      (j : ℕ)
      → bit (get_or (ws ++ replicate (new - old) 0) (j / 64) 0) (j % 64)
        ≡ (if ltb (j / 64) old then bit (get_or ws (j / 64) 0) (j % 64) else 0)
  bit-grown j = elim (dec_lt (j / 64) old) [
    | yes h ↦ ground (arith, get_or-append ws (replicate (new - old) 0) (j / 64) 0)
    | no h ↦ ground (
      arith,
      h,
      get_or-append ws (replicate (new - old) 0) (j / 64) 0,
      get_or-replicate {A = ℕ} (new - old) (j / 64 - length ws) 0,
      bit-zero (j % 64),
    )
  ]

module _ {b : BitArray} (v : IsValid b) (a : Allocator) (fresh : List ℕ) (bits : ℕ) where
  -- The allocator gave a block, or none was asked for.
  abbrev pub Answered : Type 0
  Answered = (a.reallocate b.data_pointer (8 * (bits / 64)) ≡ null) → bits / 64 ≡ 0

  block_given :
      Answered
      → (a.reallocate b.data_pointer (8 * (bits / 64)) == null && ltb 0 (bits / 64)) ≡ false
  block_given answered = ground (arith, answered)

  -- Growing succeeds where the allocator gives the block: the old bits stay, and the new ones are 0.
  pub resize_grows :
      b.capacity ≤ bits / 64
      → bits < 2 ^ 32
      → Answered
      → bits / 64 ≤ b.capacity + length fresh
      → (after : BitArray) × (resize a fresh b bits ≡ some (success, after))
        × IsValid after
        × (after.capacity ≡ bits / 64)
        × ((j : ℕ) → bit_at after j ≡ (if ltb (j / 64) b.capacity then bit_at b j else 0))
  unfolding resize
  resize_grows grows word answered given = (
    record b {
      data_pointer = a.reallocate b.data_pointer (8 * (bits / 64));
      words = b.words ++ replicate (bits / 64 - b.capacity) 0;
      capacity = bits / 64;
    },
    rw
        (
          block_given answered,
          clearing b.words fresh b.capacity (bits / 64) v.sized grows (omega arith) given,
        )
        refl,
    record {
      sized = omega (
        arith,
        length-append b.words (replicate (bits / 64 - b.capacity) 0),
        length-replicate {0} {A = ℕ} (bits / 64 - b.capacity) 0,
        v.sized,
      );
    },
    refl,
    bit-grown b.words fresh b.capacity (bits / 64) v.sized,
  )

  -- Shrinking is undefined: the difference of the capacities wraps at 32 bits, and `memset` is told to
  -- clear some 2 ^ 32 words behind the block.
  pub resize_shrinks :
      bits / 64 < b.capacity → b.capacity < 2 ^ 32 → Answered → resize a fresh b bits ≡ none
  unfolding resize
  resize_shrinks shrinks word answered =
      let delta : sub32 (bits / 64) b.capacity ≡ 2 ^ 32 + bits / 64 - b.capacity = omega arith in
      let wraps : ltb 0 (2 ^ 32 + bits / 64 - b.capacity) ≡ true = lt→ltb _ _ (omega arith) in
      rw (block_given answered, delta, wraps, outside) refl
    where
      outside :
          leb
            (b.capacity + (2 ^ 32 + bits / 64 - b.capacity))
            (length (take (bits / 64) (b.words ++ fresh)))
          ≡ false
      outside = ground (arith, length-take (bits / 64) (b.words ++ fresh))

  -- Where the allocator fails the result says so, and no words are left to access.
  pub resize_fails :
      a.reallocate b.data_pointer (8 * (bits / 64)) ≡ null
      → 0 < bits / 64
      → resize a fresh b bits ≡ some (memory, record b { data_pointer = null; words = [] })
  unfolding resize
  resize_fails refused some_bits = ground arith

-- `ms_barray_clear_all` clears every bit of a valid array, and stays inside its words.
pub clear_all_lem :
    {b : BitArray}
    → IsValid b
    → (after : BitArray) × (clear_all b ≡ some after)
      × IsValid after
      × (after.capacity ≡ b.capacity)
      × ((j : ℕ) → bit_at after j ≡ 0)
unfolding clear_all
clear_all_lem {b} v =
    let (done, run, sized, zeros) = zero_from_lem b.capacity 0 b.words (omega (arith, v.sized)) in
    (
      record b { words = done },
      rw run refl,
      record { sized = sized ∙ v.sized },
      refl,
      λ j. ap (λ w. bit w (j % 64)) (zero_word done (j / 64) (zeros (j / 64))) ∙ bit-zero (j % 64),
    )
  where
    zero_word :
        (done : List ℕ) (k : ℕ)
        → get_or done k 0 ≡ (if leb 0 k then 0 else get_or b.words k 0)
        → get_or done k 0 ≡ 0
    zero_word done k e = ground arith
