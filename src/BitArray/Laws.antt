-- ===== src/BitArray/Laws.antt =====
-- `ms_barray_set`, `ms_barray_clear` and `ms_barray_get` on bits inside the words.

use moonsugar.Prelude.{
  ℕ, ◌/◌, ◌%◌, ◌^◌, ◌≤◌, ◌<◌, ◌≡◌, refl, ap, ◌∙◌, arith, true, false, Option, none, some, List,
  length, get_or, set as set_elem, length-set, get_or-set, get_elem?-eq-get_or, get_elem?-none, bit,
  bit_and, bit_or, ◌&&◌, ◌||◌, ◌==◌, if◌then◌else◌, ltb, leb, ◌>>=◌, ℕ_discrete, lt→ltb,
}
use moonsugar.Api.{MsResult, success, invalid_argument, Allocator}
use moonsugar.Bits.{bit_and-mask, bit-set, bit-clear, test-digit}
use moonsugar.BitArray.{BitArray, make_room, change, set, clear, get, mod64, complement32}

pub record IsValid (b : BitArray) : Type 0 where
  pub sized : length b.words ≡ b.capacity

-- The bit that an index stands for.
abbrev pub bit_at : BitArray → ℕ → ℕ
bit_at b i = bit (get_or b.words (i / 64) 0) (i % 64)

-- An index inside the words whose bit a 32-bit shift can reach.
pub record IsReachable (b : BitArray) (i : ℕ) : Type 0 where
  pub inside : i / 64 < b.capacity
  pub low : i % 64 < 32

mod64_lem : (i : ℕ) → mod64 i ≡ i % 64
mod64_lem i = bit_and-mask 6 i

module _ {b : BitArray} (v : IsValid b) where
  -- On a reachable index `ms_barray_get` answers whether the bit is 1.
  pub get-bit_at : (i : ℕ) → IsReachable b i → get b i ≡ some (bit_at b i == 1)
  unfolding get
  get-bit_at i r =
      rw
        (
          mod64_lem i,
          get_elem?-eq-get_or b.words (i / 64) 0 (omega (arith, v.sized, r.inside)),
          lt→ltb _ _ r.low,
        )
        (ap some (test-digit (get_or b.words (i / 64) 0) (i % 64)))

  -- The bits after a write of one word.
  bit_at-set_elem :
      (i word j : ℕ)
      → i / 64 < b.capacity
      → bit_at (record b { words = set_elem b.words (i / 64) word }) j
        ≡ (if j / 64 == i / 64 then bit word (j % 64) else bit_at b j)
  bit_at-set_elem i word j h =
      ground (arith, get_or-set b.words (i / 64) (j / 64) word 0 (omega (arith, v.sized)))

  change-set_elem :
      (op : ℕ → ℕ → ℕ) (a : Allocator) (fresh : List ℕ) (i : ℕ)
      → IsReachable b i
      → change a fresh op (i / 64) (mod64 i) (success, b)
        ≡ some (
          success,
          record b {
            words = set_elem b.words (i / 64) (op (get_or b.words (i / 64) 0) (2 ^ (i % 64)));
          },
        )
  unfolding change
  change-set_elem op a fresh i r = rw (
    mod64_lem i,
    lt→ltb _ _ r.low,
    get_elem?-eq-get_or b.words (i / 64) 0 (omega (arith, v.sized, r.inside)),
  )

-- Two indices are one index where word and offset agree.
same_index : (i j : ℕ) → i / 64 ≡ j / 64 → i % 64 ≡ j % 64 → i ≡ j
same_index i j h k = omega arith

-- What a successful write has done: the array is valid, as large as before, and each bit is given.
pub record Wrote (b : BitArray) (bit_after : ℕ → ℕ) (out : Option (MsResult × BitArray))
    : Type 0 where
  pub after : BitArray
  pub run : out ≡ some (success, after)
  pub valid : IsValid after
  pub same_capacity : after.capacity ≡ b.capacity
  pub bits : (j : ℕ) → bit_at after j ≡ bit_after j

module _ {b : BitArray} (v : IsValid b) (a : Allocator) (fresh : List ℕ) (i : ℕ)
    (r : IsReachable b i) where
  make_room_inside : make_room a fresh b (i / 64) ≡ some (success, b)
  unfolding make_room
  make_room_inside = ground (arith, r.inside)

  -- `ms_barray_set` at a reachable index succeeds, and sets that bit and no other.
  pub set-Wrote : Wrote b (λ j. if j == i then 1 else bit_at b j) (set a fresh b i)
  unfolding set
  set-Wrote = record {
    after = record b { words = set_elem b.words (i / 64) word };
    run = rw make_room_inside (change-set_elem v _ a fresh i r);
    valid = record { sized = length-set b.words (i / 64) word ∙ v.sized };
    same_capacity = refl;
    bits = λ j. bit_at-set_elem v i word j r.inside ∙ each j;
  }
    where
      old : ℕ
      old = get_or b.words (i / 64) 0

      word : ℕ
      word = bit_or old (2 ^ (i % 64))

      each :
          (j : ℕ)
          → (if j / 64 == i / 64 then bit word (j % 64) else bit_at b j)
            ≡ (if j == i then 1 else bit_at b j)
      each j = elim (ℕ_discrete (j / 64) (i / 64)) [
        | yes e ↦ ground (
          arith,
          bit-set old (i % 64) (j % 64),
          same_index j i e,
          ap (λ t. bit (get_or b.words t 0) (j % 64)) e,
        )
        | no ne ↦ ground (arith, ne)
      ]

  -- `ms_barray_clear` at a reachable index succeeds, and clears that bit. The mask has 32 bits, so the
  -- upper half of the same word is cleared too; all other bits stay.
  pub clear-Wrote :
      Wrote b
        (λ j. if j / 64 == i / 64 && (j == i || leb 32 (j % 64)) then 0 else bit_at b j)
        (clear a fresh b i)
  unfolding clear
  clear-Wrote = record {
    after = record b { words = set_elem b.words (i / 64) word };
    run = rw make_room_inside (change-set_elem v _ a fresh i r);
    valid = record { sized = length-set b.words (i / 64) word ∙ v.sized };
    same_capacity = refl;
    bits = λ j. bit_at-set_elem v i word j r.inside ∙ each j;
  }
    where
      old : ℕ
      old = get_or b.words (i / 64) 0

      word : ℕ
      word = bit_and old (complement32 (2 ^ (i % 64)))

      each :
          (j : ℕ)
          → (if j / 64 == i / 64 then bit word (j % 64) else bit_at b j)
            ≡ (if j / 64 == i / 64 && (j == i || leb 32 (j % 64)) then 0 else bit_at b j)
      each j = elim (ℕ_discrete (j / 64) (i / 64)) [
        | yes e ↦ ground (
          arith,
          bit-clear 32 old (i % 64) (j % 64) r.low,
          same_index j i e,
          ap (λ t. bit (get_or b.words t 0) (j % 64)) e,
        )
        | no ne ↦ ground (arith, ne)
      ]

-- Reading after writing: at reachable indices the array behaves as a map from indices to bits.
module _ {b : BitArray} (v : IsValid b) (a : Allocator) (fresh : List ℕ) (i j : ℕ)
    (ri : IsReachable b i) (rj : IsReachable b j) where
  -- Only for two indices inside the capacity that lie in the lower half of their 64-bit words (elsewhere the
  -- program shifts 32 bits too far): `ms_barray_set` at the one succeeds, and then `ms_barray_get` at the other
  -- answers true where they are the same, and else what it answered before. In the words themselves that bit is
  -- set, and no other bit of either half changes.
  pub get-set :
      Wrote b (λ k. if k == i then 1 else bit_at b k) (set a fresh b i)
      × ((set a fresh b i >>= λ out. get out.1 j) ≡ (if j == i then some true else get b j))
  get-set =
      let w = set-Wrote v a fresh i ri in
      let r : IsReachable w.after j = record {
        inside = rw w.same_capacity rj.inside;
        low = rj.low;
      } in
      (w, rw (w.run) (ground (arith, get-bit_at w.valid j r, w.bits j, get-bit_at v j rj)))

  -- Only for two indices inside the capacity that lie in the lower half of their 64-bit words (elsewhere the
  -- program shifts 32 bits too far): `ms_barray_clear` at the one succeeds, and then `ms_barray_get` at the other
  -- answers false where they are the same, and else what it answered before. In the words themselves the whole
  -- upper half of the index's word is cleared along with its bit, and no other bit changes.
  pub get-clear :
      Wrote b
        (λ k. if k / 64 == i / 64 && (k == i || leb 32 (k % 64)) then 0 else bit_at b k)
        (clear a fresh b i)
      × ((clear a fresh b i >>= λ out. get out.1 j) ≡ (if j == i then some false else get b j))
  get-clear =
      let w = clear-Wrote v a fresh i ri in
      let r : IsReachable w.after j = record {
        inside = rw w.same_capacity rj.inside;
        low = rj.low;
      } in
      (w, rw (w.run) (ground (arith, get-bit_at w.valid j r, w.bits j, get-bit_at v j rj, rj.low)))

module _ {b : BitArray} (v : IsValid b) (a : Allocator) (fresh : List ℕ) (i : ℕ) where
  -- The upper half of each word is out of reach: the shift by 32 or more of a 32-bit operand is
  -- undefined in all three operations.
  pub upper_half_undefined :
      i / 64 < b.capacity
      → 32 ≤ i % 64
      → (set a fresh b i ≡ none) × (clear a fresh b i ≡ none) × (get b i ≡ none)
  unfolding set clear get make_room change
  upper_half_undefined inside high = (
    rw (within, mod64_lem i, shift) refl,
    rw (within, mod64_lem i, shift) refl,
    rw (get_elem?-eq-get_or b.words (i / 64) 0 (omega (arith, v.sized)), mod64_lem i, shift) refl,
  )
    where
      within : leb b.capacity (i / 64) ≡ false
      within = ground arith

      shift : ltb (i % 64) 32 ≡ false
      shift = ground arith

  -- Past the words an array that may not grow refuses a write and stays as it is; a read is undefined.
  pub outside_refused :
      b.capacity ≤ i / 64
      → b.resizable ≡ false
      → (set a fresh b i ≡ some (invalid_argument, b))
        × (clear a fresh b i ≡ some (invalid_argument, b))
        × (get b i ≡ none)
  unfolding set clear get make_room change
  outside_refused outside fixed = (
    rw (past, fixed) refl,
    rw (past, fixed) refl,
    rw (get_elem?-none b.words (i / 64) (omega (arith, v.sized))) refl,
  )
    where
      past : leb b.capacity (i / 64) ≡ true
      past = ground arith
