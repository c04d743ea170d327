-- ===== src/IndexedPool/Block.antt =====
-- One block of the pool's bitmap: `find_block_offset` gives the lowest free bit.
use moonsugar.Prelude.{
  ℕ, zero, suc, ◌+◌, ◌^◌, ◌≤◌, ◌<◌, ◌≡◌, ◌≢◌, ◌⊎◌, inl, inr, ap, ◌∙◌, sym, arith, bit, true, false,
  not, ℕ_discrete,
}
use moonsugar.Bits.{bit-le-one, test-digit, eq_of_ones}
use moonsugar.Util.{test_mask}
use moonsugar.IndexedPool.{find_from, find_block_offset, state_full}

-- The loop stops at the first free bit; the ones before it are taken.
record Found (block i rounds found : ℕ) : Type 0 where
  within : found < i + rounds
  free : bit block found ≡ 0

find_from-Found :
    (rounds i block : ℕ)
    → Found block i rounds (find_from rounds i block)
      ⊎ ((k : ℕ) → i ≤ k → k < i + rounds → bit block k ≡ 1)
unfolding find_from
find_from-Found zero i block = inr (λ k h g. absurd (omega arith))
find_from-Found (suc rounds) i block = elim (ℕ_discrete (bit block i) 1) [
  | yes one ↦ elim (find_from-Found rounds (i + 1) block) [
    | inl f ↦ inl (rw (taken one) (record { within = omega (arith, f.within); free = f.free }))
    | inr ones ↦ inr (λ k h g. elim (ℕ_discrete i k) [
      | yes e ↦ ap (bit block) (sym e) ∙ one
      | no ne ↦ ones k (omega (arith, ne)) (omega arith)
    ])
  ]
  | no ne ↦ inl (
      rw (open_bit ne)
        (record { within = omega arith; free = omega (arith, bit-le-one block i, ne) }))
]
  where
    taken : bit block i ≡ 1 → not (test_mask block (2 ^ i)) ≡ false
    taken e = ground (arith, test-digit block i)

    open_bit : bit block i ≢ 1 → not (test_mask block (2 ^ i)) ≡ true
    open_bit ne = ground (arith, test-digit block i)

-- A block that is not full has a free bit, and the search returns one.
pub find_block_offset_lem :
    (block : ℕ)
    → block < 2 ^ 64
    → block ≢ state_full
    → (find_block_offset block < 64) × (bit block (find_block_offset block) ≡ 0)
unfolding find_block_offset
find_block_offset_lem block word partial = elim (find_from-Found 64 0 block) [
  | inl f ↦ (omega (arith, f.within), f.free)
  | inr ones ↦
      absurd (partial (eq_of_ones 64 block word (λ k h. ones k (omega arith) (omega arith))))
]
