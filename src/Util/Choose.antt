-- ===== src/Util/Choose.antt =====
-- The selections: `ms_choose` without a branch, and the bounds of `ms_minmax`.
use native.Mathlib.Nat.{mod-eq_of_lt}
use moonsugar.Prelude.{
  ℕ, ◌-◌, ◌^◌, ◌≤◌, ◌<◌, ◌≡◌, ap₂, ◌∙◌, arith, bit_and, bit_or, Bool, true, false, if◌then◌else◌,
}
use moonsugar.Bits.{bit_and-mask, bit_and-zero, bit_or-zero, zero-bit_or}
use moonsugar.Util.{choose, minmax}

and_full : (w : ℕ) → w < 2 ^ 64 → bit_and w (2 ^ 64 - 1) ≡ w
and_full w h = bit_and-mask 64 w ∙ mod-eq_of_lt h

-- The branch-free selection is the conditional, for 64-bit words.
pub choose_lem :
    (a b : ℕ) (test : Bool) → a < 2 ^ 64 → b < 2 ^ 64 → choose a b test ≡ (if test then a else b)
unfolding choose
choose_lem a b true ha hb = ap₂ bit_or (and_full a ha) (bit_and-zero b) ∙ bit_or-zero a
choose_lem a b false ha hb = ap₂ bit_or (bit_and-zero a) (and_full b hb) ∙ zero-bit_or b

-- `ms_minmax` caps a value: it lies in the range, and a value of the range is kept.
pub minmax_lem :
    (vmin vmax value : ℕ)
    → vmin ≤ vmax
    → (vmin ≤ minmax vmin vmax value)
      × (minmax vmin vmax value ≤ vmax)
      × (vmin ≤ value → value ≤ vmax → minmax vmin vmax value ≡ value)
unfolding minmax
minmax_lem vmin vmax value h = (ground arith, ground arith, λ p q. ground arith)
