-- ===== src/Util/Align.antt =====
-- Alignment to a power of two: `ms_align_sz` and `ms_align_back_sz`.
use native.Mathlib.Nat.{
  pow-suc, one-le-pow, add-mod-mod, mul-mod_right, mod-lt, add-zero, mod-eq_of_lt, mod_self,
  sub-zero,
}
use moonsugar.Prelude.{
  ℕ, zero, suc, ◌+◌, ◌-◌, ◌*◌, ◌%◌, ◌^◌, ◌≤◌, ◌<◌, ◌≡◌, ap, ◌∙◌, arith, dec_lt, sub64, bit_and,
}
use moonsugar.Bits.{bit_and-mask, bit_and-high}
use moonsugar.Util.{align_sz, align_back_sz}

-- A power of two divides every larger one.
pub two-pow-add : (k d : ℕ) → 2 ^ (k + d) ≡ 2 ^ k * 2 ^ d
two-pow-add k zero = omega (arith, ap (λ (t : ℕ). 2 ^ t) (add-zero k))
two-pow-add k (suc d) = omega (
  arith,
  ap (λ (t : ℕ). 2 ^ t) (shift),
  pow-suc 2 (k + d),
  two-pow-add k d,
  ap (λ (t : ℕ). 2 ^ k * t) (pow-suc 2 d),
)
  where
    shift : k + suc d ≡ suc (k + d)
    shift = omega arith

pub two-pow-split : (k n : ℕ) → k ≤ n → 2 ^ n ≡ 2 ^ k * 2 ^ (n - k)
two-pow-split k n h = ap (λ (t : ℕ). 2 ^ t) (whole) ∙ two-pow-add k (n - k)
  where
    whole : n ≡ k + (n - k)
    whole = omega arith

pub two-pow-lt : (k n : ℕ) → k < n → (0 < 2 ^ k) × (2 ^ k < 2 ^ n)
two-pow-lt k n h = (one-le-pow k 2 (omega arith), less)
  where
    less : 2 ^ k < 2 ^ n
    less = grind (
      arith,
      two-pow-split (suc k) n h,
      pow-suc 2 k,
      one-le-pow k 2 (omega arith),
      one-le-pow (n - suc k) 2 (omega arith),
    )

pub two-pow-lt_inv : (k n : ℕ) → 2 ^ k < 2 ^ n → k < n
two-pow-lt_inv k n h = elim (dec_lt k n) [
  | yes less ↦ less
  | no more ↦
      absurd
        (grind (arith, two-pow-split n k (omega (arith, more)), one-le-pow (k - n) 2 (omega arith)))
]

zero-mod : (p : ℕ) → 0 % p ≡ 0
zero-mod p = omega arith

-- The padding `-value & (boundary - 1)` reaches the next multiple.
padding : (p c m v : ℕ) → m ≡ p * c → v < m → (v + (m - v) % m % p) % p ≡ 0
padding p c m zero e hv =
    ap (λ t. (0 + t) % p) (ap (λ t. t % p) none_left ∙ zero-mod p) ∙ zero-mod p
  where
    none_left : (m - 0) % m ≡ 0
    none_left = omega (arith, ap (λ t. t % m) (sub-zero m), mod_self m)
padding p c m (suc v) e hv =
    add-mod-mod (suc v) ((m - suc v) % m) p ∙ ap (λ t. t % p) (whole ∙ e) ∙ mul-mod_right p c
  where
    whole : suc v + (m - suc v) % m ≡ m
    whole = omega (arith, mod-eq_of_lt {n = m - suc v} {m = m} (omega arith))

-- The mask `boundary - 1` does not wrap.
mask_of_boundary : (k : ℕ) → k < 64 → sub64 (2 ^ k) 1 ≡ 2 ^ k - 1
mask_of_boundary k hk = omega (arith, two-pow-lt k 64 hk)

align_sz-eq-add :
    (k value : ℕ)
    → k < 64
    → value + 2 ^ k ≤ 2 ^ 64
    → align_sz value (2 ^ k) ≡ value + sub64 0 value % 2 ^ k
unfolding align_sz
align_sz-eq-add k value hk fits = omega (
  arith,
  ap (bit_and (sub64 0 value)) (mask_of_boundary k hk),
  bit_and-mask k (sub64 0 value),
  mod-lt (sub64 0 value) (two-pow-lt k 64 hk).0,
)

-- The aligned size is the least multiple of the boundary that is not below the value, where no
-- 64-bit sum wraps.
pub align_sz_lem :
    (k value : ℕ)
    → k < 64
    → value + 2 ^ k ≤ 2 ^ 64
    → (align_sz value (2 ^ k) % 2 ^ k ≡ 0)
      × (value ≤ align_sz value (2 ^ k))
      × (align_sz value (2 ^ k) < value + 2 ^ k)
align_sz_lem k value hk fits =
    let form = align_sz-eq-add k value hk fits in
    let short = mod-lt (sub64 0 value) (two-pow-lt k 64 hk).0 in
    (
      ap (λ t. t % 2 ^ k) form
          ∙ padding (2 ^ k) (2 ^ (64 - k)) (2 ^ 64) value (two-pow-split k 64 (omega arith))
              (omega (arith, two-pow-lt k 64 hk)),
      omega (arith, form),
      omega (arith, form, short),
    )

-- Aligning back drops the remainder: the result is the greatest multiple not above the value.
pub align_back_sz_lem :
    (k value : ℕ) → k < 64 → value < 2 ^ 64 → align_back_sz value (2 ^ k) + value % 2 ^ k ≡ value
unfolding align_back_sz
align_back_sz_lem k value hk hv = omega (
  arith,
  ap (λ t. bit_and value (2 ^ 64 - 1 - t)) (mask_of_boundary k hk),
  bit_and-high k 64 value (omega arith) hv,
)
