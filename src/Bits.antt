-- ===== src/Bits.antt =====
-- Binary digits of the words that the C code masks, shifts and tests.
mod Step
use Prim.Native.Nat.{bit_and-bitwise, bit_or-bitwise}
use Step.{bit_or-digit, bit_and-digit}
use native.Mathlib.Nat.{pow-suc, one-le-pow, div-add-mod, mul-add-mod_self_left, mod-eq_of_lt}
use moonsugar.Prelude.{
  subst, ℕ, zero, suc, ◌+◌, ◌-◌, ◌*◌, ◌/◌, ◌%◌, ◌^◌, ◌≤◌, ◌<◌, min, max, bit_and, bit_or, ◌≡◌, refl,
  ap, ◌∙◌, ◌≢◌, arith, bit, ◌==◌, if◌then◌else◌, ltb, dec_lt, ℕ_discrete,
}

pub bit-le-one : (w i : ℕ) → bit w i ≤ 1
bit-le-one w zero = omega arith
bit-le-one w (suc i) = bit-le-one (w / 2) i

pub bit-zero : (i : ℕ) → bit 0 i ≡ 0
bit-zero zero = refl
bit-zero (suc i) = bit-zero i

pub bit-bit_or : (a b i : ℕ) → bit (bit_or a b) i ≡ max (bit a i) (bit b i)
bit-bit_or a b zero = omega (arith, bit_or-digit a b)
bit-bit_or a b (suc i) = ap (λ w. bit w i) (half) ∙ bit-bit_or (a / 2) (b / 2) i
  where
    half : bit_or a b / 2 ≡ bit_or (a / 2) (b / 2)
    half = omega (arith, bit_or-digit a b)

pub bit-bit_and : (a b i : ℕ) → bit (bit_and a b) i ≡ min (bit a i) (bit b i)
bit-bit_and a b zero = omega (arith, bit_and-digit a b)
bit-bit_and a b (suc i) = ap (λ w. bit w i) half ∙ bit-bit_and (a / 2) (b / 2) i
  where
    half : bit_and a b / 2 ≡ bit_and (a / 2) (b / 2)
    half = omega (arith, bit_and-digit a b)

two-pow-half : (k : ℕ) → (2 ^ suc k / 2 ≡ 2 ^ k) × (2 ^ suc k % 2 ≡ 0)
two-pow-half k = omega (arith, pow-suc 2 k)

pub bit-two-pow_self : (k : ℕ) → bit (2 ^ k) k ≡ 1
bit-two-pow_self zero = refl
bit-two-pow_self (suc k) = ap (λ w. bit w k) (two-pow-half k).0 ∙ bit-two-pow_self k

pub bit-two-pow_ne : (k i : ℕ) → i ≢ k → bit (2 ^ k) i ≡ 0
bit-two-pow_ne zero zero h = absurd (h refl)
bit-two-pow_ne zero (suc i) h = bit-zero i
bit-two-pow_ne (suc k) zero h = (two-pow-half k).1
bit-two-pow_ne (suc k) (suc i) h =
    ap (λ w. bit w i) (two-pow-half k).0 ∙ bit-two-pow_ne k i (λ e. h (ap suc e))

-- `~mask` in a word of `n` bits.
pub bit-complement : (n w i : ℕ) → w < 2 ^ n → i < n → bit (2 ^ n - 1 - w) i ≡ 1 - bit w i
bit-complement zero w i hw hi = elim hi [ ]
bit-complement (suc n) w zero hw hi = omega (arith, pow-suc 2 n)
bit-complement (suc n) w (suc i) hw hi =
    ap (λ v. bit v i) half ∙ bit-complement n (w / 2) i (omega (arith, pow-suc 2 n)) (omega arith)
  where
    half : (2 ^ suc n - 1 - w) / 2 ≡ 2 ^ n - 1 - w / 2
    half = omega (arith, pow-suc 2 n)

pub bit_or-lt : (n a b : ℕ) → a < 2 ^ n → b < 2 ^ n → bit_or a b < 2 ^ n
bit_or-lt zero zero zero ha hb = omega arith
bit_or-lt zero (suc a) b ha hb = absurd (omega arith)
bit_or-lt zero zero (suc b) ha hb = absurd (omega arith)
bit_or-lt (suc n) a b ha hb = omega (
  arith,
  pow-suc 2 n,
  bit_or-digit a b,
  bit_or-lt n (a / 2) (b / 2) (omega (arith, pow-suc 2 n)) (omega (arith, pow-suc 2 n)),
)

bit_and-le_below : (n a b : ℕ) → a ≤ n → bit_and a b ≤ a
bit_and-le_below n zero b h = omega (arith, bit_and-bitwise 0 b)
bit_and-le_below zero (suc a) b h = elim h [ ]
bit_and-le_below (suc n) (suc a) b h =
    omega (arith, bit_and-digit (suc a) b, bit_and-le_below n (suc a / 2) (b / 2) (omega arith))

pub bit_and-le : (a b : ℕ) → bit_and a b ≤ a
bit_and-le a b = bit_and-le_below a a b (omega arith)

pub bit_and-zero : (a : ℕ) → bit_and a 0 ≡ 0
bit_and-zero a = below a a (omega arith)
  where
    below : (n m : ℕ) → m ≤ n → bit_and m 0 ≡ 0
    below n zero h = refl
    below zero (suc m) h = elim h [ ]
    below (suc n) (suc m) h =
        omega (arith, bit_and-digit (suc m) 0, below n (suc m / 2) (omega arith))

-- `value & (1 << k)` is the digit, in its place.
pub bit_and-two-pow : (k w : ℕ) → bit_and w (2 ^ k) ≡ bit w k * 2 ^ k
bit_and-two-pow zero w = omega (arith, bit_and-digit w 1, bit_and-zero (w / 2))
bit_and-two-pow (suc k) w = omega (
  arith,
  bit_and-digit w (2 ^ suc k),
  two-pow-half k,
  ap (bit_and (w / 2)) (two-pow-half k).0,
  bit_and-two-pow k (w / 2),
  ap (λ (t : ℕ). bit (w / 2) k * t) (pow-suc 2 k),
)

mod-mul_two : (p w : ℕ) → 0 < p → w % (p * 2) ≡ w / 2 % p * 2 + w % 2
mod-mul_two p w h =
    ap (λ v. v % (p * 2)) split
    ∙ mul-add-mod_self_left (p * 2) (w / 2 / p) _
    ∙ mod-eq_of_lt (omega arith)
  where
    split : w ≡ p * 2 * (w / 2 / p) + (w / 2 % p * 2 + w % 2)
    split = omega (arith, div-add-mod (w / 2) p)

-- `value & (2 ^ k - 1)` is the remainder.
pub bit_and-mask : (k w : ℕ) → bit_and w (2 ^ k - 1) ≡ w % 2 ^ k
bit_and-mask zero w = omega (arith, bit_and-zero w)
bit_and-mask (suc k) w = omega (
  arith,
  one-le-pow k 2 (omega arith),
  bit_and-digit w (2 ^ suc k - 1),
  pow-suc 2 k,
  ap (λ v. w % v) (pow-suc 2 k),
  ap (bit_and (w / 2)) half,
  bit_and-mask k (w / 2),
  mod-mul_two (2 ^ k) w (one-le-pow k 2 (omega arith)),
)
  where
    half : (2 ^ suc k - 1) / 2 ≡ 2 ^ k - 1
    half = omega (arith, one-le-pow k 2 (omega arith), pow-suc 2 k)

-- A word whose digits are all ones is the largest.
pub eq_of_ones : (n w : ℕ) → w < 2 ^ n → ((i : ℕ) → i < n → bit w i ≡ 1) → w ≡ 2 ^ n - 1
eq_of_ones zero w h ones = omega arith
eq_of_ones (suc n) w h ones = omega (
  arith,
  pow-suc 2 n,
  ones 0 (omega arith),
  eq_of_ones n (w / 2) (omega (arith, pow-suc 2 n)) (λ i hi. ones (suc i) (omega arith)),
)

pub bit_or-zero : (a : ℕ) → bit_or a 0 ≡ a
bit_or-zero a = below a a (omega arith)
  where
    below : (n m : ℕ) → m ≤ n → bit_or m 0 ≡ m
    below n zero h = refl
    below zero (suc m) h = elim h [ ]
    below (suc n) (suc m) h =
        omega (arith, bit_or-digit (suc m) 0, below n (suc m / 2) (omega arith))

pub zero-bit_or : (a : ℕ) → bit_or 0 a ≡ a
zero-bit_or a = bit_or-bitwise 0 a

-- A mask that keeps the digits from `k` on.
pub bit_and-high :
    (k n w : ℕ) → k ≤ n → w < 2 ^ n → bit_and w (2 ^ n - 1 - (2 ^ k - 1)) + w % 2 ^ k ≡ w
bit_and-high zero n w h hw = omega (arith, ap (bit_and w) all, bit_and-mask n w, mod-eq_of_lt hw)
  where
    all : 2 ^ n - 1 - (2 ^ 0 - 1) ≡ 2 ^ n - 1
    all = omega arith
bit_and-high (suc k) zero w h hw = elim h [ ]
bit_and-high (suc k) (suc n) w h hw = omega (
  arith,
  bit_and-digit w (2 ^ suc n - 1 - (2 ^ suc k - 1)),
  ap (bit_and (w / 2)) half,
  odd,
  pow-suc 2 n,
  ap (λ v. w % v) (pow-suc 2 k),
  mod-mul_two (2 ^ k) w (one-le-pow k 2 (omega arith)),
  bit_and-high k n (w / 2) (omega arith) (omega (arith, pow-suc 2 n)),
)
  where
    half : (2 ^ suc n - 1 - (2 ^ suc k - 1)) / 2 ≡ 2 ^ n - 1 - (2 ^ k - 1)
    half = omega (
      arith,
      pow-suc 2 n,
      pow-suc 2 k,
      one-le-pow k 2 (omega arith),
      one-le-pow n 2 (omega arith),
    )

    odd : (2 ^ suc n - 1 - (2 ^ suc k - 1)) % 2 ≡ 0
    odd = omega (
      arith,
      pow-suc 2 n,
      pow-suc 2 k,
      one-le-pow k 2 (omega arith),
      one-le-pow n 2 (omega arith),
    )

pub bit-above : (n w i : ℕ) → w < 2 ^ n → n ≤ i → bit w i ≡ 0
bit-above zero zero i hw hi = bit-zero i
bit-above zero (suc w) i hw hi = absurd (omega arith)
bit-above (suc n) w zero hw hi = elim hi [ ]
bit-above (suc n) w (suc i) hw hi = bit-above n (w / 2) i (omega (arith, pow-suc 2 n)) (omega arith)

two-pow-lt : (k n : ℕ) → k < n → 2 ^ k < 2 ^ n
two-pow-lt zero zero h = elim h [ ]
two-pow-lt zero (suc n) h = omega (arith, pow-suc 2 n, one-le-pow n 2 (omega arith))
two-pow-lt (suc k) zero h = elim h [ ]
two-pow-lt (suc k) (suc n) h = omega (arith, pow-suc 2 n, pow-suc 2 k, two-pow-lt k n (omega arith))

-- Setting one digit.
pub bit-set : (w k i : ℕ) → bit (bit_or w (2 ^ k)) i ≡ (if i == k then 1 else bit w i)
bit-set w k i = elim (ℕ_discrete i k) [
  | yes e ↦
      ground
        (arith, bit-bit_or w (2 ^ k) i, e, ap (bit (2 ^ k)) e, bit-two-pow_self k, bit-le-one w i)
  | no ne ↦ ground (arith, bit-bit_or w (2 ^ k) i, bit-two-pow_ne k i ne)
]

-- Clearing one digit of the lowest `n`, with a mask of `n` digits: those above go too.
pub bit-clear :
    (n w k i : ℕ)
    → k < n
    → bit (bit_and w (2 ^ n - 1 - 2 ^ k)) i ≡ (if i == k then 0 else if ltb i n then bit w i else 0)
bit-clear n w k i hk = elim (dec_lt i n) [
  | yes h ↦ elim (ℕ_discrete i k) [
    | yes e ↦ ground (
      arith,
      bit-bit_and w (2 ^ n - 1 - 2 ^ k) i,
      bit-complement n (2 ^ k) i small h,
      e,
      ap (bit (2 ^ k)) e,
      bit-two-pow_self k,
    )
    | no ne ↦ ground (
      arith,
      bit-bit_and w (2 ^ n - 1 - 2 ^ k) i,
      bit-complement n (2 ^ k) i small h,
      bit-two-pow_ne k i ne,
      bit-le-one w i,
    )
  ]
  | no h ↦ ground (
    arith,
    bit-bit_and w (2 ^ n - 1 - 2 ^ k) i,
    bit-above n (2 ^ n - 1 - 2 ^ k) i (omega (arith, small)) (omega (arith, h)),
  )
]
  where
    small : 2 ^ k < 2 ^ n
    small = two-pow-lt k n hk

-- The test of one digit.
pub test-digit : (w k : ℕ) → (bit_and w (2 ^ k) == 2 ^ k) ≡ (bit w k == 1)
test-digit w k = elim (ℕ_discrete (bit w k) 1) [
  | yes e ↦ ground (arith, bit_and-two-pow k w, e, ap (λ (t : ℕ). t * 2 ^ k) e)
  | no ne ↦ ground (
    arith,
    bit_and-two-pow k w,
    none_left (omega (arith, bit-le-one w k, ne)),
    one-le-pow k 2 (omega arith),
    ne,
  )
]
  where
    none_left : bit w k ≡ 0 → bit w k * 2 ^ k ≡ 0
    none_left e = ap (λ (t : ℕ). t * 2 ^ k) e ∙ omega arith

bit_and-le_right_below : (n a b : ℕ) → b ≤ n → bit_and a b ≤ b
bit_and-le_right_below n zero b h = omega (arith, bit_and-le 0 b)
bit_and-le_right_below zero (suc a) b h =
    subst (λ c. bit_and (suc a) c ≤ c) (no_bits b h) (omega (arith, bit_and-zero (suc a)))
  where
    no_bits : (b : ℕ) → b ≤ 0 → 0 ≡ b
    no_bits b h = omega arith
bit_and-le_right_below (suc n) (suc a) b h = omega (
  arith,
  bit_and-digit (suc a) b,
  bit_and-le_right_below n (suc a / 2) (b / 2) (omega arith),
  bit-le-one (suc a) 0,
  bit-le-one b 0,
)

pub bit_and-le_right : (a b : ℕ) → bit_and a b ≤ b
bit_and-le_right a b = bit_and-le_right_below b a b (omega arith)
