-- ===== src/Util/Power.antt =====
-- `ms_is_power2`, by the population count.
use native.Mathlib.Nat.{pow-suc}
use moonsugar.Prelude.{
  ℕ, zero, suc, ◌/◌, ◌%◌, ◌^◌, ◌<◌, ◌≡◌, refl, ap, ◌∙◌, ◌↔◌, true, arith, ==_iff, ℕ_discrete,
}
use moonsugar.Util.{popcount, is_power2}

popcount-zero : (n : ℕ) → popcount n 0 ≡ 0
unfolding popcount
popcount-zero zero = refl
popcount-zero (suc n) = omega (arith, popcount-zero n)

zero_of_popcount : (n w : ℕ) → w < 2 ^ n → popcount n w ≡ 0 → w ≡ 0
unfolding popcount
zero_of_popcount zero w h e = omega arith
zero_of_popcount (suc n) w h e =
    omega (arith, zero_of_popcount n (w / 2) (omega (arith, pow-suc 2 n)) (omega arith))

popcount-two-pow : (n k : ℕ) → k < n → popcount n (2 ^ k) ≡ 1
unfolding popcount
popcount-two-pow zero k h = elim h [ ]
popcount-two-pow (suc n) zero h = omega (arith, popcount-zero n)
popcount-two-pow (suc n) (suc k) h =
    omega (arith, pow-suc 2 k, ap (popcount n) half, popcount-two-pow n k (omega arith))
  where
    half : 2 ^ suc k / 2 ≡ 2 ^ k
    half = omega (arith, pow-suc 2 k)

exponent_of_popcount : (n w : ℕ) → w < 2 ^ n → popcount n w ≡ 1 → (k : ℕ) × (k < n) × (w ≡ 2 ^ k)
unfolding popcount
exponent_of_popcount zero w h e = absurd (omega arith)
exponent_of_popcount (suc n) w h e = elim (ℕ_discrete (w % 2) 0) [
  | yes even ↦
      let (k, hk, ek) = exponent_of_popcount n (w / 2) (omega (arith, pow-suc 2 n)) (omega arith) in
      (suc k, omega arith, omega (arith, pow-suc 2 k))
  | no odd ↦ (
    0,
    omega arith,
    omega (arith, zero_of_popcount n (w / 2) (omega (arith, pow-suc 2 n)) (omega arith)),
  )
]

-- `ms_is_power2` accepts exactly the powers of two among the 64-bit words; 0 is not one.
pub is_power2_iff : (w : ℕ) → w < 2 ^ 64 → (is_power2 w ≡ true) ↔ ((k : ℕ) × (k < 64) × (w ≡ 2 ^ k))
unfolding is_power2
is_power2_iff w h = (
  λ e. exponent_of_popcount 64 w h ((==_iff _ _).0 e),
  λ (k, hk, ek). (==_iff _ _).1 (ap (popcount 64) ek ∙ popcount-two-pow 64 k hk),
)
