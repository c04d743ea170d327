-- ===== src/Bits/Step.antt =====
-- One digit of `&` and `|`, from the digit recursion that the native operations stand for.
use Prim.Native.Nat.{digits, bit_and-bitwise, bit_or-bitwise}
use moonsugar.Prelude.{
  ℕ, zero, suc, ◌+◌, ◌*◌, ◌/◌, ◌%◌, ◌≤◌, min, max, bit_and, bit_or, ◌≡◌, refl, ap, ◌∙◌, arith,
}

module _ (rest : ℕ → ℕ) (op : ℕ → ℕ → ℕ) where
  -- The count of digits to go only has to reach the first number.
  same_digits : (j k : ℕ) (a b : ℕ) → a ≤ j → a ≤ k → digits rest op j a b ≡ digits rest op k a b
  same_digits zero zero a b hj hk = refl
  same_digits zero (suc k) (suc a) b hj hk = elim hj [ ]
  same_digits (suc j) zero (suc a) b hj hk = elim hk [ ]
  same_digits (suc j) (suc k) (suc a) b hj hk =
      ap (λ r. r * 2 + op (suc a % 2) (b % 2))
        (same_digits j k (suc a / 2) (b / 2) (omega arith) (omega arith))
  same_digits zero (suc k) zero b hj hk = refl
  same_digits (suc j) zero zero b hj hk = refl
  same_digits (suc j) (suc k) zero b hj hk = refl

  digits_first :
      (a b : ℕ)
      → digits rest op (suc a) (suc a) b
        ≡ digits rest op (suc a / 2) (suc a / 2) (b / 2) * 2 + op (suc a % 2) (b % 2)
  digits_first a b =
      ap (λ r. r * 2 + op (suc a % 2) (b % 2))
        (same_digits a (suc a / 2) (suc a / 2) (b / 2) (omega arith) (omega arith))

pub bit_or-digit : (a b : ℕ) → bit_or a b ≡ bit_or (a / 2) (b / 2) * 2 + max (a % 2) (b % 2)
bit_or-digit zero b = omega (arith, bit_or-bitwise 0 b, bit_or-bitwise 0 (b / 2))
bit_or-digit (suc a) b =
    bit_or-bitwise (suc a) b
    ∙ digits_first (λ y. y) max a b
    ∙ omega (arith, bit_or-bitwise (suc a / 2) (b / 2))

pub bit_and-digit : (a b : ℕ) → bit_and a b ≡ bit_and (a / 2) (b / 2) * 2 + min (a % 2) (b % 2)
bit_and-digit zero b = omega (arith, bit_and-bitwise 0 b, bit_and-bitwise 0 (b / 2))
bit_and-digit (suc a) b =
    bit_and-bitwise (suc a) b
    ∙ digits_first (λ _. 0) min a b
    ∙ omega (arith, bit_and-bitwise (suc a / 2) (b / 2))
