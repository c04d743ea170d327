-- ===== src/Util.antt =====
-- include/moonsugar/util.h: the inline helpers and the bit macros that the containers and the
-- allocators use. Values are 64-bit words; the macros take the width of their operands.
pub mod Align
pub mod Power
pub mod Choose
mod Tests
use moonsugar.Prelude.{
  ℕ, zero, suc, ◌+◌, ◌-◌, ◌/◌, ◌%◌, ◌^◌, bit_and, bit_or, Bool, true, false, u64, sub64, ltb, ◌==◌,
  if◌then◌else◌,
}

-- The number of ones among the lowest `n` digits; the compiler's builtin counts 64.
unfoldable pub popcount : ℕ → ℕ → ℕ
popcount zero w = 0
popcount (suc n) w = w % 2 + popcount n (w / 2)

unfoldable pub is_power2 : ℕ → Bool
is_power2 n = popcount 64 n == 1

unfoldable pub is_multiple : ℕ → ℕ → Bool
is_multiple a b = a % b == 0

abbrev bool_word : Bool → ℕ
bool_word true = 1
bool_word false = 0

abbrev pub complement64 : ℕ → ℕ
complement64 w = 2 ^ 64 - 1 - w

unfoldable pub choose : ℕ → ℕ → Bool → ℕ
choose a b test =
    let mask = sub64 0 (bool_word test) in bit_or (bit_and a mask) (bit_and b (complement64 mask))

unfoldable pub align_sz : ℕ → ℕ → ℕ
align_sz value boundary = u64 (value + bit_and (sub64 0 value) (sub64 boundary 1))

unfoldable pub align_back_sz : ℕ → ℕ → ℕ
align_back_sz value boundary = bit_and value (complement64 (sub64 boundary 1))

-- A pointer is aligned as the number that it is.
unfoldable pub align_ptr : ℕ → ℕ → ℕ
unfolding align_sz
align_ptr value boundary = align_sz value boundary

unfoldable pub align_back_ptr : ℕ → ℕ → ℕ
unfolding align_back_sz
align_back_ptr value boundary = align_back_sz value boundary

unfoldable pub min : ℕ → ℕ → ℕ
min a b = if ltb b a then b else a

unfoldable pub max : ℕ → ℕ → ℕ
max a b = if ltb b a then a else b

unfoldable pub minmax : ℕ → ℕ → ℕ → ℕ
unfolding min max
minmax vmin vmax value = min vmax (max vmin value)

-- `ms_test`, `ms_set` and `ms_clear`; the last is given the complement at the mask's own width.
abbrev pub test_mask : ℕ → ℕ → Bool
test_mask value mask = bit_and value mask == mask

abbrev pub set_mask : ℕ → ℕ → ℕ
set_mask value mask = bit_or value mask

abbrev pub clear_mask : ℕ → ℕ → ℕ
clear_mask value inverted = bit_and value inverted
