-- ===== src/Util/Tests.antt =====
-- The helpers of util.h on concrete values, and their theorems at such values.
use moonsugar.Prelude.{◌≡◌, refl, true, false}
use moonsugar.Util.{align_sz, align_back_sz, popcount, is_power2, is_multiple}

align_sz_values : (align_sz 13 8 ≡ 16) × (align_sz 16 8 ≡ 16) × (align_back_sz 13 8 ≡ 8)
unfolding align_sz align_back_sz
align_sz_values = (refl, refl, refl)

is_power2_values : (is_power2 64 ≡ true) × (is_power2 0 ≡ false) × (is_power2 12 ≡ false)
unfolding is_power2 popcount
is_power2_values = (refl, refl, refl)

is_multiple_values : (is_multiple 24 8 ≡ true) × (is_multiple 25 8 ≡ false)
unfolding is_multiple
is_multiple_values = (refl, refl)
