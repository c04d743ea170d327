-- ===== src/Map/Tests.antt =====
-- A map of four slots that holds the key 5, with keys hashed to themselves and 0 for none.
use moonsugar.Prelude.{ℕ, ◌≡◌, ◌⊎◌, refl, arith, true, none, some, [], ◌∷◌, u32_max, ◌==◌}
use moonsugar.Api.{success, full}
use moonsugar.Util.{is_power2, popcount}
use moonsugar.Map.{Map, Callbacks, Blocks, get_index, find_empty, set, resize}
use moonsugar.Map.Lookup.{Stored, set_cases}
use moonsugar.Map.Search.{IsLawful, IsValid}
use moonsugar.Map.Growth.{resize_grows_undefined}

abbrev numbers : Callbacks ℕ
numbers = record {
  are_keys_equal = λ j k. j == k;
  hash_key = λ k. k;
  is_key_none = λ k. k == 0;
  set_key_none = λ k. 0;
}

abbrev four_slots : Map ℕ ℕ
four_slots = record {
  capacity = 4;
  growth_factor = 0;
  key_size = 4;
  value_size = 4;
  keys_pointer = 1000;
  keys = 0 ∷ 5 ∷ 0 ∷ 0 ∷ [];
  values_pointer = 2000;
  values = 0 ∷ 50 ∷ 0 ∷ 0 ∷ [];
}

numbers-IsLawful : IsLawful numbers
numbers-IsLawful = record {
  reflexive = λ k. ground arith;
  sound = λ j k e. ground (arith, e);
  cleared = λ k. refl;
}

four_slots-IsValid : IsValid four_slots
four_slots-IsValid = record {
  keyed = refl;
  valued = refl;
  some_slots = omega arith;
  word = omega arith;
  keys_size = omega arith;
  values_size = omega arith;
}

set_cases_example :
    ((after : Map ℕ ℕ) × (set numbers [] four_slots 9 90 ≡ some (success, after, []))
      × Stored numbers four_slots 9 90 after)
    ⊎ ((set numbers [] four_slots 9 90 ≡ some (full, four_slots, []))
        × (get_index numbers four_slots 9 ≡ some u32_max)
        × (find_empty numbers four_slots 9 ≡ some u32_max))
set_cases_example = set_cases numbers-IsLawful four_slots-IsValid 9 90 refl

abbrev blocks : Blocks ℕ ℕ
blocks = record {
  keys_block = λ _. 3000;
  values_block = λ _. 4000;
  fresh_keys = λ _. [];
  fresh_values = λ _. [];
}

eight : is_power2 8 ≡ true
unfolding is_power2 popcount
eight = refl

resize_grows_undefined_example : resize numbers blocks four_slots 8 ≡ none
resize_grows_undefined_example =
    resize_grows_undefined numbers blocks 8 four_slots-IsValid eight (omega arith)
      (λ e. omega (arith, e)) (λ e. omega (arith, e))
