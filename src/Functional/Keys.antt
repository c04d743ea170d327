-- ===== src/Functional/Keys.antt =====
-- The callbacks of src/functional.c as those of a map, src/containers/map.c.
use moonsugar.Prelude.{ℕ, refl, arith}
use moonsugar.Functional.{equals_u32, none_test_max_u32, none_set_max_u32}
use moonsugar.Map.{Callbacks}
use moonsugar.Map.Search.{IsLawful}

-- The callbacks for numbers of 32 bits, with any hash.
abbrev pub u32_callbacks : (ℕ → ℕ) → Callbacks ℕ
u32_callbacks hash = record {
  are_keys_equal = equals_u32;
  hash_key = hash;
  is_key_none = none_test_max_u32;
  set_key_none = none_set_max_u32;
}

-- The callbacks of src/functional.c for numbers of 32 bits, with any hash, decide equality, and what they
-- set to none is none.
pub u32_callbacks-IsLawful : (hash : ℕ → ℕ) → IsLawful (u32_callbacks hash)
unfolding equals_u32 none_test_max_u32 none_set_max_u32
u32_callbacks-IsLawful hash = record {
  reflexive = λ k. ground arith;
  sound = λ j k e. ground (arith, e);
  cleared = λ k. refl;
}
