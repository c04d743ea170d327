-- ===== src/Functional.antt =====
-- src/functional.c: the callbacks that a map is given for the common types of keys. A pointer to a key is the
-- key; a string is the list of its characters, less the NUL at its end.
mod Keys
use moonsugar.Prelude.{ℕ, Bool, true, false, not, ◌&&◌, List, [], ◌∷◌, u32_max, u64_max, ◌==◌}
use moonsugar.Api.{null}

unfoldable pub equals_u64 : ℕ → ℕ → Bool
equals_u64 a b = a == b

unfoldable pub equals_u32 : ℕ → ℕ → Bool
equals_u32 a b = a == b

-- `strcmp(a, b) == 0`.
unfoldable pub equals_cstr : List ℕ → List ℕ → Bool
equals_cstr [] [] = true
equals_cstr [] (b ∷ bs) = false
equals_cstr (a ∷ cs) [] = false
equals_cstr (a ∷ cs) (b ∷ bs) = let rest = equals_cstr cs bs in a == b && rest

pub none_test_max_u64 : ℕ → Bool
none_test_max_u64 x = x == u64_max

pub none_test_max_u32 : ℕ → Bool
none_test_max_u32 x = x == u32_max

pub none_test_ptr : ℕ → Bool
none_test_ptr x = x == null

-- The setters give what is written through their pointer.
pub none_set_max_u64 : ℕ → ℕ
none_set_max_u64 x = u64_max

pub none_set_max_u32 : ℕ → ℕ
none_set_max_u32 x = u32_max

pub none_set_ptr : ℕ → ℕ
none_set_ptr x = null

-- `MS_HINVALID`.
abbrev pub handle_invalid : ℕ
handle_invalid = u32_max

pub equals_handle : ℕ → ℕ → Bool
equals_handle a b = a == b

pub none_test_handle : ℕ → Bool
none_test_handle x = not (not (x == handle_invalid))

pub none_set_handle : ℕ → ℕ
none_set_handle x = handle_invalid
