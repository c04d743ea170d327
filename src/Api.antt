-- ===== src/Api.antt =====
-- include/moonsugar/api.h and memory.h: the result codes, and what a container asks of its allocator.
use moonsugar.Prelude.{ℕ}

-- `ms_result`.
pub data MsResult : Type 0 where
  success length unknown invalid_argument memory full empty resource_limit access not_found eof
        scheduled unsupported :
      MsResult

-- `ms_allocator`, by what it answers while one call runs: the pointer to a block of that size and
-- alignment, and the pointer to a block resized. 0 is NULL.
pub record Allocator : Type 0 where
  pub allocate : ℕ → ℕ → ℕ
  pub reallocate : ℕ → ℕ → ℕ

-- `MS_DEFAULT_ALIGNMENT`.
abbrev pub default_alignment : ℕ
default_alignment = 8

abbrev pub null : ℕ
null = 0
