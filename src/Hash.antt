-- ===== src/Hash.antt =====
-- src/hash.c: the hashes of the keys of a map. `xxh3` is XXH3_64bits, on the bytes that it is given. A pointer to
-- a key is the key; a string is the list of its characters, less the NUL at its end.
mod Equal
use moonsugar.Prelude.{ℕ, List, length, take, u32}

-- `ms_hash`.
pub hash : (List ℕ → ℕ) → List ℕ → ℕ → ℕ
hash xxh3 data_bytes size = xxh3 (take size data_bytes)

-- `ms_hash_u64`, and `ms_hash_u32`, which is also `ms_hash_handle`.
pub hash_u64 : ℕ → ℕ
hash_u64 value = value

pub hash_u32 : ℕ → ℕ
hash_u32 value = value

-- `ms_hash_cstr`; the length is cut to 32 bits.
pub hash_cstr : (List ℕ → ℕ) → List ℕ → ℕ
unfolding hash
hash_cstr xxh3 s = hash xxh3 s (u32 (length s))
