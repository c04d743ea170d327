-- ===== src/Hash/Equal.antt =====
-- The hashes of src/hash.c and the tests of equality of src/functional.c.
use moonsugar.Prelude.{ℕ, ◌≡◌, refl, ap, ap₂, arith, true, List, [], ◌∷◌, ◌==◌}
use moonsugar.Functional.{equals_u64, equals_u32, equals_cstr}
use moonsugar.Hash.{hash_u64, hash_u32, hash_cstr}

equals_cstr_sound : (s t : List ℕ) → equals_cstr s t ≡ true → s ≡ t
unfolding equals_cstr
equals_cstr_sound [] [] h = refl
equals_cstr_sound [] (b ∷ t) h = absurd (ground arith)
equals_cstr_sound (a ∷ s) [] h = absurd (ground arith)
equals_cstr_sound (a ∷ s) (b ∷ t) h =
    let first : a ≡ b = ground (arith, h) in
    let rest : equals_cstr s t ≡ true = ground (arith, h) in
    ap₂ ◌∷◌ first (equals_cstr_sound s t rest)

-- Keys that the tests of equality call equal have the same hash: numbers of 64 bits, numbers of 32 bits, and strings.
hash-equals :
    (xxh3 : List ℕ → ℕ)
    → ((a b : ℕ) → equals_u64 a b ≡ true → hash_u64 a ≡ hash_u64 b)
      × ((a b : ℕ) → equals_u32 a b ≡ true → hash_u32 a ≡ hash_u32 b)
      × ((s t : List ℕ) → equals_cstr s t ≡ true → hash_cstr xxh3 s ≡ hash_cstr xxh3 t)
unfolding equals_u64 equals_u32
hash-equals xxh3 = (
  λ a b h. ap hash_u64 (same a b h),
  λ a b h. ap hash_u32 (same a b h),
  λ s t h. ap (hash_cstr xxh3) (equals_cstr_sound s t h),
)
  where
    same : (a b : ℕ) → (a == b) ≡ true → a ≡ b
    same a b h = ground (arith, h)
