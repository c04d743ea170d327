-- ===== src/Stack/Laws.antt =====
-- What allocations from a stack give.
use moonsugar.Prelude.{
  ℕ, ◌+◌, ◌-◌, ◌^◌, ◌≤◌, ◌<◌, ◌≡◌, refl, ap, ◌∙◌, arith, Bool, true, Bool-cases, inl, inr, some,
  u64, sub64, ltb, leb, if◌then◌else◌,
}
use moonsugar.Api.{default_alignment}
use moonsugar.Util.Choose.{choose_lem}
use moonsugar.Stack.{Stack, padded_size, malloc}

-- The tops stand in order over the base.
pub record IsValid (stack : Stack) : Type 0 where
  pub based : stack.base ≤ stack.top
  pub committed : stack.top ≤ stack.committed_top
  pub word : stack.committed_top < 2 ^ 64

word_of_padded :
    (size alignment : ℕ)
    → 0 < alignment
    → size + alignment < 2 ^ 64
    → u64 (sub64 (u64 (size + alignment)) 1) ≡ size + alignment - 1
word_of_padded size alignment pos fits = omega arith

padded_size_lem :
    (size alignment : ℕ)
    → 0 < alignment
    → size + alignment < 2 ^ 64
    → padded_size size alignment
      ≡ (if leb alignment default_alignment then size else size + alignment - 1)
padded_size_lem size alignment pos fits =
    let word = word_of_padded size alignment pos fits in
    choose_lem size (u64 (sub64 (u64 (size + alignment)) 1)) (leb alignment default_alignment)
      (omega arith) (omega (arith, word))
    ∙ ap (λ t. if leb alignment default_alignment then size else t) word

padded_size-bounds :
    (size alignment : ℕ)
    → 0 < alignment
    → size + alignment < 2 ^ 64
    → (size ≤ padded_size size alignment) × (padded_size size alignment < size + alignment)
padded_size-bounds size alignment pos fits =
    let e = padded_size_lem size alignment pos fits in within e
  where
    within :
        padded_size size alignment
          ≡ (if leb alignment default_alignment then size else size + alignment - 1)
        → (size ≤ padded_size size alignment) × (padded_size size alignment < size + alignment)
    within e = elim (Bool-cases (leb alignment default_alignment)) [
      | inl t ↦
          let g = e ∙ ap (λ b. if b then size else size + alignment - 1) t in
          (omega (arith, g), omega (arith, g))
      | inr f ↦
          let g = e ∙ ap (λ b. if b then size else size + alignment - 1) f in
          (omega (arith, g), omega (arith, g))
    ]

-- An allocation on a valid stack, where committing succeeds and no address wraps, returns the old top. The
-- stack is valid still, its top stands behind all the bytes asked for, and the memory up to the top is
-- committed: the next allocation begins behind this one.
pub malloc_lem :
    (commits : ℕ → ℕ → Bool)
    → (stack : Stack) → IsValid stack
    → (size alignment : ℕ) → ((start count : ℕ) → commits start count ≡ true)
    → 0 < alignment
    → stack.top + size + alignment < 2 ^ 64
    → (after : Stack) × (malloc commits stack size alignment ≡ some (stack.top, after))
      × IsValid after
      × (stack.top + size ≤ after.top)
      × (after.base ≡ stack.base)
unfolding malloc
malloc_lem commits stack v size alignment works pos fits =
    elim (Bool-cases (ltb stack.committed_top end_ptr)) [
      | inl t ↦ (
        record grown { committed_top = end_ptr },
        rw (t, works stack.committed_top (end_ptr - stack.committed_top)) refl,
        record {
          based = omega (arith, exact, v.based);
          committed = omega (arith);
          word = omega (arith, exact, bounds, fits);
        },
        omega (arith, exact, bounds),
        refl,
      )
      | inr f ↦ (
        grown,
        rw (f) refl,
        record {
          based = omega (arith, exact, v.based);
          committed = ground (arith, f);
          word = v.word;
        },
        omega (arith, exact, bounds),
        refl,
      )
    ]
  where
    bounds : (size ≤ padded_size size alignment) × (padded_size size alignment < size + alignment)
    bounds = padded_size-bounds size alignment pos (omega (arith, fits))

    end_ptr : ℕ
    end_ptr = u64 (stack.top + padded_size size alignment)

    exact : end_ptr ≡ stack.top + padded_size size alignment
    exact = omega (arith, bounds)

    grown : Stack
    grown = record stack { top = end_ptr }
