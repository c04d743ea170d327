-- ===== src/PagedArray/Places.antt =====
-- Where the items of a paged array stand.
use native.Mathlib.Nat.{
  mul-lt-mul_of_pos_right, mul-add-div, mul-add-mod_self_left, div-eq_of_lt, mod-eq_of_lt,
  div-add-mod, mul_comm, lt_of_mul-lt-mul_left,
}
use moonsugar.Prelude.{
  ℕ, ◌+◌, ◌-◌, ◌*◌, ◌/◌, ◌%◌, ◌^◌, ◌≤◌, ◌<◌, ◌≡◌, ap, ◌∙◌, arith, u32, ◌⊎◌, inl, inr, dec_lt,
}
use moonsugar.PagedArray.{ItemPointer}

-- The pointer to an item, for pages and items of some size.
abbrev pub pointer : ℕ → ℕ → ℕ → ItemPointer
pointer capacity item_size index = record {
  page = index / capacity;
  offset = index % capacity * item_size;
}

-- A sum of whole pages and a rest.
pub quotient : (c k r : ℕ) → r < c → ((c * k + r) / c ≡ k) × ((c * k + r) % c ≡ r)
quotient c k r h = (
  mul-add-div {m = c} (omega (arith, h)) k r
      ∙ ap (λ t. k + t) (div-eq_of_lt {n = r} {m = c} h)
      ∙ omega arith,
  mul-add-mod_self_left c k r ∙ mod-eq_of_lt {n = r} {m = c} h,
)

-- The place of an item: on a page before the last, or on the last.
pub where_item :
    (c k n i : ℕ) → 0 < c → n ≤ c → i < c * k + n → (i / c < k) ⊎ ((i / c ≡ k) × (i % c < n))
where_item c k n i pos fits h = elim (dec_lt i (c * k)) [
  | yes less ↦
      inl (lt_of_mul-lt-mul_left c {m = i / c} {n = k} (omega (arith, less, div-add-mod i c)))
  | no more ↦ inr (on_last more)
]
  where
    on_last : ¬ (i < c * k) → (i / c ≡ k) × (i % c < n)
    on_last more =
        (ap (λ t. t / c) split ∙ place.0, omega (arith, ap (λ t. t % c) split, place.1, h, more))
      where
        split : i ≡ c * k + (i - c * k)
        split = omega (arith, more)

        place : ((c * k + (i - c * k)) / c ≡ k) × ((c * k + (i - c * k)) % c ≡ i - c * k)
        place = quotient c k (i - c * k) (omega (arith, more, h, fits))

-- Offsets in a page do not wrap, and those of different items differ.
pub offset_lem :
    (c s r : ℕ) → c * s < 2 ^ 32 → r < c → 0 < s → (u32 (r * s) ≡ r * s) × (u32 (s * r) ≡ r * s)
offset_lem c s r bound h pos =
    (omega (arith, less, bound), ap u32 (mul_comm s r) ∙ omega (arith, less, bound))
  where
    less : r * s < c * s
    less = mul-lt-mul_of_pos_right {m = r} {n = c} {k = s} h pos
