-- ===== src/Ring/Index.antt =====
-- The index arithmetic of the ring: 32-bit counters that wrap, reduced to a power of two.
use native.Mathlib.Nat.{
  add-mod_left, mod-add-mod, add-mul-mod_self_left, div-add-mod, mul_assoc, mod-eq_of_lt, mod_self,
  mod-lt, mod-eq-sub-mod,
}
use moonsugar.Prelude.{ℕ, ◌+◌, ◌-◌, ◌*◌, ◌/◌, ◌%◌, ◌≤◌, ◌<◌, ◌≡◌, ◌≢◌, ap, ◌∙◌, sym, arith, dec_lt}

module _ (p c m : ℕ) (split : m ≡ p * c) where
  -- Reducing a wrapped counter is reducing the counter.
  pub mod-wrap : (x : ℕ) → x % m % p ≡ x % p
  mod-wrap x = sym (ap (λ t. t % p) whole ∙ add-mul-mod_self_left (x % m) p (c * (x / m)))
    where
      whole : x ≡ x % m + p * (c * (x / m))
      whole = omega (arith, div-add-mod x m, ap (λ t. t * (x / m)) split, mul_assoc p c (x / m))

  pub add-mod_whole : (x : ℕ) → (x + m) % p ≡ x % p
  add-mod_whole x = ap (λ t. (x + t) % p) split ∙ add-mul-mod_self_left x p c

  -- Where the oldest item stands, as `enqueue` counts up ...
  pub start_after_write :
      (w n : ℕ) → w < m → n < m → ((w + 1) % m + m - (n + 1)) % p ≡ (w + m - n) % p
  start_after_write w n hw hn = elim (dec_lt (w + 1) m) [
    | yes small ↦ ap (λ t. t % p) (omega (arith, mod-eq_of_lt small))
    | no large ↦
        let e : w + 1 ≡ m = omega arith in
        let zero_next : (w + 1) % m ≡ 0 = ap (λ t. t % m) e ∙ mod_self m in
        let back : m - (n + 1) + m ≡ w + m - n = omega arith in
        ap (λ t. t % p) (omega arith) ∙ sym (add-mod_whole (m - (n + 1))) ∙ ap (λ t. t % p) back
  ]

  -- ... as `dequeue` counts down ...
  pub start_after_read :
      (w n : ℕ) → w < m → 0 < n → n ≤ m → (w + m - (n - 1)) % p ≡ (w + m - n + 1) % p
  start_after_read w n hw hn hm = ap (λ t. t % p) (omega arith)

  -- ... and the slots that the two operations take.
  pub slot_of_write : (w n : ℕ) → n ≤ m → w % p ≡ (w + m - n + n) % p
  slot_of_write w n h = sym (ap (λ t. t % p) whole ∙ add-mod_whole w)
    where
      whole : w + m - n + n ≡ w + m
      whole = omega arith

  pub slot_of_read : (w n : ℕ) → (p + (w + m - n) % m) % m % p ≡ (w + m - n) % p
  slot_of_read w n =
      mod-wrap (p + (w + m - n) % m) ∙ add-mod_left p ((w + m - n) % m) ∙ mod-wrap (w + m - n)

-- Fewer than `p` steps round the ring do not come back.
pub mod-add-ne : (p s j n : ℕ) → j < n → n < p → (s + j) % p ≢ (s + n) % p
mod-add-ne p s j n hj hn e = elim (dec_lt (r + (n - j)) p) [
  | yes below ↦ omega (arith, mod-eq_of_lt below, same)
  | no above ↦ omega (
    arith,
    mod-eq-sub-mod {n = r + (n - j)} {m = p} (omega arith),
    mod-eq_of_lt {n = r + (n - j) - p} {m = p}
        (omega (arith, mod-lt (s + j) {m = p} (omega arith))),
    same,
  )
]
  where
    r : ℕ
    r = (s + j) % p

    same : (r + (n - j)) % p ≡ r
    same = mod-add-mod (s + j) p (n - j) ∙ ap (λ t. t % p) (omega arith) ∙ sym e
