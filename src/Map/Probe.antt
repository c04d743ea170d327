-- ===== src/Map/Probe.antt =====
-- Probing a slice of a map before and after one slot is written.
use mathlib.Core.Option.{some_inj}
use moonsugar.Prelude.{
  ℕ, zero, suc, ◌+◌, ◌≤◌, ◌<◌, ◌≡◌, ◌≢◌, ◌⊎◌, inl, inr, refl, ap, ◌∙◌, sym, arith, Bool, true,
  false, Bool-cases, Option, some, List, length, get_elem?, get_elem?-set_self, get_elem?-set_ne,
  get_or, get_elem?-eq-get_or, set as set_elem, u32_max, ℕ_discrete, if◌then◌else◌,
}
use moonsugar.Map.{slot, probe}

module _ {K : Type 0} (h capacity : ℕ) (keys : List K) where
  -- What a round finds in its slot, and what it then answers.
  probe_round :
      (test : K → Bool) (rounds i : ℕ) (key : K)
      → get_elem? keys (slot h i capacity) ≡ some key
      → probe test (suc rounds) i h capacity keys
        ≡ (if test key then some (slot h i capacity) else probe test rounds (i + 1) h capacity keys)
  unfolding probe
  probe_round test rounds i key found = rw found refl

module _ {K : Type 0} (h capacity : ℕ) (keys : List K) (p q : K → Bool) (x : K)
    (small : length keys ≤ u32_max) (in_keys : (i : ℕ) → slot h i capacity < length keys) where
  -- What passes the second test passes the first, or nothing in the slice passes the second.
  abbrev pub Clear : ℕ → ℕ → Type 0
  Clear rounds i =
      ((key : K) → p key ≡ false → q key ≡ false)
      ⊎ (probe q rounds i h capacity keys ≡ some u32_max)

  -- Where the first test finds a slot, and what is written there passes the second, the second finds it.
  pub probe-set_hit :
      (rounds i index : ℕ)
      → probe p rounds i h capacity keys ≡ some index
      → index ≢ u32_max
      → Clear rounds i
      → q x ≡ true
      → probe q rounds i h capacity (set_elem keys index x) ≡ some index
  unfolding probe
  probe-set_hit zero i index found inside clear hit = absurd (inside (sym (some_inj.0 found)))
  probe-set_hit (suc rounds) i index found inside clear hit = elim (Bool-cases (p key)) [
    | inl t ↦
        at_slot (some_inj.0 (ap (pick (probe p rounds (i + 1) h capacity keys)) (sym t) ∙ round_p))
    | inr f ↦ elim (ℕ_discrete index g) [
      | yes e ↦ at_slot (sym e)
      | no ne ↦
          let (missed, rest) = behind f clear in
          rw (get_elem?-set_ne keys x ne, held, missed)
            (probe-set_hit rounds (i + 1) index
              (ap (pick (probe p rounds (i + 1) h capacity keys)) (sym f) ∙ round_p) inside rest
              hit)
    ]
  ]
    where
      g : ℕ
      g = slot h i capacity

      key : K
      key = get_or keys g x

      held : get_elem? keys g ≡ some key
      held = get_elem?-eq-get_or keys g x (in_keys i)

      pick : Option ℕ → Bool → Option ℕ
      pick rest t = if t then some g else rest

      round_p : pick (probe p rounds (i + 1) h capacity keys) (p key) ≡ some index
      round_p = sym (probe_round h capacity keys p rounds i key held) ∙ found

      at_slot : g ≡ index → probe q (suc rounds) i h capacity (set_elem keys index x) ≡ some index
      at_slot e = rw (sym e, get_elem?-set_self keys g x (in_keys i), hit) refl

      behind : p key ≡ false → Clear (suc rounds) i → (q key ≡ false) × Clear rounds (i + 1)
      behind f (inl narrower) = (narrower key f, inl narrower)
      behind f (inr none_q) = elim (Bool-cases (q key)) [
        | inl t ↦ absurd (
            below_max
              (some_inj.0 (ap (pick (probe q rounds (i + 1) h capacity keys)) (sym t) ∙ round_q)))
        | inr f' ↦ (f', inr (ap (pick (probe q rounds (i + 1) h capacity keys)) (sym f') ∙ round_q))
      ]
        where
          round_q : pick (probe q rounds (i + 1) h capacity keys) (q key) ≡ some u32_max
          round_q = sym (probe_round h capacity keys q rounds i key held) ∙ none_q

          below_max : g ≢ u32_max
          below_max e = omega (arith, e, in_keys i, small)
          -- Writing a slot whose key did not pass and does not pass changes no search.

pub probe-set_miss :
    {K : Type 0} (h capacity : ℕ) (keys : List K) (q : K → Bool) (x : K) (index : ℕ) (old : K)
    → get_elem? keys index ≡ some old
    → q old ≡ false
    → q x ≡ false
    → index < length keys
    → (rounds i : ℕ)
    → probe q rounds i h capacity (set_elem keys index x) ≡ probe q rounds i h capacity keys
unfolding probe
probe-set_miss h capacity keys q x index old held before after inside zero i = refl
probe-set_miss h capacity keys q x index old held before after inside (suc rounds) i =
    elim (ℕ_discrete index (slot h i capacity)) [
      | yes e ↦
          rw
            (
              sym e,
              held,
              get_elem?-set_self keys index x inside,
              before,
              after,
              probe-set_miss h capacity keys q x index old held before after inside rounds (i + 1),
            )
            refl
      | no ne ↦
          rw
            (
              get_elem?-set_ne keys x ne,
              probe-set_miss h capacity keys q x index old held before after inside rounds (i + 1),
            )
            refl
    ]
