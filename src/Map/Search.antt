-- ===== src/Map/Search.antt =====
-- What a valid map is, and where the search of src/containers/map.c ends.

use mathlib.Core.Option.{some_inj}
use moonsugar.Prelude.{
  ℕ, zero, suc, ◌+◌, ◌*◌, ◌^◌, ◌<◌, ◌≡◌, ◌≢◌, ◌⊎◌, inl, inr, refl, ap, ◌∙◌, sym, arith, Bool, true,
  false, Bool-cases, Option, some, List, length, get_elem?, get_or, get_elem?-eq-get_or, u64,
  u32_max, sub32,
}
use moonsugar.Bits.{bit_and-le_right}
use moonsugar.Map.{Map, Callbacks, slot, probe}

-- What the callbacks of a map promise: the test of equality decides it, and a key set to none is none.
pub record IsLawful {K : Type 0} (f : Callbacks K) : Type 0 where
  pub reflexive : (k : K) → f.are_keys_equal k k ≡ true
  pub sound : (j k : K) → f.are_keys_equal j k ≡ true → j ≡ k
  pub cleared : (k : K) → f.is_key_none (f.set_key_none k) ≡ true

-- A map whose slots all lie in its blocks, at offsets that fit the program's 32-bit products.
pub record IsValid {K V : Type 0} (map : Map K V) : Type 0 where
  pub keyed : length map.keys ≡ map.capacity
  pub valued : length map.values ≡ map.capacity
  pub some_slots : 0 < map.capacity
  pub word : map.capacity < 2 ^ 32
  pub keys_size : map.capacity * map.key_size < 2 ^ 32
  pub values_size : map.capacity * map.value_size < 2 ^ 32

-- A search in a slice ends inside the map or with UINT32_MAX.
pub record Searched {K : Type 0} (test : K → Bool) (keys : List K) (out : Option ℕ) : Type 0 where
  pub index : ℕ
  pub run : out ≡ some index
  pub passes :
      index ≢ u32_max → (index < length keys) × ((d : K) → test (get_or keys index d) ≡ true)

pub slot_lt : (h i capacity : ℕ) → 0 < capacity → capacity < 2 ^ 32 → slot h i capacity < capacity
slot_lt h i capacity some_slots word =
    omega (arith, bit_and-le_right (u64 (h + i)) (sub32 capacity 1))

module _ {K : Type 0} (h capacity : ℕ) (keys : List K)
    (in_keys : (i : ℕ) → slot h i capacity < length keys) (d : K) where
  pub probe-Searched :
      (test : K → Bool) (rounds i : ℕ) → Searched test keys (probe test rounds i h capacity keys)
  unfolding probe
  probe-Searched test zero i = record {
    index = u32_max;
    run = refl;
    passes = λ ne. absurd (ne refl);
  }
  probe-Searched test (suc rounds) i =
      elim (Bool-cases (test key))
        as (λ (z : (test key ≡ true) ⊎ (test key ≡ false)).
          Searched test keys (probe test (suc rounds) i h capacity keys)) [
            | inl t ↦ record {
              index = g;
              run = rw (held, t) refl;
              passes = λ ne. (
                in_keys i,
                λ e.
                    ap test (some_inj.0 (sym (get_elem?-eq-get_or keys g e (in_keys i)) ∙ held))
                    ∙ t,
              );
            }
            | inr f ↦
                let r = probe-Searched test rounds (i + 1) in
                record { index = r.index; run = rw (held, f) r.run; passes = r.passes }
          ]
    where
      g : ℕ
      g = slot h i capacity

      key : K
      key = get_or keys g d

      held : get_elem? keys g ≡ some key
      held = get_elem?-eq-get_or keys g d (in_keys i)
