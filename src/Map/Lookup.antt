-- ===== src/Map/Lookup.antt =====
-- What storing a value does to the lookups of a map.
use mathlib.Core.Bool.{true≢false}
use moonsugar.Prelude.{
  ℕ, ◌≤◌, ◌<◌, ◌≡◌, ◌≢◌, ◌⊎◌, inl, inr, refl, ap, ◌∙◌, sym, arith, true, false, ◌&&◌, Bool-cases,
  some, [], length, length-set, get_elem?-set_self, get_elem?-set_ne, get_or, get_elem?-eq-get_or,
  set as set_elem, u32_max, ltb, ◌==◌, ℕ_discrete,
}
use moonsugar.Api.{success, full}
use moonsugar.Map.{Map, Callbacks, slot, slice_size, get_index, find_empty, get_value, set}
use moonsugar.Map.Probe.{probe-set_hit, probe-set_miss}
use moonsugar.Map.Search.{IsLawful, IsValid, Searched, slot_lt, probe-Searched}

-- The key is stored: it has the value, no other key's value changed, and the map is valid still.
pub record Stored {K V : Type 0} (f : Callbacks K) (map : Map K V) (key : K) (value : V)
    (after : Map K V) : Type 0 where
  pub valid : IsValid after
  pub stored : get_value f after key ≡ some (some value)
  pub others :
      (other : K)
      → other ≢ key
      → f.is_key_none other ≡ false
      → get_value f after other ≡ get_value f map other

module _ {K V : Type 0} {f : Callbacks K} (lawful : IsLawful f) {map : Map K V} (v : IsValid map)
    (key : K) (value : V) where
  in_keys : (h i : ℕ) → slot h i map.capacity < length map.keys
  in_keys h i = omega (arith, v.keyed, slot_lt h i map.capacity v.some_slots v.word)

  small : length map.keys ≤ u32_max
  small = omega (arith, v.keyed, v.word)

  abbrev written : ℕ → Map K V
  written index = record map {
    keys = set_elem map.keys index key;
    values = set_elem map.values index value;
  }

  get_index-Searched : (k : K) → Searched (f.are_keys_equal k) map.keys (get_index f map k)
  unfolding get_index
  get_index-Searched k =
      probe-Searched (f.hash_key k) map.capacity map.keys (in_keys (f.hash_key k)) key
        (f.are_keys_equal k) slice_size 0

  get_index-written :
      (index : ℕ) (k : K)
      → index < length map.keys
      → f.are_keys_equal k (get_or map.keys index key) ≡ false
      → f.are_keys_equal k key ≡ false
      → get_index f (written index) k ≡ get_index f map k
  unfolding get_index
  get_index-written index k inside before after =
      probe-set_miss (f.hash_key k) map.capacity map.keys (f.are_keys_equal k) key index
        (get_or map.keys index key) (get_elem?-eq-get_or map.keys index key inside) before after
        inside slice_size 0

  -- Writing the slot `index`, which the lookup of the key finds afterwards, and whose old key is not
  -- another key that is looked up.
  written-Stored :
      (index : ℕ)
      → index < length map.keys
      → get_index f (written index) key ≡ some index
      → ((other : K)
          → other ≢ key
          → f.is_key_none other ≡ false
          → f.are_keys_equal other (get_or map.keys index key) ≡ false)
      → Stored f map key value (written index)
  unfolding get_value
  written-Stored index inside found replaced = record {
    valid = record {
      keyed = length-set map.keys index key ∙ v.keyed;
      valued = length-set map.values index value ∙ v.valued;
      some_slots = v.some_slots;
      word = v.word;
      keys_size = v.keys_size;
      values_size = v.values_size;
    };
    stored = rw (found, not_max, get_elem?-set_self map.values index value in_values) refl;
    others = λ other ne real. elsewhere other (replaced other ne real) (differs other ne);
  }
    where
      in_values : index < length map.values
      in_values = omega (arith, v.keyed, v.valued)

      not_max : (index == u32_max) ≡ false
      not_max = ground (arith, small)

      differs : (other : K) → other ≢ key → f.are_keys_equal other key ≡ false
      differs other ne = elim (Bool-cases (f.are_keys_equal other key)) [
        | inl t ↦ absurd (ne (lawful.sound other key t))
        | inr e ↦ e
      ]

      elsewhere :
          (other : K)
          → f.are_keys_equal other (get_or map.keys index key) ≡ false
          → f.are_keys_equal other key ≡ false
          → get_value f (written index) other ≡ get_value f map other
      elsewhere other before after = elim (ℕ_discrete r.index u32_max) [
        | yes e ↦ rw (same, r.run, missing e) refl
        | no ne ↦
            rw
              (
                same,
                r.run,
                not_missing ne,
                get_elem?-set_ne map.values value (apart (r.passes ne).1),
              )
              refl
      ]
        where
          r : Searched (f.are_keys_equal other) map.keys (get_index f map other)
          r = get_index-Searched other

          same : get_index f (written index) other ≡ get_index f map other
          same = get_index-written index other inside before after

          missing : r.index ≡ u32_max → (r.index == u32_max) ≡ true
          missing e = ground (arith, e)

          not_missing : r.index ≢ u32_max → (r.index == u32_max) ≡ false
          not_missing ne = ground (arith, ne)

          apart :
              ((d : K) → f.are_keys_equal other (get_or map.keys r.index d) ≡ true)
              → index ≢ r.index
          apart passes e = true≢false (
              sym (passes key)
              ∙ ap (λ i. f.are_keys_equal other (get_or map.keys i key)) (sym e)
              ∙ before)

  find_empty-Searched : Searched f.is_key_none map.keys (find_empty f map key)
  unfolding find_empty
  find_empty-Searched =
      probe-Searched (f.hash_key key) map.capacity map.keys (in_keys (f.hash_key key)) key
        f.is_key_none slice_size 0

  -- The slot that held the key already.
  again-Stored :
      (index : ℕ)
      → get_index f map key ≡ some index
      → index ≢ u32_max
      → (index < length map.keys)
      → ((d : K) → f.are_keys_equal key (get_or map.keys index d) ≡ true)
      → Stored f map key value (written index)
  unfolding get_index
  again-Stored index found ne inside passes =
      written-Stored index inside
        (probe-set_hit (f.hash_key key) map.capacity map.keys (f.are_keys_equal key)
          (f.are_keys_equal key) key small (in_keys (f.hash_key key)) slice_size 0 index found ne
          (inl (λ k h. h)) (lawful.reflexive key))
        (λ other apart real.
          elim (Bool-cases (f.are_keys_equal other (get_or map.keys index key))) [
            | inl t ↦
                absurd (apart (lawful.sound other _ t ∙ sym (lawful.sound key _ (passes key))))
            | inr e ↦ e
          ])

  -- A slot that held no key.
  fresh-Stored :
      (index : ℕ)
      → get_index f map key ≡ some u32_max
      → find_empty f map key ≡ some index
      → index ≢ u32_max
      → (index < length map.keys)
      → ((d : K) → f.is_key_none (get_or map.keys index d) ≡ true)
      → Stored f map key value (written index)
  unfolding get_index find_empty
  fresh-Stored index missing found ne inside passes =
      written-Stored index inside
        (probe-set_hit (f.hash_key key) map.capacity map.keys f.is_key_none (f.are_keys_equal key)
          key small (in_keys (f.hash_key key)) slice_size 0 index found ne (inr missing)
          (lawful.reflexive key))
        (λ other apart real.
          elim (Bool-cases (f.are_keys_equal other (get_or map.keys index key))) [
            | inl t ↦ absurd (
                true≢false
                  (sym (passes key) ∙ ap f.is_key_none (sym (lawful.sound other _ t)) ∙ real))
            | inr e ↦ e
          ])

  -- On a valid map that does not grow `ms_map_set` never leaves the slots. It stores the value under the
  -- key, so that a lookup of the key returns it, the lookup of any other key that is not none returns what
  -- it did, and the map is valid still; or it reports a full map and changes nothing, and then the slice of
  -- the key holds neither the key nor a free slot.
  pub set_cases :
      map.growth_factor ≡ 0
      → ((after : Map K V) × (set f [] map key value ≡ some (success, after, []))
          × Stored f map key value after)
        ⊎ ((set f [] map key value ≡ some (full, map, []))
            × (get_index f map key ≡ some u32_max)
            × (find_empty f map key ≡ some u32_max))
  unfolding set
  set_cases fixed = elim (ℕ_discrete r.index u32_max) [
    | no ne ↦ inl (
      written r.index,
      rw (r.run, not_missing r.index ne, not_missing r.index ne, writes r.index (r.passes ne).0)
          refl,
      again-Stored r.index r.run ne (r.passes ne).0 (r.passes ne).1,
    )
    | yes e ↦ elim (ℕ_discrete s.index u32_max) [
      | no ne ↦ inl (
        written s.index,
        rw (r.run, missing r.index e, s.run, not_missing s.index ne, writes s.index (s.passes ne).0)
            refl,
        fresh-Stored s.index (r.run ∙ ap some e) s.run ne (s.passes ne).0 (s.passes ne).1,
      )
      | yes e' ↦ inr (
        rw (r.run, missing r.index e, s.run, missing s.index e', no_growth) refl,
        r.run ∙ ap some e,
        s.run ∙ ap some e',
      )
    ]
  ]
    where
      r : Searched (f.are_keys_equal key) map.keys (get_index f map key)
      r = get_index-Searched key

      s : Searched f.is_key_none map.keys (find_empty f map key)
      s = find_empty-Searched

      missing : (i : ℕ) → i ≡ u32_max → (i == u32_max) ≡ true
      missing i e = ground (arith, e)

      not_missing : (i : ℕ) → i ≢ u32_max → (i == u32_max) ≡ false
      not_missing i ne = ground (arith, ne)

      no_growth : ltb 0 map.growth_factor ≡ false
      no_growth = ground arith

      writes :
          (i : ℕ)
          → i < length map.keys
          → (ltb i (length map.keys) && ltb i (length map.values)) ≡ true
      writes i inside = ground (arith, v.keyed, v.valued)
