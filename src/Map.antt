-- ===== src/Map.antt =====
-- src/containers/map.c: a hash map with open addressing. The slots behind `keys` and `values` are lists, and
-- `none` is undefined behaviour, an access outside them. The callbacks are arguments of the operations.
-- A slot is named by its index, as long as the 32-bit products of indices and sizes do not wrap (`IsValid` in
-- Map/Search.antt).
pub mod Probe
pub mod Search
pub mod Lookup
pub mod Growth
mod Tests
use moonsugar.Prelude.{
  ℕ, zero, suc, ◌+◌, ◌-◌, ◌*◌, ◌^◌, max, bit_and, Bool, true, false, not, ◌&&◌, Option, none, some,
  List, [], ◌∷◌, ◌++◌, length, get_elem?, set as set_elem, u32, u64, u32_max, sub32, ltb, ◌==◌,
  if◌then◌else◌, ◌>>=◌,
}
use moonsugar.Api.{MsResult, success, invalid_argument, memory, full, null}
use moonsugar.Util.{is_power2, max as ms_max}

-- `MS_MAP_SLICE_SIZE`.
abbrev pub slice_size : ℕ
slice_size = 16

-- `ms_map_description`, less its allocator and callbacks.
pub record MapDescription : Type 0 where
  pub capacity : ℕ
  pub growth_factor : ℕ
  pub key_size : ℕ
  pub value_size : ℕ

-- The callbacks that a map stores.
pub record Callbacks (K : Type 0) : Type 0 where
  pub are_keys_equal : K → K → Bool
  pub hash_key : K → ℕ
  pub is_key_none : K → Bool
  pub set_key_none : K → K

-- `ms_map`, less its allocator and callbacks.
pub record Map (K V : Type 0) : Type 0 where
  pub capacity : ℕ
  pub growth_factor : ℕ
  pub key_size : ℕ
  pub value_size : ℕ
  pub keys_pointer : ℕ
  pub keys : List K
  pub values_pointer : ℕ
  pub values : List V

-- What the allocator answers to the two requests of a construction or a growth, by the size asked for, and
-- what the blocks of that size hold: the keys and the values that lie whole in them.
pub record Blocks (K V : Type 0) : Type 0 where
  pub keys_block : ℕ → ℕ
  pub values_block : ℕ → ℕ
  pub fresh_keys : ℕ → List K
  pub fresh_values : ℕ → List V

-- `(h + local_index) & w`, kept as a `uint32_t`.
abbrev pub slot : ℕ → ℕ → ℕ → ℕ
slot h local_index capacity = u32 (bit_and (u64 (h + local_index)) (sub32 capacity 1))

module _ {K : Type 0} where
  -- The loop over a slice, for the first slot whose key passes the test; UINT32_MAX where none does.
  pub probe : (K → Bool) → ℕ → ℕ → ℕ → ℕ → List K → Option ℕ
  probe test zero local_index h capacity keys = some u32_max
  probe test (suc rounds) local_index h capacity keys =
      let rest = probe test rounds (local_index + 1) h capacity keys in
      get_elem? keys (slot h local_index capacity) >>= λ key.
      if test key then some (slot h local_index capacity) else rest

  -- The loop that sets `rounds` keys, from slot `i` on, to none.
  pub none_from : Callbacks K → ℕ → ℕ → List K → Option (List K)
  none_from f zero i keys = some keys
  none_from f (suc rounds) i keys =
      get_elem? keys i >>= λ key. none_from f rounds (i + 1) (set_elem keys i (f.set_key_none key))

module _ {K V : Type 0} (f : Callbacks K) where
  -- `ms_map_get_index`.
  pub get_index : Map K V → K → Option ℕ
  unfolding probe
  get_index map key =
      probe (f.are_keys_equal key) slice_size 0 (f.hash_key key) map.capacity map.keys

  -- `find_empty`.
  pub find_empty : Map K V → K → Option ℕ
  unfolding probe
  find_empty map key = probe f.is_key_none slice_size 0 (f.hash_key key) map.capacity map.keys

  -- `ms_map_get_value`: what the pointer returned designates, and the inner `none` for NULL.
  pub get_value : Map K V → K → Option (Option V)
  unfolding get_index
  get_value map key = get_index map key >>= λ index.
      if index == u32_max then some none else (get_elem? map.values index >>= λ v. some (some v))

  -- `ms_map_get_key`.
  pub get_key : Map K V → K → Option (Option K)
  unfolding get_index
  get_key map key = get_index map key >>= λ index.
      if index == u32_max then some none else (get_elem? map.keys index >>= λ k. some (some k))

  -- `ms_map_remove`.
  pub remove : Map K V → K → Option (Bool × Map K V)
  unfolding get_index
  remove map key = get_index map key >>= λ index.
      if index == u32_max
      then some (false, map)
      else (get_elem? map.keys index >>= λ old.
          some (true, record map { keys = set_elem map.keys index (f.set_key_none old) }))

  -- `ms_map_construct`; the last part lists the pointers freed.
  pub construct : Blocks K V → Map K V → MapDescription → Option (MsResult × Map K V × List ℕ)
  unfolding none_from
  construct blocks map description =
      if not (is_power2 description.capacity)
      then some (invalid_argument, map, [])
      else if ltb 0 description.capacity && keys == null
      then some (memory, map, [])
      else if ltb 0 description.capacity && values == null
      then some (memory, map, keys ∷ [])
      else (none_from f description.capacity 0 (blocks.fresh_keys keys_size) >>= λ blank. some (
        success,
        record {
          capacity = description.capacity;
          growth_factor = description.growth_factor;
          key_size = description.key_size;
          value_size = description.value_size;
          keys_pointer = keys;
          keys = blank;
          values_pointer = values;
          values = blocks.fresh_values values_size;
        },
        [],
      ))
    where
      keys_size : ℕ
      keys_size = u32 (description.key_size * description.capacity)

      values_size : ℕ
      values_size = u32 (description.value_size * description.capacity)

      keys : ℕ
      keys = blocks.keys_block keys_size

      values : ℕ
      values = blocks.values_block values_size

  -- `ms_map_destroy`; the second part lists the pointers freed.
  pub destroy : Map K V → Map K V × List ℕ
  destroy map = (
    record map { keys_pointer = null; keys = []; values_pointer = null; values = [] },
    map.values_pointer ∷ map.keys_pointer ∷ [],
  )

  -- One round of the second loop of `ms_map_resize`: a key that is not none is copied, with its value,
  -- which is read through `map->values`: the new block already.
  abbrev copy_one : ℕ → ℕ → K → List K → List V → Option (List K × List V)
  copy_one i new_capacity key new_keys new_values =
      if f.is_key_none key
      then some (new_keys, new_values)
      else (get_elem? new_values i >>= λ value.
          let new_index = slot (f.hash_key key) 0 new_capacity in
          if ltb new_index (length new_keys) && ltb new_index (length new_values)
          then some (set_elem new_keys new_index key, set_elem new_values new_index value)
          else none)

  pub copy_from : ℕ → ℕ → ℕ → List K → List K → List V → Option (List K × List V)
  copy_from zero i new_capacity keys new_keys new_values = some (new_keys, new_values)
  copy_from (suc rounds) i new_capacity keys new_keys new_values = get_elem? keys i >>= λ key.
      copy_one i new_capacity key new_keys new_values >>= λ next.
      copy_from rounds (i + 1) new_capacity keys next.0 next.1

  -- `ms_map_resize`. The new block of values stands in `map->values` when that pointer is freed: no values
  -- are left to access.
  pub resize : Blocks K V → Map K V → ℕ → Option (MsResult × Map K V × List ℕ)
  unfolding none_from copy_from
  resize blocks map new_capacity =
      if not (is_power2 new_capacity)
      then some (invalid_argument, map, [])
      else if new_keys == null && ltb 0 new_capacity
      then some (memory, map, [])
      else if new_values == null && ltb 0 new_capacity
      then some (memory, record map { values_pointer = new_values; values = [] }, new_keys ∷ [])
      else (none_from f new_capacity 0 map.keys >>= λ keys.
          copy_from new_capacity 0 new_capacity keys
            (blocks.fresh_keys (u32 (new_capacity * map.key_size)))
            (blocks.fresh_values (u32 (new_capacity * map.value_size)))
          >>= λ copied. some (
            success,
            record map {
              capacity = new_capacity;
              keys_pointer = new_keys;
              keys = copied.0;
              values_pointer = new_values;
              values = [];
            },
            new_values ∷ map.keys_pointer ∷ [],
          ))
    where
      new_keys : ℕ
      new_keys = blocks.keys_block (u32 (new_capacity * map.key_size))

      new_values : ℕ
      new_values = blocks.values_block (u32 (new_capacity * map.value_size))

  -- The two copies of `ms_map_set` into the slot `index`.
  abbrev pub write : Map K V → ℕ → K → V → Option (MsResult × Map K V × List ℕ)
  write map index key value =
      if ltb index (length map.keys) && ltb index (length map.values)
      then some (
        success,
        record map { keys = set_elem map.keys index key; values = set_elem map.values index value },
        [],
      )
      else none

  -- What `ms_map_set` does with the slot found: UINT32_MAX leads to `otherwise`.
  abbrev pub write_or :
      Map K V → K → V → Option (MsResult × Map K V × List ℕ) → Option (MsResult × Map K V × List ℕ)
  write_or map key value otherwise = get_index map key >>= λ found.
      (if found == u32_max then find_empty map key else some found) >>= λ index.
      if not (index == u32_max) then write map index key value else otherwise

  -- The result of the growth: where it succeeded `ms_map_set` begins again.
  abbrev retry :
      (Map K V → Option (MsResult × Map K V × List ℕ))
      → MsResult × Map K V × List ℕ
      → Option (MsResult × Map K V × List ℕ)
  retry again (success, map, freed) = again map >>= λ out. some (out.0, out.1, freed ++ out.2)
  retry again (failed, map, freed) = some (failed, map, freed)

  -- `ms_map_set`; the list holds what the allocator answers to each growth in turn, and `none` is also where
  -- it ends.
  pub set : List (Blocks K V) → Map K V → K → V → Option (MsResult × Map K V × List ℕ)
  unfolding get_index find_empty resize
  set [] map key value =
      write_or map key value (if ltb 0 map.growth_factor then none else some (full, map, []))
  set (blocks ∷ answers) map key value = write_or map key value (
      if ltb 0 map.growth_factor
      then (resize blocks map (u32 (ms_max 1 map.capacity * map.growth_factor)) >>= λ out.
          retry (λ map. set answers map key value) out)
      else some (full, map, []))
