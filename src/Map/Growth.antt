-- ===== src/Map/Growth.antt =====
-- What growing a map does.
use mathlib.Core.Option.{none-ne-some}
use moonsugar.Prelude.{
  inl, inr, sym, ℕ, zero, suc, ◌+◌, ◌*◌, ◌≤◌, ◌<◌, ◌≡◌, ◌≢◌, refl, ◌∙◌, arith, true, false, ◌&&◌,
  none, some, Option-cases, List, length, length-set, get_elem?, get_elem?-none, set as set_elem,
  u32, ltb, ◌==◌, dec_lt,
}
use moonsugar.Api.{null}
use moonsugar.Util.{is_power2}
use moonsugar.Map.{Map, Callbacks, Blocks, none_from, resize}
use moonsugar.Map.Search.{IsValid}

none_from_outside :
    {K : Type 0} (f : Callbacks K) (rounds i : ℕ) (keys : List K)
    → i ≤ length keys
    → length keys < i + rounds
    → none_from f rounds i keys ≡ none
unfolding none_from
none_from_outside f zero i keys at beyond = absurd (omega (arith, at, beyond))
none_from_outside {K = K} f (suc rounds) i keys at beyond = elim (Option-cases (get_elem? keys i)) [
  | inl e ↦ rw e refl
  | inr (key, e) ↦ rw e (
      none_from_outside f rounds (i + 1) (set_elem keys i (f.set_key_none key))
        (omega (arith, inside key e, length-set keys i (f.set_key_none key)))
        (omega (arith, length-set keys i (f.set_key_none key))))
]
  where
    inside : (key : K) → get_elem? keys i ≡ some key → i < length keys
    inside key e = elim (dec_lt i (length keys)) [
      | yes h ↦ h
      | no g ↦ absurd (none-ne-some key (sym (get_elem?-none keys i (omega (arith, g))) ∙ e))
    ]

-- Growing a valid map is undefined where the allocator gives both blocks: the loop that is to clear the new
-- keys writes to the old ones, as many as the new capacity says.
pub resize_grows_undefined :
    {K V : Type 0} (f : Callbacks K) (blocks : Blocks K V) {map : Map K V} (new_capacity : ℕ)
    → IsValid map
    → is_power2 new_capacity ≡ true
    → map.capacity < new_capacity
    → blocks.keys_block (u32 (new_capacity * map.key_size)) ≢ null
    → blocks.values_block (u32 (new_capacity * map.value_size)) ≢ null
    → resize f blocks map new_capacity ≡ none
unfolding resize
resize_grows_undefined f blocks {map} new_capacity v power grows given given' =
    rw (power, given_block _ given, given_block _ given', outside) refl
  where
    given_block : (pointer : ℕ) → pointer ≢ null → (pointer == null && ltb 0 new_capacity) ≡ false
    given_block pointer ne = ground (arith, ne)

    outside : none_from f new_capacity 0 map.keys ≡ none
    outside = none_from_outside f new_capacity 0 map.keys (omega arith) (omega (arith, v.keyed))
