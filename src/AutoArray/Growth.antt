-- ===== src/AutoArray/Growth.antt =====
-- Growing and appending, src/containers/auto-array.c.
use moonsugar.Prelude.{
  ℕ, ◌+◌, ◌*◌, ◌%◌, ◌^◌, ◌≤◌, ◌<◌, ◌≡◌, ◌≢◌, refl, ap, ◌∙◌, arith, true, Bool-cases, inl, inr,
  sub32, u32, u64, ltb, ◌==◌, if◌then◌else◌,
}
use moonsugar.Api.{success, memory, Allocator, null}
use moonsugar.Util.{align_sz}
use moonsugar.Util.Align.{align_sz_lem}
use moonsugar.AutoArray.{
  AutoArray, AutoArrayDescription, rounded, construct, reserve, resize, append, get,
}

pub record IsValid (arr : AutoArray) : Type 0 where
  pub within : arr.count ≤ arr.capacity
  pub blocks : arr.capacity % 8 ≡ 0
  pub word : arr.capacity < 2 ^ 32

-- Rounding up by at most seven, where the result is a 32-bit number.
rounded_lem :
    (n : ℕ)
    → n + 8 ≤ 2 ^ 32
    → (n ≤ rounded n) × (rounded n < n + 8) × (rounded n % 8 ≡ 0) × (rounded n < 2 ^ 32)
rounded_lem n h = omega (arith, align_sz_lem 3 n (omega arith) (omega arith))

zero_rounded : rounded 0 ≡ 0
unfolding align_sz
zero_rounded = refl

-- `ms_autoarray_construct` makes a valid empty array with room for the items asked for.
pub construct_empty :
    (a : Allocator) (d : AutoArrayDescription)
    → d.initial_capacity + 8 ≤ 2 ^ 32
    → let (result, arr) = construct a d in
      IsValid arr × (arr.count ≡ 0) × (d.initial_capacity ≤ arr.capacity)
unfolding construct
construct_empty a d h = omega (arith, rounded_lem d.initial_capacity h)

module _ (a : Allocator) {arr : AutoArray} (v : IsValid arr) (n : ℕ) (small : n + 8 ≤ 2 ^ 32) where
  -- `ms_autoarray_reserve` keeps the array valid, leaves its count, and makes room for the items asked
  -- for. It succeeds exactly where it need not grow or the allocator gives a block.
  pub reserve_lem :
      let (result, after) = reserve a arr n in
      IsValid after
      × (after.count ≡ arr.count)
      × (n ≤ after.capacity)
      × (arr.capacity ≤ after.capacity)
      × (result ≡ (
          if ltb arr.capacity (rounded n)
          then (if after.base == null then memory else success)
          else success))
  unfolding reserve
  reserve_lem = ground (arith, rounded_lem n small)

  -- `ms_autoarray_resize` sets the count where there is room for it, and else only reports the failure.
  pub resize_lem :
      let (result, after) = resize a arr n in
      IsValid after
      × ((result ≡ success) → after.count ≡ n)
      × ((result ≡ memory) → after.count ≡ arr.count)
  unfolding resize reserve
  resize_lem = ground (arith, rounded_lem n small)

-- Where an item stands in a block of `capacity` items.
place :
    (base size count capacity : ℕ)
    → count < capacity
    → size * capacity < 2 ^ 32
    → base + size * capacity < 2 ^ 64
    → (u64 (base + u32 (size * count)) ≡ base + size * count)
      × (base + size * count + size ≤ base + size * capacity)
place base size count capacity less words ends =
    let inside : size * count + size ≤ size * capacity = grind (arith, less) in
    omega (arith, inside, words, ends)

module _ (a : Allocator) (arr : AutoArray) where
  -- The array with one item more: as it was where it has room, else in a block of twice the capacity, which the
  -- allocator gives.
  abbrev pub with_one_more : AutoArray
  with_one_more =
      if arr.count == arr.capacity
      then record arr {
        base = a.reallocate arr.base (arr.item_size * (arr.capacity * 2));
        capacity = arr.capacity * 2;
        count = arr.count + 1;
      }
      else record arr { count = arr.count + 1 }

  grown_lem :
      IsValid arr
      → 0 < arr.capacity
      → arr.capacity * 2 + 8 ≤ 2 ^ 32
      → arr.item_size * (arr.capacity * 2) < 2 ^ 32
      → (reserve a arr (u32 (arr.capacity * 2))).1 ≡ record arr {
        base = a.reallocate arr.base (arr.item_size * (arr.capacity * 2));
        capacity = arr.capacity * 2;
      }
  unfolding reserve
  grown_lem v room small size =
      let doubled : rounded (u32 (arr.capacity * 2)) ≡ arr.capacity * 2 =
        omega (arith, rounded_lem (u32 (arr.capacity * 2)) (omega arith), v.blocks) in
      let bigger : ltb arr.capacity (arr.capacity * 2) ≡ true = ground (arith, room) in
      let bytes : u32 (arr.item_size * (arr.capacity * 2)) ≡ arr.item_size * (arr.capacity * 2) =
        omega (arith, size) in
      rw (doubled, bigger)
        (ap (λ n. record arr { base = a.reallocate arr.base n; capacity = arr.capacity * 2 })
          (ap (λ n. u32 (arr.item_size * n)) doubled ∙ bytes))

  append_run :
      IsValid arr
      → 0 < arr.capacity
      → arr.capacity * 2 + 8 ≤ 2 ^ 32
      → arr.item_size * (arr.capacity * 2) < 2 ^ 32
      → append a arr ≡ (get with_one_more arr.count, with_one_more)
  unfolding append
  append_run v room small size =
      let one_more : u32 (arr.count + 1) ≡ arr.count + 1 = omega (arith, v.within, small) in
      let back : sub32 (arr.count + 1) 1 ≡ arr.count = omega (arith, v.within, small) in
      elim (Bool-cases (arr.count == arr.capacity)) [
        | inl full ↦ rw (full, grown_lem v room small size, one_more, back) refl
        | inr roomy ↦ rw (roomy, one_more, back) refl
      ]

  -- `ms_autoarray_append` to an array with some capacity, where twice the capacity fits the program's 32-bit
  -- products, and the blocks that the array has and that the allocator gives for twice the capacity are no NULL and
  -- end within the address space. It adds one item: the pointer returned is that of the item behind the others, in
  -- the block of the array, which ends behind the item; the block is the same where there was room, else the new one.
  pub append_lem :
      IsValid arr
      → 0 < arr.capacity
      → arr.capacity * 2 + 8 ≤ 2 ^ 32
      → arr.item_size * (arr.capacity * 2) < 2 ^ 32
      → arr.base ≢ null
      → arr.base + arr.item_size * arr.capacity < 2 ^ 64
      → a.reallocate arr.base (arr.item_size * (arr.capacity * 2)) ≢ null
      → a.reallocate arr.base (arr.item_size * (arr.capacity * 2))
          + arr.item_size * (arr.capacity * 2)
        < 2 ^ 64
      → let (pointer, after) = append a arr in
        IsValid after
        × (after ≡ with_one_more)
        × (after.base ≢ null)
        × (pointer ≡ after.base + arr.item_size * arr.count)
        × (pointer + arr.item_size ≤ after.base + after.item_size * after.capacity)
  unfolding get
  append_lem v room small size block ends new_block new_ends =
      rw (append_run v room small size) (elim (Bool-cases (arr.count == arr.capacity)) [
        | inl full ↦ rw full (
            let at =
              place (a.reallocate arr.base (arr.item_size * (arr.capacity * 2))) arr.item_size
                arr.count (arr.capacity * 2) (ground (arith, full)) size new_ends in
            (
              record {
                within = ground (arith, full);
                blocks = omega (arith, v.blocks);
                word = omega (arith, small);
              },
              refl,
              new_block,
              at.0,
              rw (at.0) (at.1),
            ))
        | inr roomy ↦ rw roomy (
            let at =
              place arr.base arr.item_size arr.count arr.capacity (ground (arith, v.within, roomy))
                (grind (arith, size)) ends in
            (
              record { within = ground (arith, v.within, roomy); blocks = v.blocks; word = v.word },
              refl,
              block,
              at.0,
              rw (at.0) (at.1),
            ))
      ])

  -- An array constructed without capacity never grows: doubling 0 asks for nothing, and the item
  -- appended lies outside the array.
  pub append_without_capacity :
      arr.count ≡ 0
      → arr.capacity ≡ 0
      → let (pointer, after) = append a arr in
        (after.count ≡ 1) × (after.capacity ≡ 0) × (pointer ≡ get arr 0)
  unfolding append reserve
  append_without_capacity none_yet no_room = ground (arith, none_yet, no_room, zero_rounded)
