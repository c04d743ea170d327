-- ===== src/BitArray.antt =====
-- src/containers/bit-array.c: bits packed into 64-bit words. The words behind `data` are a list, and
-- `none` is undefined behaviour: an access outside the words, or a shift as wide as its operand.
pub mod Laws
pub mod Resize
mod Tests
use moonsugar.Prelude.{
  ℕ, ◌+◌, ◌-◌, ◌*◌, ◌/◌, ◌^◌, zero, suc, bit_and, bit_or, Bool, true, false, ◌&&◌, Option, none,
  some, List, [], ◌∷◌, ◌++◌, length, get_elem?, set as set_elem, take, drop, replicate, u32, sub32,
  ltb, leb, ◌==◌, if◌then◌else◌, ◌>>=◌,
}
use moonsugar.Prelude.Loops.{zero_from}
use moonsugar.Api.{MsResult, success, invalid_argument, memory, Allocator, null}
use moonsugar.Util.{align_sz, test_mask, set_mask, clear_mask}

-- `ms_barray`, less its allocator; `words` is what `data` points to.
pub record BitArray : Type 0 where
  pub data_pointer : ℕ
  pub words : List ℕ
  pub capacity : ℕ
  pub resizable : Bool

-- `ms_barray_description`, less its allocator.
pub record BitArrayDescription : Type 0 where
  pub initial_capacity : ℕ
  pub resizable : Bool

abbrev div64 : ℕ → ℕ
div64 x = x / 2 ^ 6

abbrev mod64 : ℕ → ℕ
mod64 x = bit_and x 0x3f

abbrev mul64 : ℕ → ℕ
mul64 x = u32 (x * 2 ^ 6)

-- `1U << offset`: the operand has 32 bits.
abbrev pub unsigned_one_shifted : ℕ → Option ℕ
unsigned_one_shifted offset = if ltb offset 32 then some (2 ^ offset) else none

-- `~(mask)` of an `unsigned`.
abbrev pub complement32 : ℕ → ℕ
complement32 mask = 2 ^ 32 - 1 - mask

-- `memset(data + from, 0, 8 * count)`.
abbrev pub zero_words : List ℕ → ℕ → ℕ → Option (List ℕ)
zero_words words from count =
    if leb (from + count) (length words)
    then some (take from words ++ (replicate count 0 ++ drop (from + count) words))
    else none

-- What the allocator adds when it makes a block larger is not known: `fresh`.
module _ (a : Allocator) (fresh : List ℕ) where
  -- The delta is a difference of two `uint32_t`, so it is not negative as an `int64_t`.
  pub resize : BitArray → ℕ → Option (MsResult × BitArray)
  resize b new_capacity_bits =
      let new_capacity = div64 new_capacity_bits in
      let capacity_delta = sub32 new_capacity b.capacity in
      let pointer = a.reallocate b.data_pointer (8 * new_capacity) in
      let words = take new_capacity (b.words ++ fresh) in
      if pointer == null && ltb 0 new_capacity
      then some (memory, record b { data_pointer = pointer; words = [] })
      else do
        cleared ←
            (if ltb 0 capacity_delta
              then zero_words words b.capacity capacity_delta
              else some words)
        some
            (success, record b { data_pointer = pointer; words = cleared; capacity = new_capacity })

  -- The bounds check that `ms_barray_set` and `ms_barray_clear` begin with.
  pub make_room : BitArray → ℕ → Option (MsResult × BitArray)
  unfolding resize
  make_room b cluster_index =
      if leb b.capacity cluster_index
      then (if b.resizable
          then resize b (mul64 (cluster_index + 1))
          else some (invalid_argument, b))
      else some (success, b)

  -- Read, change and write `data[cluster_index]`, once there is room.
  change : (ℕ → ℕ → ℕ) → ℕ → ℕ → MsResult × BitArray → Option (MsResult × BitArray)
  change op index offset (success, b) = do
    mask ← unsigned_one_shifted offset
    word ← get_elem? b.words index
    some (success, record b { words = set_elem b.words index (op word mask) })
  change op index offset (failed, b) = some (failed, b)

  pub set : BitArray → ℕ → Option (MsResult × BitArray)
  unfolding make_room change
  set b index = do
    room ← make_room b (div64 index)
    change set_mask (div64 index) (mod64 index) room

  pub clear : BitArray → ℕ → Option (MsResult × BitArray)
  unfolding make_room change
  clear b index = do
    room ← make_room b (div64 index)
    change (λ word mask. clear_mask word (complement32 mask)) (div64 index) (mod64 index) room

  pub construct : BitArrayDescription → Option (MsResult × BitArray)
  unfolding resize
  construct description =
      let initial_capacity = u32 (align_sz description.initial_capacity 64) in
      if ltb 0 initial_capacity then resize empty initial_capacity else some (success, empty)
    where
      empty : BitArray
      empty = record {
        data_pointer = null;
        words = [];
        capacity = 0;
        resizable = description.resizable;
      }

-- The second part is the pointer that is freed.
pub destroy : BitArray → BitArray × ℕ
destroy b = (record b { data_pointer = null; words = [] }, b.data_pointer)

-- The loop writes every word of the capacity.
pub clear_all : BitArray → Option BitArray
unfolding zero_from
clear_all b = do words ← zero_from b.capacity 0 b.words; some (record b { words = words })

pub get : BitArray → ℕ → Option Bool
get b index = do
  word ← get_elem? b.words (div64 index)
  mask ← unsigned_one_shifted (mod64 index)
  some (test_mask word mask)
