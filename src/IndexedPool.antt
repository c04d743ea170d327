-- ===== src/IndexedPool.antt =====
-- src/containers/indexed-pool.c: a pool that hands out indices and keeps one bit for each. The words
-- behind `state` are a list; `none` is undefined behaviour, an access outside the words or a shift as
-- wide as its operand.
pub mod Block
pub mod Acquire
pub mod Release
mod Tests
use moonsugar.Prelude.{
  ℕ, zero, suc, ◌+◌, ◌-◌, ◌*◌, ◌/◌, ◌%◌, ◌^◌, bit_and, bit_or, Bool, true, false, not, ◌&&◌, Option,
  none, some, List, [], ◌∷◌, ◌++◌, length, get_elem?, set as set_elem, take, replicate, u32,
  u32_max, u64_max, sub32, ltb, leb, ◌==◌, if◌then◌else◌, ◌>>=◌,
}
use moonsugar.Api.{MsResult, success, invalid_argument, memory, Allocator, default_alignment, null}
use moonsugar.Util.{test_mask, set_mask, clear_mask, complement64}
use moonsugar.BitArray.{zero_words}

-- `ms_ipool`, less its allocator; `state` is what the pointer designates.
pub record IndexedPool : Type 0 where
  pub state_pointer : ℕ
  pub state : List ℕ
  pub item_count : ℕ
  pub last_state : ℕ

-- `MS_IPOOL_STATE_FULL`.
abbrev pub state_full : ℕ
state_full = u64_max

-- `STATE_BLOCK_COUNT`, in `uint32_t`.
abbrev pub state_block_count : ℕ → ℕ
state_block_count size = u32 (size + bit_and (sub32 0 size) 63) / 2 ^ 6

-- `1ull << offset`.
abbrev pub one_shifted : ℕ → Option ℕ
one_shifted offset = if ltb offset 64 then some (2 ^ offset) else none

-- The description is the capacity; `*this` stays as it was where the construction fails.
pub construct : Allocator → IndexedPool → ℕ → MsResult × IndexedPool
construct a this capacity =
    if not (capacity % 64 == 0)
    then (invalid_argument, this)
    else if state == null && ltb 0 state_size
    then (memory, this)
    else (
      success,
      record {
        state_pointer = state;
        state = replicate (state_size / 8) 0;
        item_count = capacity;
        last_state = 0;
      },
    )
  where
    state_size : ℕ
    state_size = u32 (state_block_count capacity * 8)

    state : ℕ
    state = a.allocate state_size default_alignment

-- The second part is the pointer that is freed.
pub destroy : IndexedPool → IndexedPool × ℕ
destroy this =
    (record this { state_pointer = null; state = []; item_count = 0 }, this.state_pointer)

-- The loop of `find_block_offset` at `i`, with the rounds left.
pub find_from : ℕ → ℕ → ℕ → ℕ
find_from zero i block = u32_max
find_from (suc rounds) i block =
    let rest = find_from rounds (i + 1) block in if not (test_mask block (2 ^ i)) then i else rest

pub find_block_offset : ℕ → ℕ
unfolding find_from
find_block_offset block = find_from 64 0 block

pub try_acquire : IndexedPool → ℕ → Option (ℕ × IndexedPool)
try_acquire this i = get_elem? this.state i >>= λ block.
    if block == state_full
    then some (u32_max, this)
    else (one_shifted (find_block_offset block) >>= λ mask. some (
      u32 (i * 2 ^ 6 + find_block_offset block),
      record this { state = set_elem this.state i (set_mask block mask); last_state = i },
    ))

-- One of the loops of `ms_ipool_acquire`: from block `i` on, with the rounds left.
pub scan : ℕ → ℕ → IndexedPool → Option (ℕ × IndexedPool)
scan zero i this = some (u32_max, this)
scan (suc rounds) i this = try_acquire this i >>= λ out.
    let rest = scan rounds (i + 1) out.1 in if out.0 == u32_max then rest else some out

pub acquire : IndexedPool → Option (ℕ × IndexedPool)
unfolding scan
acquire this = scan (this.item_count / 2 ^ 6 - this.last_state) this.last_state this >>= λ out.
    if out.0 == u32_max then scan this.last_state 0 out.1 else some out

-- `ms_choose` picks the result without a branch.
pub release : IndexedPool → ℕ → Option (MsResult × IndexedPool)
release this item =
    let block = item / 2 ^ 6 in
    do
      mask ← one_shifted (bit_and item 0xffffff)
      prev_state ← get_elem? this.state block
      some (
        (if bit_and prev_state mask == 0 then invalid_argument else success),
        record this {
          state = set_elem this.state block (clear_mask prev_state (complement64 mask));
        },
      )

-- What the allocator adds when it makes the block larger is not known: `fresh`.
pub resize : Allocator → List ℕ → IndexedPool → ℕ → Option (MsResult × IndexedPool)
resize a fresh this new_count =
    if not (new_count % 64 == 0)
    then some (invalid_argument, this)
    else if new_state == null && ltb 0 new_state_count
    then some (memory, this)
    else do
      cleared ←
          (if ltb old_state_count new_state_count
            then zero_words words old_state_count (new_state_count - old_state_count)
            else some words)
      some (
        success,
        record {
          state_pointer = new_state;
          state = cleared;
          item_count = new_count;
          last_state = 0;
        },
      )
  where
    old_state_count : ℕ
    old_state_count = state_block_count this.item_count

    new_state_count : ℕ
    new_state_count = state_block_count new_count

    new_state : ℕ
    new_state = a.reallocate this.state_pointer (new_state_count * 8)

    words : List ℕ
    words = take new_state_count (this.state ++ fresh)
