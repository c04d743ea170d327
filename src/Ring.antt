-- ===== src/Ring.antt =====
-- src/containers/ring.c: the ring buffer. `*this` is passed and returned. An operation that hands out
-- the pointer to an item returns `none` for NULL.
pub mod Index
pub mod Valid
pub mod Fifo
mod Tests
use moonsugar.Prelude.{
  ℕ, ◌+◌, ◌*◌, bit_and, Bool, true, false, not, ◌||◌, Option, none, some, u32, u64, sub32, ltb,
  ◌==◌, if◌then◌else◌,
}
use moonsugar.Api.{MsResult, success, invalid_argument, memory, Allocator, default_alignment, null}
use moonsugar.Util.{is_power2}

-- `ms_ring`, less its allocator.
pub record Ring : Type 0 where
  pub count : ℕ
  pub windex : ℕ
  pub capacity : ℕ
  pub item_size : ℕ
  pub values : ℕ

-- `ms_ring_description`, less its allocator.
pub record RingDescription : Type 0 where
  pub capacity : ℕ
  pub item_size : ℕ

-- The bytes asked of the allocator are a product of two `uint32_t`.
unfoldable pub construct : Allocator → Ring → RingDescription → MsResult × Ring
construct a this description =
    if not (is_power2 description.capacity) || description.capacity == 0
    then (invalid_argument, this)
    else if description.item_size == 0
    then (invalid_argument, this)
    else if values == null
    then (memory, made)
    else (success, made)
  where
    values : ℕ
    values = a.allocate (u32 (description.item_size * description.capacity)) default_alignment

    made : Ring
    made = record {
      count = 0;
      windex = 0;
      capacity = description.capacity;
      item_size = description.item_size;
      values = values;
    }

-- The second part is the pointer that is freed.
unfoldable pub destroy : Ring → Ring × ℕ
destroy this = (record this { values = null }, this.values)

-- `(uint8_t *)this->values + this->item_size * item_index`; the product is a `uint32_t`.
abbrev pub address : Ring → ℕ → ℕ
address this item_index = u64 (this.values + u32 (this.item_size * item_index))

abbrev pub write_slot : Ring → ℕ
write_slot this = bit_and this.windex (sub32 this.capacity 1)

abbrev pub read_slot : Ring → ℕ
read_slot this =
    bit_and (u32 (this.capacity + sub32 this.windex this.count)) (sub32 this.capacity 1)

unfoldable pub enqueue : Ring → Option ℕ × Ring
enqueue this =
    if ltb this.count this.capacity
    then (
      some (address this (write_slot this)),
      record this { windex = u32 (this.windex + 1); count = u32 (this.count + 1) },
    )
    else (none, this)

unfoldable pub dequeue : Ring → Option ℕ × Ring
dequeue this =
    if ltb 0 this.count
    then (some (address this (read_slot this)), record this { count = sub32 this.count 1 })
    else (none, this)
