-- ===== src/AutoArray.antt =====
-- src/containers/auto-array.c: an array that grows by whole blocks of eight items. `*arr` is passed and
-- returned.
pub mod Growth
mod Tests
use moonsugar.Prelude.{
  ℕ, ◌+◌, ◌*◌, Bool, true, false, not, ◌&&◌, u32, u64, sub32, ltb, ◌==◌, if◌then◌else◌,
}
use moonsugar.Api.{MsResult, success, memory, Allocator, default_alignment, null}
use moonsugar.Util.{align_sz}

-- `ms_autoarray`, less its allocator.
pub record AutoArray : Type 0 where
  pub base : ℕ
  pub item_size : ℕ
  pub capacity : ℕ
  pub count : ℕ

-- `ms_autoarray_description`, less its allocator.
pub record AutoArrayDescription : Type 0 where
  pub item_size : ℕ
  pub initial_capacity : ℕ

-- A number of items, rounded up to eights and kept as a `uint32_t`.
abbrev pub rounded : ℕ → ℕ
rounded count = u32 (align_sz count 8)

pub construct : Allocator → AutoArrayDescription → MsResult × AutoArray
construct a description = (
  success,
  record {
    base = a.allocate (u32 (description.item_size * capacity)) default_alignment;
    item_size = description.item_size;
    capacity = capacity;
    count = 0;
  },
)
  where
    capacity : ℕ
    capacity = rounded description.initial_capacity

-- The second part is the pointer that is freed.
pub destroy : AutoArray → AutoArray × ℕ
destroy arr = (record { base = null; item_size = 0; capacity = 0; count = 0 }, arr.base)

pub reserve : Allocator → AutoArray → ℕ → MsResult × AutoArray
reserve a array new_capacity =
    if ltb array.capacity (rounded new_capacity)
    then (
      (if not (base == null) && ltb 0 (rounded new_capacity) then success else memory),
      record array { base = base; capacity = rounded new_capacity },
    )
    else (success, array)
  where
    base : ℕ
    base = a.reallocate array.base (u32 (array.item_size * rounded new_capacity))

pub resize : Allocator → AutoArray → ℕ → MsResult × AutoArray
resize a array new_count = counted (reserve a array new_count)
  where
    counted : MsResult × AutoArray → MsResult × AutoArray
    counted (success, grown) = (success, record grown { count = new_count })
    counted (failed, grown) = (failed, grown)

pub get : AutoArray → ℕ → ℕ
get arr index = u64 (arr.base + u32 (arr.item_size * index))

-- The result of the growth is not looked at.
pub append : Allocator → AutoArray → ℕ × AutoArray
unfolding get
append a arr =
    let roomy =
      (if arr.count == arr.capacity then (reserve a arr (u32 (arr.capacity * 2))).1 else arr) in
    let longer = record roomy { count = u32 (roomy.count + 1) } in
    (get longer (sub32 longer.count 1), longer)
