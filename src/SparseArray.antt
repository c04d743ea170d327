-- ===== src/SparseArray.antt =====
-- src/containers/sparse-paged-array.c: an array of pages that are allocated when first used. `pages` is
-- the list of the `items` pointers behind `array->pages`. The outer `none` is undefined behaviour, an
-- access outside that list; an inner `none` is the pointer NULL that reports a failure.
pub mod Pages
pub mod Laws
pub mod Stable
mod Tests
use moonsugar.Prelude.{
  ℕ, zero, suc, ◌+◌, ◌-◌, ◌*◌, ◌/◌, ◌%◌, Bool, true, false, not, ◌||◌, Option, none, some, List, [],
  ◌∷◌, ◌++◌, length, get_elem?, set as set_elem, take, replicate, u32, u64, ltb, leb, ◌==◌,
  if◌then◌else◌, ◌>>=◌,
}
use moonsugar.Prelude.Loops.{zero_from}
use moonsugar.Api.{MsResult, success, invalid_argument, Allocator, default_alignment, null}

-- `ms_sparray`, less its allocator and its initialiser's code.
pub record SparseArray : Type 0 where
  pub pages_pointer : ℕ
  pub pages : List ℕ
  pub has_initializer : Bool
  pub page_count : ℕ
  pub items_per_page : ℕ
  pub item_size : ℕ

-- `ms_sparray_description`, less its allocator.
pub record SparseArrayDescription : Type 0 where
  pub has_initializer : Bool
  pub item_size : ℕ
  pub items_per_page : ℕ

pub construct : SparseArray → SparseArrayDescription → MsResult × SparseArray
construct array description =
    if description.item_size == 0 || description.items_per_page == 0
    then (invalid_argument, array)
    else (
      success,
      record {
        pages_pointer = null;
        pages = [];
        has_initializer = description.has_initializer;
        page_count = 0;
        items_per_page = description.items_per_page;
        item_size = description.item_size;
      },
    )

-- The pages that the loop of `ms_sparray_destroy` frees, from page `i` on.
freed_from : ℕ → ℕ → List ℕ → Option (List ℕ)
freed_from zero i pages = some []
freed_from (suc rounds) i pages = get_elem? pages i >>= λ items.
    freed_from rounds (i + 1) pages >>= λ rest. some (if items == null then rest else items ∷ rest)

-- The second part lists the freed pointers, in order.
pub destroy : SparseArray → Option (SparseArray × List ℕ)
unfolding freed_from
destroy array = freed_from array.page_count 0 array.pages >>= λ freed. some (
  record array { pages_pointer = null; pages = []; page_count = 0 },
  freed ++ (array.pages_pointer ∷ []),
)

-- What the allocator puts behind the old entries is `fresh`; the loop of `resize_pages` sets it to NULL.
module _ (a : Allocator) (fresh : List ℕ) where
  pub resize_pages : SparseArray → ℕ → Option (Bool × SparseArray)
  unfolding zero_from
  resize_pages array min_page_count =
      let pointer = a.reallocate array.pages_pointer (8 * min_page_count) in
      let pages = take min_page_count (array.pages ++ fresh) in
      if pointer == null
      then some (false, record array { pages_pointer = null; pages = [] })
      else (zero_from (min_page_count - array.page_count) array.page_count pages >>= λ cleared.
          some (
            true,
            record array { pages_pointer = pointer; pages = cleared; page_count = min_page_count },
          ))

  -- The page of an index, once `pages` is long enough: it is allocated where it is NULL. The last
  -- part lists the pages that the initialiser is called on.
  pub page_of : SparseArray → ℕ → Option (Option ℕ × SparseArray × List ℕ)
  page_of array page_index =
      let items = a.allocate (u32 (array.items_per_page * array.item_size)) default_alignment in
      get_elem? array.pages page_index >>= λ old.
      if not (old == null)
      then some (some old, array, [])
      else if items == null
      then some (none, array, [])
      else some (
        some items,
        record array { pages = set_elem array.pages page_index items },
        (if array.has_initializer then items ∷ [] else []),
      )

  pub get_ptr : SparseArray → ℕ → Option (Option ℕ × SparseArray × List ℕ)
  unfolding resize_pages page_of
  get_ptr array index =
      (if leb array.page_count (index / array.items_per_page)
        then resize_pages array (u32 (index / array.items_per_page + 1))
        else some (true, array))
      >>= λ room.
          if not room.0
          then some (none, room.1, [])
          else (page_of room.1 (index / array.items_per_page) >>= λ found. some (
            elim found.0 [
              | none ↦ none
              | some items ↦
                  some (u64 (items + u32 (index % array.items_per_page * array.item_size)))
            ],
            found.1,
            found.2,
          ))

-- The pointer of an index whose page is there; `none` is an access outside `pages`, or the offset of
-- NULL.
pub get_ptr_unsafe : SparseArray → ℕ → Option ℕ
get_ptr_unsafe array index = get_elem? array.pages (index / array.items_per_page) >>= λ items.
    if items == null
    then none
    else some (u64 (items + u32 (index % array.items_per_page * array.item_size)))

-- The pointers that `ms_sparray_foreach` passes on for one page, from item `j` on.
items_from : ℕ → ℕ → ℕ → ℕ → List ℕ
items_from zero j page size = []
items_from (suc rounds) j page size =
    u64 (page + u32 (size * j)) ∷ items_from rounds (j + 1) page size

pages_from : ℕ → ℕ → SparseArray → Option (List ℕ)
unfolding items_from
pages_from zero i array = some []
pages_from (suc rounds) i array = get_elem? array.pages i >>= λ page.
    pages_from rounds (i + 1) array >>= λ rest.
    some (items_from array.items_per_page 0 page array.item_size ++ rest)

-- The callback is given these pointers, in order.
pub foreach : SparseArray → Option (List ℕ)
unfolding pages_from
foreach array = pages_from array.page_count 0 array

-- `memset(page, 0, page_size)`: the bytes cleared.
pub zero_page_initializer : SparseArray → List ℕ
zero_page_initializer array = replicate (u32 (array.items_per_page * array.item_size)) 0
