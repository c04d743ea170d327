-- ===== src/PagedArray.antt =====
-- src/containers/paged-array.c: an array in pages of equal capacity, which never move. The pages from `first`
-- to `last` are a list. The data of a page is a function from the offsets in it to the items that stand there;
-- an item is copied whole. `check_bounds` says whether the program is built with MS_FEAT_CHECK_BOUNDS. `none`
-- is an access behind the last page.
pub mod Places
pub mod Pages
pub mod Laws
pub mod Append
pub mod Grow
pub mod Contents
pub mod Bounds
mod Tests
use moonsugar.Prelude.{
  ℕ, zero, suc, ◌+◌, ◌*◌, ◌/◌, ◌%◌, Bool, true, false, ◌&&◌, Option, none, some, List, [], ◌∷◌,
  ◌++◌, length, get_elem?, u32, sub32, ltb, leb, ◌==◌, if◌then◌else◌, ◌>>=◌,
}
use moonsugar.Api.{MsResult, success, memory, invalid_argument}

-- `ms_parray_page`.
pub record Page {ℓ} (A : Type ℓ) : Type ℓ where
  pub count : ℕ
  pub items : ℕ → A

-- `ms_parray`, less its allocator.
pub record PagedArray {ℓ} (A : Type ℓ) : Type ℓ where
  pub page_count : ℕ
  pub page_capacity : ℕ
  pub item_size : ℕ
  pub pages : List (Page A)

-- `ms_parray_description`, less its allocator.
pub record PagedArrayDescription : Type 0 where
  pub page_capacity : ℕ
  pub item_size : ℕ

-- A pointer to an item: the number of the page, and the offset in its data.
pub record ItemPointer : Type 0 where
  pub page : ℕ
  pub offset : ℕ

module _ {ℓ} {A : Type ℓ} where
  -- `ms_parray_construct`; `description` is none where the pointer is NULL.
  pub construct : PagedArray A → Option PagedArrayDescription → MsResult × PagedArray A
  construct this none = (invalid_argument, this)
  construct this (some description) =
      if ltb 0 description.page_capacity && ltb 0 description.item_size
      then (
        success,
        record {
          page_count = 0;
          page_capacity = description.page_capacity;
          item_size = description.item_size;
          pages = [];
        },
      )
      else (invalid_argument, this)

  -- `ms_parray_destroy`; the second part is the pages that are freed.
  pub destroy : PagedArray A → PagedArray A × List (Page A)
  destroy this = (record this { pages = []; page_count = 0 }, this.pages)

  -- `memcpy` to an item of a page.
  abbrev pub put : Page A → ℕ → A → Page A
  put page offset value = record page {
    items = λ at. if at == offset then value else page.items at;
  }

  -- What `ms_parray_append` does with a last page; none where there is no room in it, or no page.
  pub append_last : ℕ → ℕ → List (Page A) → A → Option (List (Page A))
  append_last capacity item_size [] value = none
  append_last capacity item_size (page ∷ []) value =
      if ltb page.count capacity
      then some (
          put (record page { count = u32 (page.count + 1) }) (u32 (item_size * page.count)) value
          ∷ [])
      else none
  append_last capacity item_size (page ∷ next ∷ pages) value =
      append_last capacity item_size (next ∷ pages) value >>= λ rest. some (page ∷ rest)

  -- `ms_parray_append_page`. The allocator answers with the contents of a block, or NULL.
  pub append_page : PagedArray A → Option (ℕ → A) → MsResult × PagedArray A
  append_page this none = (memory, this)
  append_page this (some block) = (
    success,
    record this {
      pages = this.pages ++ (record { count = 0; items = block } ∷ []);
      page_count = u32 (this.page_count + 1);
    },
  )

  -- The item is stored, or the program goes on as `grown` says.
  abbrev stored :
      PagedArray A
      → Option (List (Page A))
      → Option (MsResult × PagedArray A)
      → Option (MsResult × PagedArray A)
  stored this (some pages) grown = some (success, record this { pages = pages })
  stored this none grown = grown

  -- `ms_parray_append`, which calls itself after each page it appends; the list holds what the allocator
  -- answers to each of them in turn, and `none` is also where it ends.
  pub append : List (Option (ℕ → A)) → PagedArray A → A → Option (MsResult × PagedArray A)
  unfolding append_last append_page
  append [] this value =
      stored this (append_last this.page_capacity this.item_size this.pages value) none
  append (none ∷ answers) this value =
      stored this (append_last this.page_capacity this.item_size this.pages value)
        (some (append_page this none))
  append (some block ∷ answers) this value =
      stored this (append_last this.page_capacity this.item_size this.pages value)
        (append answers (append_page this (some block)).1 value)

  -- `this->last->count`, where there is a last page.
  pub last_count : List (Page A) → ℕ
  last_count [] = 0
  last_count (page ∷ []) = page.count
  last_count (page ∷ next ∷ pages) = last_count (next ∷ pages)

  abbrev pub total_item_count : PagedArray A → ℕ
  total_item_count this =
      u32 (u32 (sub32 this.page_count 1 * this.page_capacity) + last_count this.pages)

  -- The boundary check of `ms_parray_get_ptr`: whether it returns NULL.
  abbrev pub outside : List (Page A) → Bool → Bool
  outside [] beyond = true
  outside (page ∷ pages) beyond = beyond

  -- `ms_parray_get_ptr`; `some none` is NULL.
  pub get_ptr : Bool → PagedArray A → ℕ → Option (Option ItemPointer)
  unfolding last_count
  get_ptr check_bounds this item_index =
      let page_index = item_index / this.page_capacity in
      let item_offset = u32 (item_index % this.page_capacity * this.item_size) in
      if check_bounds && outside this.pages (leb (total_item_count this) item_index)
      then some none
      else if ltb page_index (length this.pages)
      then some (some (record { page = page_index; offset = item_offset }))
      else none

  -- `memcpy` from an item.
  abbrev pub read : List (Page A) → ItemPointer → Option A
  read pages ptr = get_elem? pages ptr.page >>= λ page. some (page.items ptr.offset)

  -- `ms_parray_get_value`; the value is none where `out_ptr` is left as it is.
  pub get_value : Bool → PagedArray A → ℕ → Option (MsResult × Option A)
  unfolding get_ptr
  get_value check_bounds this item_index = get_ptr check_bounds this item_index >>= λ ptr.
      elim ptr [
        | none ↦ some (invalid_argument, none)
        | some ptr ↦ (read this.pages ptr >>= λ value. some (success, some value))
      ]

  -- `memcpy` to the item behind a pointer.
  pub write_at : List (Page A) → ℕ → ℕ → A → List (Page A)
  write_at [] index offset value = []
  write_at (page ∷ pages) zero offset value = put page offset value ∷ pages
  write_at (page ∷ pages) (suc index) offset value = page ∷ write_at pages index offset value

  -- `ms_parray_set`.
  pub set : Bool → PagedArray A → ℕ → A → Option (MsResult × PagedArray A)
  unfolding get_ptr write_at
  set check_bounds this item_index value = get_ptr check_bounds this item_index >>= λ ptr.
      elim ptr [
        | none ↦ some (invalid_argument, this)
        | some ptr ↦
            some (success, record this { pages = write_at this.pages ptr.page ptr.offset value })
      ]
