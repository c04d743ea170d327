-- ===== src/SparseArray/Pages.antt =====
-- The list of pages of src/containers/sparse-paged-array.c: how it grows, and the page of an index.

use moonsugar.Prelude.{
  ℕ, ◌+◌, ◌-◌, ◌*◌, ◌≤◌, ◌<◌, ◌≡◌, ◌≢◌, ◌⊎◌, inl, inr, refl, ◌∙◌, arith, true, false, Option, none,
  some, List, [], ◌∷◌, ◌++◌, length, get_elem?, get_or, set as set_elem, take, length-set,
  length-take, length-append, get_or-set, get_or-take, get_or-append, get_or_beyond,
  get_elem?-eq-get_or, u32, ◌==◌, if◌then◌else◌, dec_lt, ℕ_discrete,
}
use moonsugar.Prelude.Loops.{zero_from_lem}
use moonsugar.Api.{Allocator, null}
use moonsugar.SparseArray.{SparseArray, resize_pages, page_of}

pub record IsValid (array : SparseArray) : Type 0 where
  pub sized : length array.pages ≡ array.page_count
  pub paged : 0 < array.items_per_page

-- The page that holds an index, NULL where none is allocated.
abbrev pub page_at : SparseArray → ℕ → ℕ
page_at array k = get_or array.pages k null

-- Growing the list of pages to `n` entries.
pub record Grown (array : SparseArray) (n : ℕ) (after : SparseArray) : Type 0 where
  pub valid : IsValid after
  pub count : after.page_count ≡ n
  pub per_page : after.items_per_page ≡ array.items_per_page
  pub size : after.item_size ≡ array.item_size
  pub initializer : after.has_initializer ≡ array.has_initializer
  pub kept : (k : ℕ) → page_at after k ≡ page_at array k

module _ (a : Allocator) (fresh : List ℕ) {array : SparseArray} (v : IsValid array) (n : ℕ) where
  pub resize_pages_cases :
      array.page_count ≤ n
      → n ≤ array.page_count + length fresh
      → ((after : SparseArray) × (resize_pages a fresh array n ≡ some (false, after)))
        ⊎ ((after : SparseArray) × (resize_pages a fresh array n ≡ some (true, after))
            × Grown array n after)
  unfolding resize_pages
  resize_pages_cases more given =
      elim (ℕ_discrete (a.reallocate array.pages_pointer (8 * n)) null) [
        | yes failed ↦
            inl (record array { pages_pointer = null; pages = [] }, ground (arith, failed))
        | no block ↦
            let (cleared, run, sized, zeros) =
              zero_from_lem (n - array.page_count) array.page_count (take n (array.pages ++ fresh))
                (omega (arith, long)) in
            inr (
              record array {
                pages_pointer = a.reallocate array.pages_pointer (8 * n);
                pages = cleared;
                page_count = n;
              },
              rw (not_null block, run) refl,
              record {
                valid = record { sized = sized ∙ long; paged = v.paged };
                count = refl;
                per_page = refl;
                size = refl;
                initializer = refl;
                kept = λ k. elim (dec_lt k array.page_count) [
                  | yes below ↦ ground (
                    arith,
                    zeros k,
                    get_or-take n (array.pages ++ fresh) k 0 (omega (arith, below)),
                    get_or-append array.pages fresh k 0,
                    v.sized,
                  )
                  | no above ↦ ground (
                    arith,
                    zeros k,
                    above,
                    get_or_beyond array.pages k 0 (omega (arith, above, v.sized)),
                  )
                ];
              },
            )
      ]
    where
      long : length (take n (array.pages ++ fresh)) ≡ n
      long =
          omega
            (arith, length-take n (array.pages ++ fresh), length-append array.pages fresh, v.sized)

      not_null :
          a.reallocate array.pages_pointer (8 * n) ≢ null
          → (a.reallocate array.pages_pointer (8 * n) == null) ≡ false
      not_null h = ground (arith, h)

-- The page of an index that the list of pages reaches.
pub record Page (array : SparseArray) (k : ℕ) (out : Option (Option ℕ × SparseArray × List ℕ))
    : Type 0 where
  pub items : ℕ
  pub after : SparseArray
  pub initialised : List ℕ
  pub run : out ≡ some (some items, after, initialised)
  pub valid : IsValid after
  pub per_page : after.items_per_page ≡ array.items_per_page
  pub size : after.item_size ≡ array.item_size
  pub count : after.page_count ≡ array.page_count
  pub allocated : items ≢ null
  pub there : page_at after k ≡ items
  pub others : (j : ℕ) → j ≢ k → page_at after j ≡ page_at array j
  pub once : page_at array k ≢ null → (items ≡ page_at array k) × (initialised ≡ [])
  pub first :
      page_at array k ≡ null → initialised ≡ (if array.has_initializer then items ∷ [] else [])

module _ (a : Allocator) (fresh : List ℕ) {array : SparseArray} (v : IsValid array) (k : ℕ)
    (reached : k < array.page_count) where
  read : get_elem? array.pages k ≡ some (page_at array k)
  read = get_elem?-eq-get_or array.pages k 0 (omega (arith, v.sized))

  page_of_old : page_at array k ≢ null → Page array k (page_of a fresh array k)
  unfolding page_of
  page_of_old old = record {
    items = page_at array k;
    after = array;
    initialised = [];
    run = rw read (ground (arith, old));
    valid = v;
    per_page = refl;
    size = refl;
    count = refl;
    allocated = old;
    there = refl;
    others = λ j ne. refl;
    once = λ h. (refl, refl);
    first = λ h. absurd (old h);
  }

  page_of_new :
      page_at array k ≡ null
      → a.allocate (u32 (array.items_per_page * array.item_size)) 8 ≢ null
      → Page array k (page_of a fresh array k)
  unfolding page_of
  page_of_new missing block = record {
    items = items;
    after = record array { pages = set_elem array.pages k items };
    initialised = if array.has_initializer then items ∷ [] else [];
    run = rw read (ground (arith, missing, block));
    valid = record { sized = length-set array.pages k items ∙ v.sized; paged = v.paged };
    per_page = refl;
    size = refl;
    count = refl;
    allocated = block;
    there = ground (arith, get_or-set array.pages k k items 0 (omega (arith, v.sized)));
    others =
        λ j ne. ground (arith, ne, get_or-set array.pages k j items 0 (omega (arith, v.sized)));
    once = λ h. absurd (h missing);
    first = λ h. refl;
  }
    where
      items : ℕ
      items = a.allocate (u32 (array.items_per_page * array.item_size)) 8

  pub page_of-none :
      page_at array k ≡ null
      → a.allocate (u32 (array.items_per_page * array.item_size)) 8 ≡ null
      → page_of a fresh array k ≡ some (none, array, [])
  unfolding page_of
  page_of-none missing failed = rw read (ground (arith, missing, failed))

  pub page_of_cases :
      (page_of a fresh array k ≡ some (none, array, [])) ⊎ Page array k (page_of a fresh array k)
  page_of_cases = elim (ℕ_discrete (page_at array k) null) [
    | yes missing ↦
        elim (ℕ_discrete (a.allocate (u32 (array.items_per_page * array.item_size)) 8) null) [
          | yes failed ↦ inl (page_of-none missing failed)
          | no block ↦ inr (page_of_new missing block)
        ]
    | no old ↦ inr (page_of_old old)
  ]
