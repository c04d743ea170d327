-- ===== src/SparseArray/Stable.antt =====
-- Lookups and the iteration of src/containers/sparse-paged-array.c, on an array that stays or has gaps.
use native.Mathlib.Nat.{mul-zero}
use moonsugar.Prelude.{
  ℕ, zero, suc, ◌+◌, ◌*◌, ◌/◌, ◌%◌, ◌≤◌, ◌<◌, ◌≡◌, refl, ap, ap₂, ◌∙◌, sym, arith, false, Option,
  some, List, [], ◌∷◌, ◌++◌, length, get_elem?, get_or, get_elem?-eq-get_or, u32, u64, leb, ◌==◌,
}
use moonsugar.Api.{Allocator, null}
use moonsugar.SparseArray.{SparseArray, get_ptr, get_ptr_unsafe, foreach, pages_from, items_from}
use moonsugar.SparseArray.Laws.{Got}
use moonsugar.SparseArray.Pages.{IsValid, page_at}

module _ {array : SparseArray} {index : ℕ} {out : Option (Option ℕ × SparseArray × List ℕ)}
    (got : Got array index out) where
  pointer : ℕ
  pointer = u64 (got.items + u32 (index % array.items_per_page * array.item_size))

  -- An index that was looked up once keeps its pointer: a second lookup, with whatever allocator,
  -- returns it again, changes nothing and initialises nothing; so does the lookup without checks.
  pub get_ptr_again :
      (a : Allocator) (fresh : List ℕ)
      → (p : ℕ) × (out ≡ some (some p, got.after, got.initialised))
        × (get_ptr a fresh got.after index ≡ some (some p, got.after, []))
        × (get_ptr_unsafe got.after index ≡ some p)
  unfolding get_ptr get_ptr_unsafe pointer
  get_ptr_again a fresh = (
    pointer,
    got.run,
    rw (inside, read, there) (ap (λ p. some (some p, got.after, [])) same_pointer),
    rw (read, there) (ap some same_pointer),
  )
    where
      same_page : index / array.items_per_page ≡ index / got.after.items_per_page
      same_page = ap (λ n. index / n) (sym got.per_page)

      inside : leb got.after.page_count (index / got.after.items_per_page) ≡ false
      inside = ground (arith, got.reached, same_page)

      read : get_elem? got.after.pages (index / got.after.items_per_page) ≡ some got.items
      read =
          ap (get_elem? got.after.pages) (sym same_page)
          ∙ get_elem?-eq-get_or got.after.pages (index / array.items_per_page) 0
              (omega (arith, got.reached, got.valid.sized))
          ∙ ap some got.there

      there : (got.items == null) ≡ false
      there = ground (arith, got.allocated)

      same_pointer :
          u64 (got.items + u32 (index % got.after.items_per_page * got.after.item_size)) ≡ pointer
      same_pointer = ap₂ (λ n size. u64 (got.items + u32 (index % n * size))) got.per_page got.size

pages_from_total :
    (rounds i : ℕ) (array : SparseArray)
    → i + rounds ≤ length array.pages
    → (ps : List ℕ) × (pages_from rounds i array ≡ some ps)
unfolding pages_from
pages_from_total zero i array h = ([], refl)
pages_from_total (suc rounds) i array h =
    let (rest, e) = pages_from_total rounds (i + 1) array (omega arith) in
    (
      items_from array.items_per_page 0 (get_or array.pages i 0) array.item_size ++ rest,
      rw (get_elem?-eq-get_or array.pages i 0 (omega arith), e) refl,
    )

items_from-null : (n size : ℕ) → 0 < n → (rest : List ℕ) × (items_from n 0 null size ≡ null ∷ rest)
unfolding items_from
items_from-null zero size h = elim h [ ]
items_from-null (suc n) size h = (
  items_from n (0 + 1) null size,
  ap (λ p. p ∷ items_from n (0 + 1) null size) (ap (λ t. u64 (0 + u32 t)) (mul-zero size)),
)

-- The pages from a missing one on.
pages_from-null :
    (rounds : ℕ) (array : SparseArray)
    → 0 < rounds
    → rounds ≤ length array.pages
    → 0 < array.items_per_page
    → page_at array 0 ≡ null
    → (rest : List ℕ) × (pages_from rounds 0 array ≡ some (null ∷ rest))
unfolding pages_from
pages_from-null zero array h inside paged missing = elim h [ ]
pages_from-null (suc n) array h inside paged missing =
    let (others, e) = pages_from_total n (0 + 1) array (omega arith) in
    let (rest, f) = items_from-null array.items_per_page array.item_size paged in
    (rest ++ others, rw (get_elem?-eq-get_or array.pages 0 0 (omega arith), e, missing, f) refl)

-- `ms_sparray_foreach` does not skip pages that are not allocated: where the first page is missing, the
-- first pointer that the callback is given is NULL.
pub foreach-null :
    {array : SparseArray}
    → IsValid array
    → 0 < array.page_count
    → page_at array 0 ≡ null
    → (rest : List ℕ) × (foreach array ≡ some (null ∷ rest))
unfolding foreach
foreach-null {array} v some_page missing =
    pages_from-null array.page_count array some_page (omega (arith, v.sized)) v.paged missing
