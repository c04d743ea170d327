-- ===== src/PagedArray/Bounds.antt =====
-- The boundary check of a paged array.
use moonsugar.Prelude.{
  ℕ, zero, suc, ◌≤◌, ◌<◌, ◌≡◌, refl, ap, ◌∙◌, sym, arith, true, none, some, List, [], ◌∷◌, length,
  get_elem?, leb, ◌>>=◌, inl, inr,
}
use moonsugar.Api.{success, invalid_argument}
use moonsugar.PagedArray.{PagedArray, total_item_count, outside, get_ptr, read, get_value, set}
use moonsugar.PagedArray.Places.{pointer}
use moonsugar.PagedArray.Contents.{contents, placed, get_elem?-contents, length-contents}
use moonsugar.PagedArray.Laws.{IsValid, total_item_count_lem, outside-snoc, get_value_inside}

module _ {ℓ} {A : Type ℓ} where
  elem_there : (xs : List A) (i : ℕ) → i < length xs → (x : A) × (get_elem? xs i ≡ some x)
  elem_there [] i h = absurd (omega (arith, h))
  elem_there (x ∷ xs) zero h = (x, refl)
  elem_there (x ∷ xs) (suc i) h = elem_there xs i (omega (arith, h))

  module _ (this : PagedArray A) (total : ℕ) (v : IsValid this total) (i : ℕ) where
    beyond : total ≤ i → outside this.pages (leb (total_item_count this) i) ≡ true
    beyond h = elim v.shape [
      | inl empty ↦ ap (λ pages. outside pages (leb (total_item_count this) i)) empty.0
      | inr filled ↦
          ap (λ pages. outside pages (leb (total_item_count this) i)) filled.at
          ∙ outside-snoc filled.front filled.last (leb (total_item_count this) i)
          ∙ ground (arith, total_item_count_lem this total v filled, h)
    ]

    there :
        i < total
        → read this.pages (pointer this.page_capacity this.item_size i)
          ≡ get_elem? (contents this.item_size this.pages) i
    there h = elim v.shape [
      | inl empty ↦ absurd (omega (arith, empty.1, h))
      | inr filled ↦
          ap (λ pages. placed this.item_size this.page_capacity pages i) filled.at
          ∙ sym (
              get_elem?-contents this.item_size this.page_capacity filled.front filled.last i
                v.capacity filled.full filled.fits (omega (arith, filled.sum, h)))
          ∙ ap (λ pages. get_elem? (contents this.item_size pages) i) (sym filled.at)
    ]

    all_items : length (contents this.item_size this.pages) ≡ total
    unfolding contents
    all_items = elim v.shape [
      | inl empty ↦ ap (λ pages. length (contents this.item_size pages)) empty.0 ∙ sym empty.1
      | inr filled ↦
          ap (λ pages. length (contents this.item_size pages)) filled.at
          ∙ length-contents this.item_size this.page_capacity filled.front filled.last filled.full
          ∙ sym filled.sum
    ]

    -- In a build with boundary checks, for a valid array of `total` items, whose contents are a list of as many
    -- values: reading an index below that number succeeds with the value that the list has there, and every other
    -- index is refused, by reading and by writing, without an access behind the pages and without a change.
    pub checked_bounds :
        (value : A)
        → (length (contents this.item_size this.pages) ≡ total)
          × (i < total
              → (found : A) × (get_elem? (contents this.item_size this.pages) i ≡ some found)
                × (get_value true this i ≡ some (success, some found)))
          × (total ≤ i
              → (get_value true this i ≡ some (invalid_argument, none))
                × (set true this i value ≡ some (invalid_argument, this)))
    unfolding get_value set get_ptr
    checked_bounds value = (
      all_items,
      λ h.
          let (found, e) =
            elem_there (contents this.item_size this.pages) i (omega (arith, all_items, h)) in
          (
            found,
            e,
            get_value_inside this total v true i h
                ∙ ap (λ t. t >>= λ x. some (success, some x)) (there h ∙ e),
          ),
      λ h. (rw (beyond h) refl, rw (beyond h) refl),
    )
