-- ===== src/PagedArray/Laws.antt =====
-- What the operations of a valid array give.
use native.Mathlib.Nat.{mul-le-mul_right, mul_comm, mul-suc, mod-lt}
use moonsugar.Prelude.{
  ℕ, suc, ◌+◌, ◌*◌, ◌/◌, ◌%◌, ◌^◌, ◌≤◌, ◌<◌, ◌≡◌, refl, ap, ◌∙◌, arith, Bool, true, false, ◌&&◌,
  some, List, [], ◌∷◌, ◌++◌, length, length-append, u32, sub32, ltb, leb, ◌>>=◌, ◌⊎◌, inl, inr,
}
use moonsugar.Api.{success}
use moonsugar.PagedArray.{
  Page, PagedArray, last_count, total_item_count, outside, get_ptr, read, get_value,
}
use moonsugar.PagedArray.Places.{where_item, offset_lem, pointer}
use moonsugar.PagedArray.Pages.{AllFull, last_count-snoc}

and_false : (b : Bool) → (b && false) ≡ false
and_false true = refl
and_false false = refl

module _ {ℓ} {A : Type ℓ} where
  -- Pages with a last one.
  pub record Filled (capacity : ℕ) (pages : List (Page A)) (total : ℕ) : Type ℓ where
    pub front : List (Page A)
    pub last : Page A
    pub at : pages ≡ front ++ (last ∷ [])
    pub full : AllFull capacity front
    pub fits : last.count ≤ capacity
    pub sum : total ≡ capacity * length front + last.count

  -- An array of some items: all pages but the last are full, and the sizes fit their words.
  pub record IsValid (this : PagedArray A) (total : ℕ) : Type ℓ where
    pub capacity : 0 < this.page_capacity
    pub item : 0 < this.item_size
    pub page_size : this.page_capacity * this.item_size < 2 ^ 32
    pub count : this.page_count ≡ length this.pages
    pub room : this.page_capacity * this.page_count < 2 ^ 32
    pub shape : ((this.pages ≡ []) × (total ≡ 0)) ⊎ Filled this.page_capacity this.pages total

  pub outside-snoc :
      (front : List (Page A)) (last : Page A) (beyond : Bool)
      → outside (front ++ (last ∷ [])) beyond ≡ beyond
  outside-snoc [] last beyond = refl
  outside-snoc (page ∷ front) last beyond = refl

  module _ (this : PagedArray A) (total : ℕ) (v : IsValid this total) where
    module _ (filled : Filled this.page_capacity this.pages total) where
      pub page_count_lem : this.page_count ≡ suc (length filled.front)
      page_count_lem =
          v.count
          ∙ ap length filled.at
          ∙ length-append filled.front (filled.last ∷ [])
          ∙ omega arith

      pub room_lem :
          (this.page_capacity * length filled.front + this.page_capacity < 2 ^ 32)
          × (length filled.front ≤ this.page_capacity * length filled.front)
      room_lem = (
        omega (
          arith,
          v.room,
          ap (λ t. this.page_capacity * t) page_count_lem,
          mul-suc this.page_capacity (length filled.front),
        ),
        omega (
          arith,
          mul-le-mul_right {m = 1} {n = this.page_capacity} (length filled.front) v.capacity,
        ),
      )

      -- The boundary check knows how many items there are.
      pub total_item_count_lem : total_item_count this ≡ total
      total_item_count_lem =
          ap (λ t. u32 (u32 (t * this.page_capacity) + last_count this.pages)) pages_before
          ∙ ap (λ t. u32 (u32 t + last_count this.pages))
              (mul_comm (length filled.front) this.page_capacity)
          ∙ ap (λ t. u32 (u32 (this.page_capacity * length filled.front) + t))
              (ap last_count filled.at ∙ last_count-snoc filled.front filled.last)
          ∙ omega (arith, room_lem, filled.sum, filled.fits)
        where
          pages_before : sub32 this.page_count 1 ≡ length filled.front
          pages_before = omega (arith, page_count_lem, room_lem)

      pub page_inside : (i : ℕ) → i < total → i / this.page_capacity < length this.pages
      page_inside i h =
          elim (where_item this.page_capacity (length filled.front) filled.last.count i v.capacity
            filled.fits (omega (arith, h, filled.sum))) [
              | inl less ↦ omega (arith, less, page_count_lem, v.count)
              | inr here ↦ omega (arith, here.0, page_count_lem, v.count)
            ]

      get_ptr_filled :
          (check_bounds : Bool) (i : ℕ)
          → i < total
          → get_ptr check_bounds this i ≡ some (some (pointer this.page_capacity this.item_size i))
      unfolding get_ptr
      get_ptr_filled check_bounds i h =
          rw
            (
              in_bounds,
              page_inside_test,
              (offset_lem this.page_capacity this.item_size (i % this.page_capacity) v.page_size
                  (mod-lt i v.capacity) v.item).0,
            )
            refl
        where
          in_bounds : (check_bounds && outside this.pages (leb (total_item_count this) i)) ≡ false
          in_bounds =
              ap (λ t. check_bounds && t)
                (ap (λ p. outside p (leb (total_item_count this) i)) filled.at
                  ∙ outside-snoc filled.front filled.last (leb (total_item_count this) i)
                  ∙ ground (arith, total_item_count_lem, h))
              ∙ and_false check_bounds

          page_inside_test : ltb (i / this.page_capacity) (length this.pages) ≡ true
          page_inside_test = ground (arith, page_inside i h)

    -- Every item inside has a value, in both builds: what stands at its place.
    pub get_value_inside :
        (check_bounds : Bool) (i : ℕ)
        → i < total
        → get_value check_bounds this i ≡ (
            read this.pages (pointer this.page_capacity this.item_size i) >>= λ value.
            some (success, some value))
    unfolding get_value
    get_value_inside check_bounds i h = elim v.shape [
      | inl none_yet ↦ absurd (omega (arith, none_yet.1, h))
      | inr filled ↦ rw (get_ptr_filled filled check_bounds i h) refl
    ]
