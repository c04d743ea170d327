-- ===== src/PagedArray/Grow.antt =====
-- `ms_parray_append` as a whole: a page is appended where the last one has no room.
use native.Mathlib.Nat.{mul-suc, mul-le-mul_right, mul-zero}
use moonsugar.Prelude.{
  ℕ, suc, ◌+◌, ◌*◌, ◌/◌, ◌%◌, ◌^◌, ◌<◌, ◌≡◌, refl, ap, subst, ◌∙◌, sym, arith, Bool, false, Option,
  none, some, List, [], ◌∷◌, ◌++◌, length, length-append, u32, ltb, ◌>>=◌, ◌⊎◌, inl, inr, dec_lt,
}
use moonsugar.Api.{success, memory}
use moonsugar.PagedArray.{Page, PagedArray, append_last, append_page, append, get_value}
use moonsugar.PagedArray.Pages.{AllFull, AllFull-snoc, append_last-snoc, get_elem?-front}
use moonsugar.PagedArray.Laws.{Filled, IsValid, page_count_lem, page_inside, get_value_inside}
use moonsugar.PagedArray.Append.{Appended, after_store, after_store-Appended, append_last_lem}

module _ {ℓ} {A : Type ℓ} where
  -- Where there is room, the allocator is not asked.
  append-stored :
      (answers : List (Option (ℕ → A))) (this : PagedArray A) (value : A) (pages : List (Page A))
      → append_last this.page_capacity this.item_size this.pages value ≡ some pages
      → append answers this value ≡ some (success, record this { pages = pages })
  unfolding append
  append-stored [] this value pages e = rw (e) refl
  append-stored (none ∷ answers) this value pages e = rw (e) refl
  append-stored (some block ∷ answers) this value pages e = rw (e) refl

  append-grown :
      (block : ℕ → A) (answers : List (Option (ℕ → A))) (this : PagedArray A) (value : A)
      → append_last this.page_capacity this.item_size this.pages value ≡ none
      → append (some block ∷ answers) this value
        ≡ append answers (append_page this (some block)).1 value
  unfolding append
  append-grown block answers this value e = rw (e) refl

  append-refused :
      (answers : List (Option (ℕ → A))) (this : PagedArray A) (value : A)
      → append_last this.page_capacity this.item_size this.pages value ≡ none
      → append (none ∷ answers) this value ≡ some (memory, this)
  unfolding append append_page
  append-refused answers this value e = rw (e) refl

  -- The array has no room: it has no page, or the last one is full.
  record Full (this : PagedArray A) (total : ℕ) : Type ℓ where
    all : AllFull this.page_capacity this.pages
    sum : total ≡ this.page_capacity * this.page_count
    refused : (value : A) → append_last this.page_capacity this.item_size this.pages value ≡ none

  Full-empty :
      (this : PagedArray A) (total : ℕ)
      → IsValid this total
      → this.pages ≡ []
      → total ≡ 0
      → Full this total
  unfolding append_last
  Full-empty this total v e z = record {
    all = subst (AllFull this.page_capacity) (sym e) tt;
    sum =
        z
        ∙ sym (
            ap (λ t. this.page_capacity * t) (v.count ∙ ap length e) ∙ mul-zero this.page_capacity);
    refused = λ value. ap (λ pages. append_last this.page_capacity this.item_size pages value) e;
  }

  Full-last :
      (this : PagedArray A) (total : ℕ)
      → (v : IsValid this total) → (filled : Filled this.page_capacity this.pages total)
      → filled.last.count ≡ this.page_capacity
      → Full this total
  Full-last this total v filled e = record {
    all =
        subst (AllFull this.page_capacity) (sym filled.at)
          (AllFull-snoc this.page_capacity filled.front filled.last filled.full e);
    sum = omega (
      arith,
      filled.sum,
      e,
      ap (λ t. this.page_capacity * t) (page_count_lem this total v filled),
      mul-suc this.page_capacity (length filled.front),
    );
    refused = λ value.
        ap (λ pages. append_last this.page_capacity this.item_size pages value) filled.at
        ∙ append_last-snoc this.page_capacity this.item_size filled.front filled.last value
        ∙ rw (test) refl;
  }
    where
      test : ltb filled.last.count this.page_capacity ≡ false
      test = ground (arith, e)

  room_or_Full :
      (this : PagedArray A) (total : ℕ)
      → IsValid this total
      → ((filled : Filled this.page_capacity this.pages total) × (filled.last.count
            < this.page_capacity))
        ⊎ Full this total
  room_or_Full this total v = elim v.shape [
    | inl empty ↦ inr (Full-empty this total v empty.0 empty.1)
    | inr filled ↦ elim (dec_lt filled.last.count this.page_capacity) [
      | yes less ↦ inl (filled, less)
      | no more ↦ inr (Full-last this total v filled (omega (arith, more, filled.fits)))
    ]
  ]

  module _ (this : PagedArray A) (total : ℕ) (v : IsValid this total) (full : Full this total)
      (block : ℕ → A) (room : this.page_capacity * suc this.page_count < 2 ^ 32) where
    abbrev grown : PagedArray A
    grown = record this {
      pages = this.pages ++ (record { count = 0; items = block } ∷ []);
      page_count = u32 (this.page_count + 1);
    }

    page_count-grown : grown.page_count ≡ suc this.page_count
    page_count-grown = omega (
      arith,
      room,
      mul-le-mul_right {m = 1} {n = this.page_capacity} (suc this.page_count) v.capacity,
    )

    abbrev grown-Filled : Filled this.page_capacity grown.pages total
    grown-Filled = record {
      front = this.pages;
      last = record { count = 0; items = block };
      at = refl;
      full = full.all;
      fits = omega arith;
      sum = full.sum ∙ ap (λ t. this.page_capacity * t) v.count ∙ omega arith;
    }

    grown-IsValid : IsValid grown total
    grown-IsValid = record {
      capacity = v.capacity;
      item = v.item;
      page_size = v.page_size;
      count =
          page_count-grown
          ∙ ap suc v.count
          ∙ omega (arith, length-append this.pages (record { count = 0; items = block } ∷ []));
      room = omega (arith, room, ap (λ t. this.page_capacity * t) page_count-grown);
      shape = inr grown-Filled;
    }

    kept-grown :
        (check_bounds : Bool) (i : ℕ)
        → i < total
        → get_value check_bounds grown i ≡ get_value check_bounds this i
    kept-grown b i h =
        get_value_inside grown total grown-IsValid b i h
        ∙ ap
            (λ t.
              (t >>= λ page. some (page.items (i % this.page_capacity * this.item_size))) >>= λ x.
              some (success, some x))
            (get_elem?-front this.pages (record { count = 0; items = block } ∷ [])
              (i / this.page_capacity) on_page)
        ∙ sym (get_value_inside this total v b i h)
      where
        on_page : i / this.page_capacity < length this.pages
        on_page = elim v.shape [
          | inl empty ↦ absurd (omega (arith, empty.1, h))
          | inr filled ↦ page_inside this total v filled i h
        ]

    after_grown :
        (answers : List (Option (ℕ → A))) (value : A)
        → (after : PagedArray A) × (append (some block ∷ answers) this value
            ≡ some (success, after))
          × Appended this total v value after
    unfolding append_page
    after_grown answers value = (
      after,
      append-grown block answers this value (full.refused value)
          ∙ append-stored answers grown value after.pages
              (append_last_lem grown total grown-IsValid grown-Filled v.capacity value),
      record {
        valid = appended.valid;
        stored = appended.stored;
        kept = λ b i h. appended.kept b i h ∙ kept-grown b i h;
      },
    )
      where
        after : PagedArray A
        after = after_store grown total grown-IsValid grown-Filled v.capacity value

        appended : Appended grown total grown-IsValid value after
        appended = after_store-Appended grown total grown-IsValid grown-Filled v.capacity value

  after_stored :
      (answer : Option (ℕ → A)) (answers : List (Option (ℕ → A))) (this : PagedArray A) (total : ℕ)
      (v : IsValid this total)
      → (filled : Filled this.page_capacity this.pages total)
      → filled.last.count < this.page_capacity
      → (value : A)
      → (after : PagedArray A) × (append (answer ∷ answers) this value ≡ some (success, after))
        × Appended this total v value after
  after_stored answer answers this total v filled less value = (
    after_store this total v filled less value,
    append-stored (answer ∷ answers) this value (after_store this total v filled less value).pages
        (append_last_lem this total v filled less value),
    after_store-Appended this total v filled less value,
  )

  -- Appending to a valid array of some items, with an allocator's answer for one page, where the sizes fit
  -- their words with one page more. The array then has one item more and is valid; its last item is the value,
  -- and the others are what they were, in builds with and without boundary checks. Only where every page is
  -- full and no page is given, the operation reports that there is no memory and changes nothing.
  pub append_cases :
      (answer : Option (ℕ → A)) (answers : List (Option (ℕ → A))) (this : PagedArray A) (total : ℕ)
      (v : IsValid this total) (value : A)
      → this.page_capacity * suc this.page_count < 2 ^ 32
      → ((after : PagedArray A) × (append (answer ∷ answers) this value ≡ some (success, after))
          × Appended this total v value after)
        ⊎ ((append (answer ∷ answers) this value ≡ some (memory, this))
            × (answer ≡ none)
            × (total ≡ this.page_capacity * this.page_count))
  append_cases none answers this total v value room = elim (room_or_Full this total v) [
    | inl (filled, less) ↦ inl (after_stored none answers this total v filled less value)
    | inr full ↦ inr (append-refused answers this value (full.refused value), refl, full.sum)
  ]
  append_cases (some block) answers this total v value room = elim (room_or_Full this total v) [
    | inl (filled, less) ↦ inl (after_stored (some block) answers this total v filled less value)
    | inr full ↦ inl (after_grown this total v full block room answers value)
  ]
