-- ===== src/PagedArray/Append.antt =====
-- `ms_parray_append`: the item behind the others, on the last page or on a new one.
use native.Mathlib.Nat.{eq_of_mul-eq-mul_right}
use moonsugar.Prelude.{
  ℕ, suc, ◌+◌, ◌*◌, ◌/◌, ◌%◌, ◌^◌, ◌<◌, ◌≡◌, ◌≢◌, refl, ap, ap₂, ◌∙◌, sym, arith, Bool, true, false,
  some, [], ◌∷◌, ◌++◌, length, length-append, get_elem?, u32, ltb, ◌==◌, ◌>>=◌, inl, inr,
}
use moonsugar.Api.{success}
use moonsugar.PagedArray.{Page, PagedArray, put, append_last, read, get_value}
use moonsugar.PagedArray.Places.{quotient, where_item, offset_lem, pointer}
use moonsugar.PagedArray.Pages.{append_last-snoc, get_elem?-snoc, get_elem?-front}
use moonsugar.PagedArray.Laws.{Filled, IsValid, room_lem, get_value_inside}

module _ {ℓ} {A : Type ℓ} (this : PagedArray A) (total : ℕ) (v : IsValid this total) where
  -- What an append leaves: one item more, the value behind the others, and the others as they were.
  pub record Appended (value : A) (after : PagedArray A) : Type ℓ where
    pub valid : IsValid after (suc total)
    pub stored :
        (check_bounds : Bool) → get_value check_bounds after total ≡ some (success, some value)
    pub kept :
        (check_bounds : Bool) (i : ℕ)
        → i < total
        → get_value check_bounds after i ≡ get_value check_bounds this i

  module _ (filled : Filled this.page_capacity this.pages total)
      (less : filled.last.count < this.page_capacity) (value : A) where
    abbrev longer : Page A
    longer =
        put (record filled.last { count = u32 (filled.last.count + 1) })
          (u32 (this.item_size * filled.last.count)) value

    abbrev pub after_store : PagedArray A
    after_store = record this { pages = filled.front ++ (longer ∷ []) }

    pub append_last_lem :
        append_last this.page_capacity this.item_size this.pages value ≡ some after_store.pages
    append_last_lem =
        ap (λ p. append_last this.page_capacity this.item_size p value) filled.at
        ∙ append_last-snoc this.page_capacity this.item_size filled.front filled.last value
        ∙ rw (test) refl
      where
        test : ltb filled.last.count this.page_capacity ≡ true
        test = ground (arith, less)

    after_store-IsValid : IsValid after_store (suc total)
    after_store-IsValid = record {
      capacity = v.capacity;
      item = v.item;
      page_size = v.page_size;
      count =
          v.count
          ∙ ap length filled.at
          ∙ length-append filled.front (filled.last ∷ [])
          ∙ sym (length-append filled.front (longer ∷ []));
      room = v.room;
      shape = inr (record {
        front = filled.front;
        last = longer;
        at = refl;
        full = filled.full;
        fits = omega (arith, less, room);
        sum = omega (arith, less, room, filled.sum);
      });
    }
      where
        room : this.page_capacity * length filled.front + this.page_capacity < 2 ^ 32
        room = (room_lem this total v filled).0

    here : (u32 (this.item_size * filled.last.count)) ≡ filled.last.count * this.item_size
    here =
        (offset_lem this.page_capacity this.item_size filled.last.count v.page_size less v.item).1

    stored_lem :
        read after_store.pages (pointer this.page_capacity this.item_size total) ≡ some value
    stored_lem =
        ap₂ (λ page r. read after_store.pages (record { page = page; offset = r * this.item_size }))
          (ap (λ t. t / this.page_capacity) filled.sum ∙ place.0)
          (ap (λ t. t % this.page_capacity) filled.sum ∙ place.1)
        ∙ ap (λ t. t >>= λ page. some (page.items (filled.last.count * this.item_size)))
            (get_elem?-snoc filled.front longer)
        ∙ rw (same) refl
      where
        place :
            ((this.page_capacity * length filled.front + filled.last.count) / this.page_capacity
              ≡ length filled.front)
            × ((this.page_capacity * length filled.front + filled.last.count) % this.page_capacity
                ≡ filled.last.count)
        place = quotient this.page_capacity (length filled.front) filled.last.count less

        same :
            (filled.last.count * this.item_size == u32 (this.item_size * filled.last.count)) ≡ true
        same = ground (arith, here)

    module _ (i : ℕ) where
      kept_before :
          i / this.page_capacity < length filled.front
          → get_elem? after_store.pages (i / this.page_capacity)
            ≡ get_elem? this.pages (i / this.page_capacity)
      kept_before h =
          get_elem?-front filled.front (longer ∷ []) (i / this.page_capacity) h
          ∙ sym (get_elem?-front filled.front (filled.last ∷ []) (i / this.page_capacity) h)
          ∙ ap (λ pages. get_elem? pages (i / this.page_capacity)) (sym filled.at)

      kept_here :
          i % this.page_capacity < filled.last.count
          → longer.items (i % this.page_capacity * this.item_size)
            ≡ filled.last.items (i % this.page_capacity * this.item_size)
      kept_here h = rw (differs) refl
        where
          differs :
              (i % this.page_capacity * this.item_size == u32 (this.item_size * filled.last.count))
              ≡ false
          differs = ground (arith, here, apart)
            where
              apart : i % this.page_capacity * this.item_size ≢ filled.last.count * this.item_size
              apart e = absurd (
                  omega (
                    arith,
                    h,
                    eq_of_mul-eq-mul_right this.item_size v.item (i % this.page_capacity)
                        filled.last.count e,
                  ))

      kept_lem :
          i < total
          → read after_store.pages (pointer this.page_capacity this.item_size i)
            ≡ read this.pages (pointer this.page_capacity this.item_size i)
      kept_lem h =
          elim (where_item this.page_capacity (length filled.front) filled.last.count i v.capacity
            filled.fits (omega (arith, h, filled.sum))) [
              | inl before ↦
                  ap
                    (λ t. t >>= λ page. some (page.items (i % this.page_capacity * this.item_size)))
                    (kept_before before)
              | inr on_last ↦
                  ap
                    (λ t. t >>= λ page. some (page.items (i % this.page_capacity * this.item_size)))
                    (ap (get_elem? after_store.pages) (on_last.0)
                      ∙ get_elem?-snoc filled.front longer)
                  ∙ ap some (kept_here on_last.1)
                  ∙ sym (
                      ap
                        (λ t.
                          t >>= λ page. some (page.items (i % this.page_capacity * this.item_size)))
                        (ap₂ get_elem? filled.at on_last.0
                          ∙ get_elem?-snoc filled.front filled.last))
            ]

    pub after_store-Appended : Appended value after_store
    after_store-Appended = record {
      valid = after_store-IsValid;
      stored = λ b.
          get_value_inside after_store (suc total) after_store-IsValid b total (omega arith)
          ∙ ap (λ t. t >>= λ x. some (success, some x)) stored_lem;
      kept = λ b i h.
          get_value_inside after_store (suc total) after_store-IsValid b i (omega (arith, h))
          ∙ ap (λ t. t >>= λ x. some (success, some x)) (kept_lem i h)
          ∙ sym (get_value_inside this total v b i h);
    }
