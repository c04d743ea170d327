-- ===== src/SparseArray/Tests.antt =====
-- An array of two pages of four items, the first not allocated.
use moonsugar.Prelude.{◌≡◌, ◌⊎◌, refl, arith, true, some, none, [], ◌∷◌}
use moonsugar.Api.{Allocator}
use moonsugar.SparseArray.{SparseArray, get_ptr}
use moonsugar.SparseArray.Laws.{Got, get_ptr_cases}
use moonsugar.SparseArray.Pages.{IsValid}

abbrev at_1000 : Allocator
at_1000 = record { allocate = λ _ _. 1000; reallocate = λ _ _. 2000 }

abbrev two_pages : SparseArray
two_pages = record {
  pages_pointer = 3000;
  pages = 0 ∷ 5000 ∷ [];
  has_initializer = true;
  page_count = 2;
  items_per_page = 4;
  item_size = 8;
}

abbrev allocated : SparseArray
allocated = record two_pages { pages = 1000 ∷ 5000 ∷ [] }

two_pages-IsValid : IsValid two_pages
two_pages-IsValid = record { sized = refl; paged = omega arith }

get_ptr_cases_example :
    ((after : SparseArray) × (get_ptr at_1000 [] two_pages 2 ≡ some (none, after, [])))
    ⊎ Got two_pages 2 (get_ptr at_1000 [] two_pages 2)
get_ptr_cases_example = get_ptr_cases at_1000 [] two_pages-IsValid 2 (omega arith) (omega arith)

allocated-Got : Got allocated 2 (get_ptr at_1000 [] allocated 2)
unfolding get_ptr
allocated-Got = record {
  items = 1000;
  after = allocated;
  initialised = [];
  run = refl;
  valid = record { sized = refl; paged = omega arith };
  per_page = refl;
  size = refl;
  reached = omega arith;
  allocated = λ e. omega (arith, e);
  there = refl;
  others = λ k h. refl;
  once = λ h. (refl, refl);
  first = λ e. absurd (omega (arith, e));
}
