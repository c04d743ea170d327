-- ===== src/PagedArray/Tests.antt =====
-- An array of pages of two numbers, of four bytes each, with three items.
use moonsugar.Prelude.{
  length, get_elem?, ℕ, ◌+◌, ◌*◌, ◌<◌, ◌≤◌, ◌≡◌, true, ◌⊎◌, inr, refl, arith, Option, none, some,
  [], ◌∷◌,
}
use moonsugar.Api.{success, memory, invalid_argument}
use moonsugar.PagedArray.{Page, PagedArray, append, get_value, set}
use moonsugar.PagedArray.Laws.{IsValid}
use moonsugar.PagedArray.Append.{Appended}
use moonsugar.PagedArray.Bounds.{checked_bounds}
use moonsugar.PagedArray.Contents.{contents}
use moonsugar.PagedArray.Grow.{append_cases}

abbrev first : Page ℕ
first = record { count = 2; items = λ at. at + 7 }

abbrev second : Page ℕ
second = record { count = 2; items = λ at. at + 9 }

abbrev four : PagedArray ℕ
four = record { page_count = 2; page_capacity = 2; item_size = 4; pages = first ∷ second ∷ [] }

four-IsValid : IsValid four 4
four-IsValid = record {
  capacity = omega arith;
  item = omega arith;
  page_size = omega arith;
  count = refl;
  room = omega arith;
  shape = inr (record {
    front = first ∷ [];
    last = second;
    at = refl;
    full = (refl, tt);
    fits = omega arith;
    sum = refl;
  });
}

append_cases_example :
    ((after : PagedArray ℕ) × (append (some (λ at. 0) ∷ []) four 5 ≡ some (success, after))
      × Appended four 4 four-IsValid 5 after)
    ⊎ ((append (some (λ at. 0) ∷ []) four 5 ≡ some (memory, four))
        × (◌≡◌ {A = Option (ℕ → ℕ)} (some (λ at. 0)) none)
        × (4 ≡ 2 * 2))
append_cases_example = append_cases (some (λ at. 0)) [] four 4 four-IsValid 5 (omega arith)

checked_bounds_example :
    (length (contents 4 (first ∷ second ∷ [])) ≡ 4)
    × (3 < 4
        → (found : ℕ) × (get_elem? (contents 4 (first ∷ second ∷ [])) 3 ≡ some found)
          × (get_value true four 3 ≡ some (success, some found)))
    × (4 ≤ 3
        → (get_value true four 3 ≡ some (invalid_argument, none))
          × (set true four 3 5 ≡ some (invalid_argument, four)))
checked_bounds_example = checked_bounds four 4 four-IsValid 3 5
