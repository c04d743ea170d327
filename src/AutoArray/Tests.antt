-- ===== src/AutoArray/Tests.antt =====
-- An array of eight items with room for no more, and one that was constructed empty.
use moonsugar.Prelude.{◌≢◌, ◌≤◌, ◌*◌, ◌+◌, ◌≡◌, refl, arith}
use moonsugar.Api.{Allocator, null}
use moonsugar.AutoArray.{AutoArray, AutoArrayDescription, append}
use moonsugar.AutoArray.Growth.{IsValid, with_one_more, append_lem}

abbrev at_1000 : Allocator
at_1000 = record { allocate = λ _ _. 1000; reallocate = λ _ _. 1000 }

abbrev eight : AutoArray
eight = record { base = 1000; item_size = 4; capacity = 8; count = 8 }

abbrev without_capacity : AutoArray
without_capacity = record { base = 1000; item_size = 4; capacity = 0; count = 0 }

abbrev ten_items : AutoArrayDescription
ten_items = record { item_size = 4; initial_capacity = 10 }

eight-IsValid : IsValid eight
eight-IsValid = record { within = omega arith; blocks = refl; word = omega arith }

append_lem_example :
    let (pointer, after) = append at_1000 eight in
    IsValid after
    × (after ≡ with_one_more at_1000 eight)
    × (after.base ≢ null)
    × (pointer ≡ after.base + 4 * 8)
    × (pointer + 4 ≤ after.base + after.item_size * after.capacity)
append_lem_example =
    append_lem at_1000 eight eight-IsValid (omega arith) (omega arith) (omega arith) (omega arith)
      (omega arith) (omega arith) (omega arith)
