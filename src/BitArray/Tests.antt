-- ===== src/BitArray/Tests.antt =====
-- An array of two words, with bits 3 and 69 set.
use moonsugar.Prelude.{
  ◌/◌, ◌%◌, ◌&&◌, ◌||◌, leb, ◌≡◌, refl, arith, true, false, some, none, [], ◌∷◌, ◌==◌,
  if◌then◌else◌, ◌>>=◌,
}
use moonsugar.Api.{Allocator, null}
use moonsugar.BitArray.{BitArray, set, clear, get, resize}
use moonsugar.BitArray.Laws.{IsValid, IsReachable, Wrote, bit_at, get-set, get-clear}
use moonsugar.BitArray.Resize.{resize_shrinks}

abbrev at_1000 : Allocator
at_1000 = record { allocate = λ _ _. 1000; reallocate = λ _ _. 1000 }

abbrev refusing : Allocator
refusing = record { allocate = λ _ _. null; reallocate = λ _ _. null }

abbrev two_words : BitArray
two_words = record { data_pointer = 1000; words = 8 ∷ 32 ∷ []; capacity = 2; resizable = false }

two_words-IsValid : IsValid two_words
two_words-IsValid = record { sized = refl }

IsReachable-3 : IsReachable two_words 3
IsReachable-3 = record { inside = omega arith; low = omega arith }

IsReachable-69 : IsReachable two_words 69
IsReachable-69 = record { inside = omega arith; low = omega arith }

get-set_example :
    Wrote two_words (λ k. if k == 3 then 1 else bit_at two_words k) (set at_1000 [] two_words 3)
    × ((set at_1000 [] two_words 3 >>= λ out. get out.1 69)
        ≡ (if 69 == 3 then some true else get two_words 69))
get-set_example = get-set two_words-IsValid at_1000 [] 3 69 IsReachable-3 IsReachable-69

get-clear_example :
    Wrote two_words
      (λ k. if k / 64 == 3 / 64 && (k == 3 || leb 32 (k % 64)) then 0 else bit_at two_words k)
      (clear at_1000 [] two_words 3)
    × ((clear at_1000 [] two_words 3 >>= λ out. get out.1 69)
        ≡ (if 69 == 3 then some false else get two_words 69))
get-clear_example = get-clear two_words-IsValid at_1000 [] 3 69 IsReachable-3 IsReachable-69

resize_shrinks_example : resize at_1000 [] two_words 64 ≡ none
resize_shrinks_example =
    resize_shrinks two_words-IsValid at_1000 [] 64 (omega arith) (omega arith)
      (λ e. omega (arith, e))
