-- ===== src/Pool/Tests.antt =====
-- A pool with one free node, at 64, to which the item at 108 is given back.
use moonsugar.Prelude.{◌≡◌, refl, arith, [], ◌∷◌}
use moonsugar.Api.{Allocator}
use moonsugar.Pool.{Pool, acquire, release}
use moonsugar.Pool.Chain.{Chain, release-acquire}

abbrev at_1000 : Allocator
at_1000 = record { allocate = λ size alignment. 1000; reallocate = λ base size. 1000 }

abbrev pool : Pool
pool = record {
  next = λ node. 0;
  pages = 64 ∷ [];
  items = 64;
  item_count = 4;
  item_size = 4;
  items_per_page = 4;
}

release-acquire_example :
    ((acquire at_1000 (release pool 108)).0 ≡ 108)
    × Chain
        (acquire at_1000 (release pool 108)).1.next
        (acquire at_1000 (release pool 108)).1.items
        (64 ∷ [])
    × ((acquire at_1000 (release pool 108)).1.pages ≡ 64 ∷ [])
release-acquire_example =
    release-acquire at_1000 pool (64 ∷ []) 108 (refl, omega arith, refl) (omega arith)
      (omega arith, tt)
