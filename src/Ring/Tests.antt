-- ===== src/Ring/Tests.antt =====
-- A ring of four items whose 32-bit write index is about to wrap.
use moonsugar.Prelude.{ℕ, ◌-◌, ◌^◌, ◌≡◌, refl, arith, some, [], ◌∷◌, ◌++◌}
use moonsugar.Api.{success, invalid_argument, Allocator}
use moonsugar.Util.{is_power2, popcount}
use moonsugar.Ring.{Ring, RingDescription, construct, enqueue, dequeue}
use moonsugar.Ring.Valid.{IsValid, Fits, enqueue-IsValid}
use moonsugar.Ring.Fifo.{contents, write, enqueue_appends, dequeue_first}

abbrev at_1000 : Allocator
at_1000 = record { allocate = λ _ _. 1000; reallocate = λ _ _. 0 }

abbrev fresh : Ring
fresh = record { count = 0; windex = 0; capacity = 4; item_size = 8; values = 1000 }

-- Two items, the older in slot 2.
abbrev wrapping : Ring
wrapping = record { count = 2; windex = 2 ^ 32 - 1; capacity = 4; item_size = 8; values = 1000 }

abbrev description : RingDescription
description = record { capacity = 4; item_size = 8 }

construct_results :
    (construct at_1000 fresh description ≡ (success, fresh))
    × (construct at_1000 fresh (record description { capacity = 6 }) ≡ (invalid_argument, fresh))
unfolding construct is_power2 popcount
construct_results = (refl, refl)

wrapping-IsValid : IsValid wrapping
wrapping-IsValid = record {
  exponent = 2;
  exponent-lt = omega arith;
  power = refl;
  counted = omega arith;
  word = omega arith;
}

wrapping-Fits : Fits wrapping
wrapping-Fits = omega arith

-- The oldest two items stand in slots 1 and 2, the next goes to slot 3 and wraps the index.
operations :
    ((enqueue wrapping).0 ≡ some 1024)
    × ((enqueue wrapping).1.windex ≡ 0)
    × ((dequeue wrapping).0 ≡ some 1008)
    × ((dequeue (enqueue wrapping).1).0 ≡ some 1008)
unfolding enqueue dequeue
operations = (refl, refl, refl, refl)

enqueue-IsValid_example : IsValid (enqueue wrapping).1
enqueue-IsValid_example = enqueue-IsValid wrapping-IsValid

abbrev cells : ℕ → ℕ
cells p = p

enqueue_appends_example :
    (q : ℕ) × ((enqueue wrapping).0 ≡ some q)
    × (contents (write cells q 7) (enqueue wrapping).1 ≡ contents cells wrapping ++ (7 ∷ []))
enqueue_appends_example = enqueue_appends cells wrapping-IsValid 7 wrapping-Fits (omega arith)

dequeue_first_example :
    (q : ℕ) × ((dequeue wrapping).0 ≡ some q)
    × (contents cells wrapping ≡ cells q ∷ contents cells (dequeue wrapping).1)
dequeue_first_example = dequeue_first cells wrapping-IsValid (omega arith)
