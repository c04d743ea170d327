-- ===== src/Prelude/Loops.antt =====
-- A loop that writes 0 to each entry of an array from one index on.
use moonsugar.Prelude.Tests.{leb, if◌then◌else◌, ◌>>=◌}
use moonsugar.Prelude.Lists.{
  length, get_elem?, get_or, set as set_elem, length-set, get_or-set, get_or_beyond,
  get_elem?-eq-get_or,
}
use Prim.Native.Nat.{ℕ, zero, suc, ◌+◌}
use mathlib.Core.Path.{◌≡◌, refl, ◌∙◌}
use mathlib.Core.List.{List}
use mathlib.Core.Option.{Option, some}
use native.Mathlib.Decide.{dec_lt}
use native.Mathlib.Omega.{arith}

-- `for(; rounds > 0; ++i) xs[i] = 0;`, where `none` is an access out of bounds.
unfoldable pub zero_from : ℕ → ℕ → List ℕ → Option (List ℕ)
zero_from zero i xs = some xs
zero_from (suc rounds) i xs = get_elem? xs i >>= λ old. zero_from rounds (i + 1) (set_elem xs i 0)

-- It stays inside the list, and clears from `i` on.
pub zero_from_lem :
    (rounds i : ℕ) (xs : List ℕ)
    → i + rounds ≡ length xs
    → (done : List ℕ) × (zero_from rounds i xs ≡ some done)
      × (length done ≡ length xs)
      × ((k : ℕ) → get_or done k 0 ≡ (if leb i k then 0 else get_or xs k 0))
unfolding zero_from
zero_from_lem zero i xs h = (
  xs,
  refl,
  refl,
  λ k. elim (dec_lt k i) [
    | yes lt ↦ ground (arith, lt)
    | no ge ↦ ground (arith, ge, get_or_beyond xs k 0 (omega (arith, ge)))
  ],
)
zero_from_lem (suc rounds) i xs h =
    let (done, run, sized, zeros) =
      zero_from_lem rounds (i + 1) (set_elem xs i 0) (omega (arith, length-set xs i 0)) in
    (
      done,
      rw (get_elem?-eq-get_or xs i 0 (omega arith)) run,
      sized ∙ length-set xs i 0,
      λ k. ground (arith, zeros k, get_or-set xs i k 0 0 (omega arith)),
    )
