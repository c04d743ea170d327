-- ===== src/Path/Tests.antt =====
-- The path "ab/cd" and a buffer of eight characters.
use moonsugar.Prelude.{ℕ, ◌-◌, ◌≡◌, arith, some, List, [], ◌∷◌, ◌++◌, length, drop, replicate}
use moonsugar.Api.{success}
use moonsugar.Path.{path_sep, get_filename}
use moonsugar.Path.Names.{IsName, get_filename_lem}

abbrev dir : List ℕ
dir = 97 ∷ 98 ∷ []

abbrev name : List ℕ
name = 99 ∷ 100 ∷ []

abbrev buffer : List ℕ
buffer = replicate 8 7

name-IsName : IsName name
unfolding IsName
name-IsName = (λ e. omega (arith, e), (λ e. omega (arith, e), tt))

get_filename_lem_example :
    get_filename (dir ++ (path_sep ∷ name)) buffer 5
    ≡ some (success, name ++ (replicate (5 - length name) 0 ++ drop 5 buffer))
get_filename_lem_example =
    get_filename_lem dir name buffer 5 name-IsName (omega arith) (omega arith) (omega arith)
      (omega arith)
