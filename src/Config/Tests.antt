-- ===== src/Config/Tests.antt =====
-- The text " k v" and a newline, in which the callback counts the entries.
use moonsugar.Prelude.{
  ℕ, ◌+◌, ◌≡◌, refl, arith, Option, some, List, [], ◌∷◌, ◌++◌, replicate, ◌>>=◌,
}
use moonsugar.Api.{MsResult, success}
use moonsugar.Config.{config_max_line_len, parse_line, parse, and_then}
use moonsugar.Config.Entry.{parse_line-entry}
use moonsugar.Config.Trim.{IsValue}
use moonsugar.Config.Lines.{IsLine}
use moonsugar.Config.Whole.{parse_lines, parse-eq-parse_lines, parse_twice}

abbrev count_entries : ℕ → List ℕ → Option (List ℕ) → MsResult × ℕ
count_entries n key value = (success, n + 1)

-- The line " k v".
abbrev one_entry : List ℕ
one_entry = 32 ∷ 107 ∷ 32 ∷ 118 ∷ []

v-IsValue : IsValue (118 ∷ [])
v-IsValue = record {
  text = (omega arith, tt);
  head = 118;
  tail = [];
  begins = refl;
  head_solid = refl;
  init = [];
  last = 118;
  ends = refl;
  last_solid = refl;
}

one_entry-IsLine : IsLine one_entry
one_entry-IsLine = ground arith

parse_line-entry_example :
    parse_line config_max_line_len count_entries (one_entry ++ (0 ∷ [])) 7 ≡ some (success, 8)
parse_line-entry_example =
    parse_line-entry config_max_line_len count_entries (32 ∷ []) 107 [] 32 [] (118 ∷ []) [] [] 7
      (refl, tt) (omega arith, refl, tt) (omega arith) (refl, tt) v-IsValue tt (omega arith)

parse-eq-parse_lines_example :
    parse config_max_line_len count_entries (one_entry ++ (10 ∷ 35 ∷ [])) 7
    ≡ parse_lines config_max_line_len count_entries
        (replicate config_max_line_len 0)
        ((one_entry, 10) ∷ [])
        (35 ∷ [])
        7
parse-eq-parse_lines_example =
    parse-eq-parse_lines config_max_line_len count_entries ((one_entry, 10) ∷ []) (35 ∷ []) 7
      (one_entry-IsLine, refl, omega arith, tt) (omega arith, refl, tt) (omega arith)

parse_twice_example : parse config_max_line_len count_entries (one_entry ++ (10 ∷ [])) 7 ≡ (
    parse_line config_max_line_len count_entries (one_entry ++ (0 ∷ [])) 7 >>= λ out.
    and_then out (parse_line config_max_line_len count_entries (one_entry ++ (0 ∷ []))))
parse_twice_example =
    parse_twice config_max_line_len count_entries one_entry 10 7 one_entry-IsLine refl (omega arith)

-- The entry is counted twice.
parse_counts : parse 16 count_entries (one_entry ++ (10 ∷ [])) 0 ≡ some (success, 2)
unfolding parse
parse_counts = refl
