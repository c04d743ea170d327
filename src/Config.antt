-- ===== src/Config.antt =====
-- src/config.c: configuration text, one entry to a line. What memory holds from a pointer on is a list of
-- characters; `none` is an access behind it. `limit` is MS_CONFIG_MAX_LINE_LEN, the size of the buffers.
-- `on_entry` is the callback, which is given the key, the value where there is one, and the context.
pub mod Text
pub mod Lines
pub mod Trim
pub mod Entry
pub mod Whole
mod Tests
use moonsugar.Prelude.{
  ℕ, zero, suc, ◌+◌, ◌-◌, Bool, true, false, ◌||◌, Option, none, some, List, [], ◌∷◌, length,
  get_or, set as set_elem, drop, replicate, ltb, ◌==◌, if◌then◌else◌, ◌>>=◌,
}
use moonsugar.Api.{MsResult, success}

-- `MS_CONFIG_MAX_LINE_LEN`.
abbrev pub config_max_line_len : ℕ
config_max_line_len = 4096

-- The characters that the program tests for: `'#'`, `'\n'`, `'\r'`, `' '` and `'\t'`.
abbrev pub hash : ℕ
hash = b'#'

abbrev pub is_newline : ℕ → Bool
is_newline c = c == b'\n' || c == b'\r'

abbrev pub is_blank : ℕ → Bool
is_blank c = c == b' ' || c == b'\t' || is_newline c

-- `find_non_blank`, from position `p`; `some none` is NULL.
pub find_non_blank : List ℕ → ℕ → Option (Option ℕ)
find_non_blank [] p = none
find_non_blank (c ∷ cs) p =
    let rest = find_non_blank cs (p + 1) in
    if c == 0 then some none else if is_blank c then rest else some (some p)

-- `find_blank`.
pub find_blank : List ℕ → ℕ → Option (Option ℕ)
find_blank [] p = none
find_blank (c ∷ cs) p =
    let rest = find_blank cs (p + 1) in
    if c == 0 then some none else if is_blank c then some (some p) else rest

-- The first loop of `trim_right`: how many characters stand before the NUL.
pub string_length : List ℕ → Option ℕ
string_length [] = none
string_length (c ∷ cs) =
    let rest = (string_length cs >>= λ n. some (suc n)) in if c == 0 then some 0 else rest

-- Its second loop, on the first `n` characters behind `s`.
pub trim_from : List ℕ → ℕ → ℕ → List ℕ
trim_from line s zero = line
trim_from line s (suc n) =
    let rest = trim_from (set_elem line (s + n) 0) s n in
    if is_blank (get_or line (s + n) 0) then rest else line

-- `trim_right`.
pub trim_right : List ℕ → ℕ → Option (List ℕ)
unfolding string_length trim_from
trim_right line s = string_length (drop s line) >>= λ n. some (trim_from line s n)

-- The string that a pointer designates.
unfoldable pub string_at : List ℕ → Option (List ℕ)
string_at [] = none
string_at (c ∷ cs) =
    let rest = (string_at cs >>= λ s. some (c ∷ s)) in if c == 0 then some [] else rest

-- `strncpy` into a buffer of `n` characters.
pub string_copy : ℕ → List ℕ → Option (List ℕ)
string_copy zero chars = some []
string_copy (suc n) [] = none
string_copy (suc n) (c ∷ cs) =
    let rest = (string_copy n cs >>= λ s. some (c ∷ s)) in
    if c == 0 then some (replicate (suc n) 0) else rest

-- `line[j] = c`.
abbrev pub put : List ℕ → ℕ → ℕ → Option (List ℕ)
put line j c = if ltb j (length line) then some (set_elem line j c) else none

-- What follows a line: nothing, where it gave an error.
abbrev pub and_then {ℓ} :
    {S : Type ℓ} → MsResult × S → (S → Option (MsResult × S)) → Option (MsResult × S)
and_then (success, ctx) next = next ctx
and_then (failed, ctx) next = some (failed, ctx)

module _ {ℓ} {S : Type ℓ} (limit : ℕ) (on_entry : S → List ℕ → Option (List ℕ) → MsResult × S) where
  -- The call of the callback, on the strings that the pointers designate.
  pub report : List ℕ → ℕ → Option ℕ → S → Option (MsResult × S)
  unfolding string_at
  report line key none ctx = string_at (drop key line) >>= λ k. some (on_entry ctx k none)
  report line key (some value) ctx = string_at (drop key line) >>= λ k.
      string_at (drop value line) >>= λ v. some (on_entry ctx k (some v))

  -- `ms_config_parse_line`, behind the separator.
  pub parse_value : List ℕ → ℕ → Option ℕ → S → Option (MsResult × S)
  unfolding report find_non_blank trim_right
  parse_value line key none ctx = report line key none ctx
  parse_value line key (some sep) ctx = find_non_blank (drop sep line) sep >>= λ value. elim value [
    | none ↦ report (set_elem line sep 0) key none ctx
    | some v ↦ (trim_right (set_elem line sep 0) v >>= λ line. report line key (some v) ctx)
  ]

  -- `ms_config_parse_line`, from where the key is found.
  pub parse_key : List ℕ → Option ℕ → S → Option (MsResult × S)
  unfolding parse_value find_blank
  parse_key line none ctx = some (success, ctx)
  parse_key line (some key) ctx =
      if get_or line key 0 == hash
      then some (success, ctx)
      else (find_blank (drop key line) key >>= λ sep. parse_value line key sep ctx)

  -- `ms_config_parse_line`.
  pub parse_line : List ℕ → S → Option (MsResult × S)
  unfolding parse_key find_non_blank string_copy
  parse_line config ctx =
      string_copy limit config >>= λ line. find_non_blank line 0 >>= λ key. parse_key line key ctx

  -- The loop of `ms_config_parse`, with `line` and `j`, and the call behind it.
  pub parse_from : List ℕ → List ℕ → ℕ → S → Option (MsResult × S)
  unfolding parse_line
  parse_from [] line j ctx = parse_line line ctx
  parse_from (c ∷ config) line j ctx =
      let ended =
        (put line j 0 >>= λ line.
        parse_line line ctx >>= λ out. and_then out (parse_from config line 0)) in
      let longer = (put line j c >>= λ line. parse_from config line (j + 1) ctx) in
      if is_newline c then ended else longer

  -- `ms_config_parse`, of a string.
  pub parse : List ℕ → S → Option (MsResult × S)
  unfolding parse_from
  parse config ctx = parse_from config (replicate limit 0) 0 ctx
