-- ===== src/Uri.antt =====
-- src/uri.c: the parts of a URI. What memory holds from a pointer on is a list of characters, and a pointer into
-- the output buffer is a position in it; `none` is an access outside the buffers or through NULL. Characters are
-- numbers below 256, signed ones in the comparisons of `h2i`, and an int is its 32 bits.
pub mod Percent
pub mod Scan
pub mod Fields
pub mod Decode
pub mod Parts
pub mod Whole
pub mod Bare
mod Tests
use moonsugar.Prelude.{
  ℕ, zero, suc, ◌+◌, ◌-◌, ◌*◌, ◌^◌, ◌%◌, Bool, true, false, ◌||◌, ◌&&◌, Option, none, some, List,
  [], ◌∷◌, ◌++◌, length, get_or, set as set_elem, drop, take, leb, ◌==◌, if◌then◌else◌, ◌>>=◌,
}
use moonsugar.Api.{MsResult, success, invalid_argument}
use moonsugar.Config.{string_at}

-- `MS_URI_MAX_LEN`.
abbrev pub uri_max_len : ℕ
uri_max_len = 4096

-- `ms_uri`; NULL is `none`.
pub record Uri : Type 0 where
  pub scheme : Option ℕ
  pub user : Option ℕ
  pub password : Option ℕ
  pub host : Option ℕ
  pub port : ℕ
  pub path : Option ℕ
  pub query : Option ℕ
  pub fragment : Option ℕ

-- The port where there is none, -1.
abbrev pub no_port : ℕ
no_port = 2 ^ 32 - 1

-- `find`, from position `p`; `some none` is NULL.
pub find_from : List ℕ → ℕ → ℕ → Option (Option ℕ)
find_from [] p c = none
find_from (x ∷ xs) p c =
    let rest = find_from xs (p + 1) c in
    if x == 0 then some none else if x == c then some (some p) else rest

abbrev pub find : List ℕ → ℕ → ℕ → Option (Option ℕ)
find out p c = find_from (drop p out) p c

-- What is done with a delimiter: a NUL is written over it, and the part behind it begins at the next position.
pub cut : List ℕ → ℕ → ℕ → Option (Option ℕ × List ℕ)
unfolding find_from
cut out p c = find out p c >>= λ delim. elim delim [
  | none ↦ some (none, out)
  | some d ↦ some (some (d + 1), set_elem out d 0)
]

-- `h2i`, less the multiples of 256 that the conversion to `char` drops.
pub h2i : ℕ → ℕ
h2i c =
    if leb c b'9' || leb 128 c
    then (c + 256 - b'0') % 256
    else if leb c b'Z'
    then c + 10 - b'A'
    else c + 10 - b'a'

-- `pct_decode`: the characters that it writes, with the NUL behind them.
pub pct_decode : List ℕ → Option (List ℕ)
unfolding h2i
pct_decode [] = none
pct_decode (c ∷ []) = if c == 0 then some (0 ∷ []) else none
pct_decode (c ∷ a ∷ []) =
    let literal = (pct_decode (a ∷ []) >>= λ s. some (c ∷ s)) in
    if c == 0 then some (0 ∷ []) else if c == b'%' then none else literal
pct_decode (c ∷ a ∷ b ∷ cs) =
    let escaped = (pct_decode cs >>= λ s. some ((h2i a * 16 + h2i b) % 256 ∷ s)) in
    let literal = (pct_decode (a ∷ b ∷ cs) >>= λ s. some (c ∷ s)) in
    if c == 0 then some (0 ∷ []) else if c == b'%' then escaped else literal

-- Characters written into a buffer from position `p` on.
pub write_from : List ℕ → ℕ → List ℕ → Option (List ℕ)
write_from out p chars =
    if leb (p + length chars) (length out)
    then some (take p out ++ (chars ++ drop (p + length chars) out))
    else none

-- `strcpy` to the start of a buffer.
pub strcpy : List ℕ → List ℕ → Option (List ℕ)
unfolding string_at write_from
strcpy out s = string_at s >>= λ chars. write_from out 0 (chars ++ (0 ∷ []))

-- `DECODE`, on `buff` and the output buffer.
pub decode_field : Option ℕ → List ℕ × List ℕ → Option (List ℕ × List ℕ)
unfolding strcpy pct_decode write_from
decode_field none (buff, out) = some (buff, out)
decode_field (some p) (buff, out) = strcpy buff (drop p out) >>= λ buff.
    pct_decode buff >>= λ chars. write_from out p chars >>= λ out. some (buff, out)

-- The pointer from which the fragment is searched.
abbrev query_or_path : Option ℕ → Option ℕ → Option ℕ
query_or_path (some query) path = some query
query_or_path none path = path

module _ (atoi : List ℕ → ℕ) where
  -- The user and the password; the second part is where the host begins.
  pub read_user : List ℕ → ℕ → Uri → Option (List ℕ × ℕ × Uri)
  unfolding cut
  read_user out authority out_data = cut out authority b'@' >>= λ (host, out). elim host [
    | none ↦
        some
          (out, authority, record out_data { user = none; password = none; host = some authority })
    | some host ↦
        (cut out authority b':' >>= λ (password, out). some (
          out,
          host,
          record out_data { user = some authority; password = password; host = some host },
        ))
  ]

  -- The port; the second part is where the search for the path begins.
  pub read_port : List ℕ → ℕ → Uri → Option (List ℕ × ℕ × Uri)
  unfolding cut string_at
  read_port out host out_data = cut out host b':' >>= λ (port, out). elim port [
    | none ↦ some (out, host, record out_data { port = no_port })
    | some port ↦
        (string_at (drop port out) >>= λ digits.
        some (out, port, record out_data { port = atoi digits }))
  ]

  -- The part of `ms_uri_decode` for a URI with an authority; the second part is `next`.
  pub read_authority : List ℕ → ℕ → Uri → Option (List ℕ × ℕ × Uri)
  unfolding read_user read_port
  read_authority out authority out_data =
      read_user out authority out_data >>= λ (out, host, out_data).
      read_port out host out_data >>= λ (out, next, out_data). cut out next b'/' >>= λ (path, out).
      elim path [
        | none ↦ some (out, authority, record out_data { path = none })
        | some path ↦ some (out, path, record out_data { path = some path })
      ]

  -- The same, for any URI, from behind the scheme.
  pub read_hierarchy : List ℕ → ℕ → Uri → Option (List ℕ × ℕ × Uri)
  unfolding read_authority
  read_hierarchy out hier out_data =
      let bare = record out_data { user = none; password = none; host = none; port = no_port } in
      if get_or out hier 0 == b'/' && get_or out (hier + 1) 0 == b'/'
      then read_authority out (hier + 2) out_data
      else if get_or out hier 0 == b'?' || get_or out hier 0 == b'#'
      then some (out, hier, record bare { path = none })
      else some (out, hier, record bare { path = some hier })

  -- The query and the fragment; the search for the fragment begins at the query, or else at the path.
  pub read_tail : List ℕ → ℕ → Uri → Option (List ℕ × Uri)
  unfolding cut
  read_tail out next out_data = cut out next b'?' >>= λ (query, out).
      elim (query_or_path query out_data.path) [
        | none ↦ none
        | some from ↦
            (cut out from b'#' >>= λ (fragment, out).
            some (out, record out_data { query = query; fragment = fragment }))
      ]

  -- The decoding of the fields that are there, in their order.
  pub decode_fields : List ℕ → List ℕ → Uri → Option (List ℕ)
  unfolding decode_field
  decode_fields buff out out_data =
      decode_field out_data.user (buff, out)
      >>= decode_field out_data.password
      >>= decode_field out_data.host
      >>= decode_field out_data.path
      >>= decode_field out_data.query
      >>= decode_field out_data.fragment
      >>= λ (buff, out). some out

  -- `ms_uri_decode`: the result, the output buffer and the parts; `buff` is what the buffer on the stack holds.
  pub uri_decode : List ℕ → List ℕ → List ℕ → Uri → Option (MsResult × List ℕ × Uri)
  unfolding strcpy read_hierarchy read_tail decode_fields find_from
  uri_decode buff uri out out_data = strcpy out uri >>= λ out. find out 0 b':' >>= λ delim.
      elim delim [
        | none ↦ some (invalid_argument, out, out_data)
        | some zero ↦ some (invalid_argument, out, out_data)
        | some (suc d) ↦
            (read_hierarchy (set_elem out (suc d) 0) (d + 2) (record out_data { scheme = some 0 })
              >>= λ (out, next, out_data). read_tail out next out_data >>= λ (out, out_data).
                  decode_fields buff out out_data >>= λ out. some (success, out, out_data))
      ]
