-- ===== src/Uri/Tests.antt =====
-- URIs decoded, and the theorems at them.
use moonsugar.Prelude.{
  ℕ, ◌≢◌, leb, ◌&&◌, ◌≡◌, refl, arith, Bool, true, some, none, List, [], ◌∷◌, ◌++◌, replicate,
}
use moonsugar.Api.{success}
use moonsugar.Uri.{Uri, uri_decode, no_port, pct_decode}
use moonsugar.Uri.Percent.{encode, pct_decode-encode}
use moonsugar.Uri.Decode.{text_at}
use moonsugar.Uri.Whole.{Unreserved, uri_of, uri_decode-uri_of}
use moonsugar.Uri.Bare.{uri_decode_null}

abbrev blank : Uri
blank = record {
  scheme = none;
  user = none;
  password = none;
  host = none;
  port = 0;
  path = none;
  query = none;
  fragment = none;
}

abbrev stack : List ℕ
stack = replicate 64 0

abbrev atoi : List ℕ → ℕ
atoi _ = 80

-- `a:p?q#f`
whole :
    uri_decode atoi stack
      (b'a' ∷ b':' ∷ b'p' ∷ b'?' ∷ b'q' ∷ b'#' ∷ b'f' ∷ 0 ∷ [])
      (replicate 8 0)
      blank
    ≡ some (
      success,
      b'a' ∷ 0 ∷ b'p' ∷ 0 ∷ b'q' ∷ 0 ∷ b'f' ∷ 0 ∷ [],
      record blank {
        scheme = some 0;
        port = no_port;
        path = some 2;
        query = some 4;
        fragment = some 6;
      },
    )
unfolding uri_decode
whole = refl

-- `a://h` has no path and no query.
bare_host :
    uri_decode atoi stack (b'a' ∷ b':' ∷ b'/' ∷ b'/' ∷ b'h' ∷ 0 ∷ []) (replicate 8 0) blank ≡ none
unfolding uri_decode
bare_host = refl

-- Lower-case letters stand for themselves.
abbrev lower : ℕ → Bool
lower c = leb b'a' c && leb c b'z'

lower-IsPlain : (c : ℕ) → lower c ≡ true → (c ≢ 0) × (c ≢ b'%')
lower-IsPlain c h = ground arith

lower-Unreserved : Unreserved lower
lower-Unreserved = record { safe = lower-IsPlain; slash = refl; query = refl; hash = refl }

pct_decode-encode_example :
    pct_decode (encode lower (b'a' ∷ b' ' ∷ 200 ∷ []) ++ (0 ∷ []))
    ≡ some (b'a' ∷ b' ' ∷ 200 ∷ 0 ∷ [])
pct_decode-encode_example =
    pct_decode-encode lower (b'a' ∷ b' ' ∷ 200 ∷ []) [] lower-IsPlain
      (omega arith, (omega arith, (omega arith, tt)))

uri_decode-uri_of_example :
    (out : List ℕ) × (parts : Uri) × (uri_decode atoi stack
        (uri_of lower (b'm' ∷ []) (b'p' ∷ b'/' ∷ []) (b'?' ∷ []) [] ++ (0 ∷ []))
        stack
        blank
      ≡ some (success, out, parts))
    × (text_at out parts.scheme ≡ some (b'm' ∷ []))
    × (text_at out parts.path ≡ some (b'p' ∷ b'/' ∷ []))
    × (text_at out parts.query ≡ some (b'?' ∷ []))
    × (text_at out parts.fragment ≡ some [])
    × (parts.user ≡ none)
    × (parts.password ≡ none)
    × (parts.host ≡ none)
    × (parts.port ≡ no_port)
unfolding uri_of encode
uri_decode-uri_of_example =
    uri_decode-uri_of lower lower-Unreserved atoi b'm' [] (b'p' ∷ b'/' ∷ []) (b'?' ∷ []) [] [] stack
      stack blank (omega arith, omega arith, tt) (omega arith)
      ((omega arith, (omega arith, tt)), (omega arith, (omega arith, tt)))
      ((omega arith, tt), (omega arith, tt)) (tt, tt) (omega arith) (omega arith)

uri_decode_null_example :
    uri_decode atoi stack (b'a' ∷ b':' ∷ b'/' ∷ b'/' ∷ b'h' ∷ 0 ∷ []) stack blank ≡ none
uri_decode_null_example =
    uri_decode_null atoi b'a' [] (b'h' ∷ []) [] stack stack blank (omega arith, omega arith, tt)
      (omega arith, omega arith, tt) (omega arith, omega arith, tt) (omega arith, omega arith, tt)
      (omega arith, omega arith, tt) (omega arith)
