-- ===== src/Uri/Whole.antt =====
-- A URI of a scheme, a path, a query and a fragment, and what `ms_uri_decode` makes of it.
use mathlib.Core.List.{append_assoc}
use moonsugar.Prelude.{
  ℕ, suc, ◌+◌, ◌≤◌, ◌<◌, ◌≡◌, ◌≢◌, ◌⊎◌, inl, inr, refl, ap, ap₂, ◌∙◌, sym, arith, Bool, false, none,
  some, List, [], ◌∷◌, ◌++◌, length, length-append, set as set_elem, drop,
}
use moonsugar.Api.{success}
use moonsugar.Config.{string_at}
use moonsugar.Config.Text.{IsText, string_at-text, IsText-append, set-append_self}
use moonsugar.Uri.{
  Uri, no_port, find_from, find, strcpy, read_hierarchy, read_tail, decode_fields, uri_decode,
}
use moonsugar.Uri.Percent.{encode, hex_digit, IsPlain, AllBytes}
use moonsugar.Uri.Scan.{Lacks, Lacks-IsText, find_from-hit, strcpy_lem}
use moonsugar.Uri.Fields.{length-encode, Lacks-encode}
use moonsugar.Uri.Decode.{text_at, decode_fields_lem}
use moonsugar.Uri.Parts.{read_hierarchy_lem, read_tail_lem}

-- A choice of characters that can stand for themselves in every part of a URI.
pub record Unreserved (plain : ℕ → Bool) : Type 0 where
  pub safe : IsPlain plain
  pub slash : plain b'/' ≡ false
  pub query : plain b'?' ≡ false
  pub hash : plain b'#' ≡ false

-- The URI, and what stands behind it in memory.
unfoldable pub uri_of : (ℕ → Bool) → List ℕ → List ℕ → List ℕ → List ℕ → List ℕ
uri_of plain scheme path query fragment =
    scheme
    ++ (b':'
        ∷ (encode plain path ++ (b'?' ∷ (encode plain query ++ (b'#' ∷ encode plain fragment)))))

-- The strings that make up a URI: bytes other than NUL.
abbrev pub IsString : List ℕ → Type 0
IsString chars = AllBytes chars × IsText chars

uri_of-append :
    (plain : ℕ → Bool) (scheme path query fragment back : List ℕ)
    → uri_of plain scheme path query fragment ++ (0 ∷ back)
      ≡ scheme
        ++ (b':'
            ∷ (encode plain path
                ++ (b'?' ∷ (encode plain query ++ (b'#' ∷ (encode plain fragment ++ (0 ∷ back)))))))
unfolding uri_of
uri_of-append plain scheme path query fragment back =
    append_assoc scheme _ _
    ∙ ap (λ t. scheme ++ (b':' ∷ t))
        (append_assoc (encode plain path) _ _
          ∙ ap (λ t. encode plain path ++ (b'?' ∷ t)) (append_assoc (encode plain query) _ _))

hex_digit-range : (d : ℕ) → d < 16 → (48 ≤ hex_digit d) × (hex_digit d ≢ b'?')
hex_digit-range d h = ground arith

-- The steps of `ms_uri_decode` that succeed, put together.
uri_decode-steps :
    (atoi : List ℕ → ℕ) (buff text out_buff : List ℕ) (old : Uri) {o1 o2 o3 o4 : List ℕ}
    {d next : ℕ} {found parts : Uri}
    → strcpy out_buff text ≡ some o1
    → find o1 0 b':' ≡ some (some (suc d))
    → read_hierarchy atoi (set_elem o1 (suc d) 0) (d + 2) (record old { scheme = some 0 })
      ≡ some (o2, next, found)
    → read_tail atoi o2 next found ≡ some (o3, parts)
    → decode_fields atoi buff o3 parts ≡ some o4
    → uri_decode atoi buff text out_buff old ≡ some (success, o4, parts)
unfolding uri_decode
uri_decode-steps atoi buff text out_buff old copied delim hierarchy tail fields =
    rw (copied, delim, hierarchy, tail, fields) refl

module _ (plain : ℕ → Bool) (h : Unreserved plain) where
  encode-Lacks :
      (c : ℕ) (chars : List ℕ)
      → (c < 48) ⊎ (c ≡ b'?')
      → c ≢ b'%'
      → plain c ≡ false
      → AllBytes chars
      → Lacks c (encode plain chars)
  encode-Lacks c chars small percent out bytes =
      Lacks-encode plain c chars h.safe bytes
        (
          percent,
          λ d less e. elim small [
            | inl low ↦ omega (arith, hex_digit-range d less)
            | inr mark ↦ (hex_digit-range d less).1 (e ∙ mark)
          ],
        )
        out

  encode-IsText : (chars : List ℕ) → AllBytes chars → IsText (encode plain chars)
  encode-IsText chars bytes =
      Lacks-IsText b'/' _ (encode-Lacks b'/' chars (omega arith) (omega arith) h.slash bytes)

  uri_of-IsText :
      (scheme path query fragment : List ℕ)
      → IsText scheme
      → AllBytes path
      → AllBytes query
      → AllBytes fragment
      → IsText (uri_of plain scheme path query fragment)
  unfolding uri_of
  uri_of-IsText scheme path query fragment s p q f = IsText-append scheme _ s (
    omega arith,
    IsText-append (encode plain path) _ (encode-IsText path p) (
      omega arith,
      IsText-append (encode plain query) _ (encode-IsText query q)
          (omega arith, encode-IsText fragment f),
    ),
  )

  uri_of-length :
      (scheme path query fragment : List ℕ)
      → length (uri_of plain scheme path query fragment)
        ≡ length scheme
          + length (encode plain path)
          + length (encode plain query)
          + length (encode plain fragment)
          + 3
  unfolding uri_of
  uri_of-length scheme path query fragment = omega (
    arith,
    length-append scheme (
        b':'
        ∷ (encode plain path ++ (b'?' ∷ (encode plain query ++ (b'#' ∷ encode plain fragment))))),
    length-append (encode plain path)
        (b'?' ∷ (encode plain query ++ (b'#' ∷ encode plain fragment))),
    length-append (encode plain query) (b'#' ∷ encode plain fragment),
  )

  -- A URI of a scheme, a nonempty path, a query and a fragment, each but the scheme percent-encoded, is decoded
  -- with success into an output buffer and with a buffer on the stack that it fits: the parts are found where they
  -- stand and read as the strings that were encoded, and there is no user, no password, no host and no port.
  pub uri_decode-uri_of :
      (atoi : List ℕ → ℕ) (s : ℕ) (ss path query fragment back buff out_buff : List ℕ) (old : Uri)
      → Lacks b':' (s ∷ ss)
      → 0 < length path
      → IsString path
      → IsString query
      → IsString fragment
      → length (uri_of plain (s ∷ ss) path query fragment) < length buff
      → length (uri_of plain (s ∷ ss) path query fragment) < length out_buff
      → (out : List ℕ) × (parts : Uri) × (uri_decode atoi buff
            (uri_of plain (s ∷ ss) path query fragment ++ (0 ∷ back))
            out_buff
            old
          ≡ some (success, out, parts))
        × (text_at out parts.scheme ≡ some (s ∷ ss))
        × (text_at out parts.path ≡ some path)
        × (text_at out parts.query ≡ some query)
        × (text_at out parts.fragment ≡ some fragment)
        × (parts.user ≡ none)
        × (parts.password ≡ none)
        × (parts.host ≡ none)
        × (parts.port ≡ no_port)
  uri_decode-uri_of atoi s ss path query fragment back buff out_buff old lacks more (pb, pt)
        (qb, qt) (fb, ft) small room =
      let scheme = s ∷ ss in
      let front = scheme ++ (0 ∷ []) in
      let tail = drop (length (uri_of plain scheme path query fragment) + 1) out_buff in
      let sized = uri_of-length scheme path query fragment in
      let copied =
        strcpy_lem out_buff (uri_of plain scheme path query fragment) back
          (uri_of-IsText scheme path query fragment (Lacks-IsText b':' scheme lacks) pb qb fb) room
        ∙ ap some (uri_of-append plain scheme path query fragment tail) in
      let behind = encode plain query ++ (b'#' ∷ (encode plain fragment ++ (0 ∷ tail))) in
      let rest = encode plain path ++ (b'?' ∷ behind) in
      let delim : find_from (scheme ++ (b':' ∷ rest)) 0 b':' ≡ some (some (suc (length ss))) =
        find_from-hit scheme rest 0 b':' lacks (omega arith)
        ∙ ap (λ n. some (some n)) (omega arith) in
      let hier : length ss + 2 ≡ length front = omega (arith, length-append scheme (0 ∷ [])) in
      let path_size = length-encode plain path in
      let cut_off : set_elem (scheme ++ (b':' ∷ rest)) (length scheme) 0 ≡ front ++ rest =
        set-append_self scheme b':' 0 rest ∙ sym (append_assoc scheme (0 ∷ []) rest) in
      let done =
        decode_fields_lem atoi plain h.safe front path query fragment tail buff
          (pb, pt, encode-IsText path pb, omega (arith, sized, small))
          (qb, qt, encode-IsText query qb, omega (arith, sized, small))
          (fb, ft, encode-IsText fragment fb, omega (arith, sized, small)) in
      (
        done.out',
        record {
          scheme = some 0;
          user = none;
          password = none;
          host = none;
          port = no_port;
          path = some (length front);
          query = some (length front + length (encode plain path) + 1);
          fragment =
              some
                (length front + length (encode plain path) + 1 + length (encode plain query) + 1);
        },
        uri_decode-steps atoi buff (uri_of plain scheme path query fragment ++ (0 ∷ back)) out_buff
            old copied delim
            (ap₂ (λ o n. read_hierarchy atoi o n (record old { scheme = some 0 })) cut_off hier
              ∙ read_hierarchy_lem atoi front (encode plain path) (b'?' ∷ behind)
                  (record old { scheme = some 0 })
                  (encode-Lacks b'/' path (omega arith) (omega arith) h.slash pb)
                  (encode-Lacks b'?' path (inr refl) (omega arith) h.query pb)
                  (encode-Lacks b'#' path (omega arith) (omega arith) h.hash pb)
                  (omega (arith, path_size)))
            (read_tail_lem atoi front (encode plain path) (encode plain query)
              (encode plain fragment ++ (0 ∷ tail)) _
              (encode-Lacks b'?' path (inr refl) (omega arith) h.query pb)
              (encode-Lacks b'#' query (omega arith) (omega arith) h.hash qb))
            done.run,
        ap string_at (done.kept ∙ append_assoc scheme (0 ∷ []) done.behind)
            ∙ string_at-text scheme done.behind (Lacks-IsText b':' scheme lacks),
        done.path_text,
        done.query_text,
        done.fragment_text,
        refl,
        refl,
        refl,
        refl,
      )
