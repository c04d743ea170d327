-- ===== src/Uri/Decode.antt =====
-- The path, the query and the fragment decoded, one after the other.
use mathlib.Core.List.{append_assoc}
use moonsugar.Prelude.{
  ℕ, ◌+◌, ◌<◌, ◌≡◌, refl, ap, ap₂, ◌∙◌, sym, arith, Bool, Option, none, some, List, ◌∷◌, ◌++◌,
  length, length-append, drop,
}
use moonsugar.Config.{string_at}
use moonsugar.Config.Text.{IsText, string_at-text, drop-append_self}
use moonsugar.Uri.{Uri, no_port, decode_field, decode_fields}
use moonsugar.Uri.Percent.{encode, IsPlain, AllBytes}
use moonsugar.Uri.Fields.{decode_field_lem}

pub regroup :
    (front xs junk rest : List ℕ)
    → front ++ (xs ++ (0 ∷ (junk ++ rest))) ≡ (front ++ (xs ++ (0 ∷ junk))) ++ rest
regroup front xs junk rest =
    sym (
      append_assoc front (xs ++ (0 ∷ junk)) rest
      ∙ ap (◌++◌ front) (append_assoc xs (0 ∷ junk) rest))

-- The string that a field designates.
abbrev pub text_at : List ℕ → Option ℕ → Option (List ℕ)
text_at out none = none
text_at out (some p) = string_at (drop p out)

text_at_lem :
    (front xs junk rest : List ℕ)
    → IsText xs
    → text_at ((front ++ (xs ++ (0 ∷ junk))) ++ rest) (some (length front)) ≡ some xs
text_at_lem front xs junk rest h =
    ap (λ o. string_at (drop (length front) o)) (sym (regroup front xs junk rest))
    ∙ ap string_at (drop-append_self front (xs ++ (0 ∷ (junk ++ rest))))
    ∙ string_at-text xs (junk ++ rest) h

-- What decoding one field leaves: `block` is what stands in its place.
record Field (front encoded chars rest buff : List ℕ) (p : ℕ) : Type 0 where
  buff' : List ℕ
  junk : List ℕ
  sized : length buff' ≡ length buff
  next : length (front ++ (chars ++ (0 ∷ junk))) ≡ length front + length encoded + 1
  run :
      decode_field (some p) (buff, front ++ (encoded ++ (0 ∷ rest)))
      ≡ some (buff', (front ++ (chars ++ (0 ∷ junk))) ++ rest)

module _ (plain : ℕ → Bool) (h : IsPlain plain) where
  field_lem :
      (front chars rest buff : List ℕ) (p : ℕ)
      → p ≡ length front
      → AllBytes chars
      → IsText (encode plain chars)
      → length (encode plain chars) < length buff
      → Field front (encode plain chars) chars rest buff p
  field_lem front chars rest buff p here bytes text room =
      let d = decode_field_lem plain h chars bytes front rest buff text room in
      record {
        buff' = d.buff';
        junk = d.junk;
        sized = d.sized;
        next = omega (
          arith,
          length-append front (chars ++ (0 ∷ d.junk)),
          length-append chars (0 ∷ d.junk),
          d.filled,
        );
        run =
            ap (λ p. decode_field (some p) (buff, front ++ (encode plain chars ++ (0 ∷ rest)))) here
            ∙ d.run
            ∙ ap (λ o. some (d.buff', o)) (regroup front chars d.junk rest);
      }

-- The text of a field, wherever its position and the buffer come from.
text_at_here :
    {out : List ℕ} {p : ℕ} (front xs junk rest : List ℕ)
    → IsText xs
    → p ≡ length front
    → out ≡ (front ++ (xs ++ (0 ∷ junk))) ++ rest
    → text_at out (some p) ≡ some xs
text_at_here front xs junk rest h here same =
    ap₂ (λ o p. text_at o (some p)) same here ∙ text_at_lem front xs junk rest h

module _ (atoi : List ℕ → ℕ) (plain : ℕ → Bool) (h : IsPlain plain) where
  -- The fields that are there, decoded one after the other.
  pub record Fields (front out buff : List ℕ) (data_in : Uri) (path query fragment : List ℕ)
      : Type 0 where
    pub out' : List ℕ
    pub behind : List ℕ
    pub kept : out' ≡ front ++ behind
    pub run : decode_fields atoi buff out data_in ≡ some out'
    pub path_text : text_at out' data_in.path ≡ some path
    pub query_text : text_at out' data_in.query ≡ some query
    pub fragment_text : text_at out' data_in.fragment ≡ some fragment

  pub decode_fields_lem :
      (front path query fragment back buff : List ℕ)
      → let p = length front in
        let q = length front + length (encode plain path) + 1 in
        let f = length front + length (encode plain path) + 1 + length (encode plain query) + 1 in
        AllBytes path
          × IsText path
          × IsText (encode plain path)
          × (length (encode plain path) < length buff)
        → AllBytes query
          × IsText query
          × IsText (encode plain query)
          × (length (encode plain query) < length buff)
        → AllBytes fragment
          × IsText fragment
          × IsText (encode plain fragment)
          × (length (encode plain fragment) < length buff)
        → Fields front
            (front
              ++ (encode plain path
                  ++ (0 ∷ (encode plain query ++ (0 ∷ (encode plain fragment ++ (0 ∷ back)))))))
            buff
            (record {
              scheme = some 0;
              user = none;
              password = none;
              host = none;
              port = no_port;
              path = some p;
              query = some q;
              fragment = some f;
            })
            path
            query
            fragment
  unfolding decode_fields decode_field
  decode_fields_lem front path query fragment back buff (pb, pt, pe, pr) (qb, qt, qe, qr)
        (fb, ft, fe, fr) =
      let first =
        field_lem plain h front path
          (encode plain query ++ (0 ∷ (encode plain fragment ++ (0 ∷ back)))) buff (length front)
          refl pb pe pr in
      let front2 = front ++ (path ++ (0 ∷ first.junk)) in
      let second =
        field_lem plain h front2 query (encode plain fragment ++ (0 ∷ back)) first.buff'
          (length front + length (encode plain path) + 1) (sym first.next) qb qe
          (omega (arith, first.sized, qr)) in
      let front3 = front2 ++ (query ++ (0 ∷ second.junk)) in
      let third =
        field_lem plain h front3 fragment back second.buff'
          (length front + length (encode plain path) + 1 + length (encode plain query) + 1)
          (omega (arith, first.next, second.next)) fb fe
          (omega (arith, first.sized, second.sized, fr)) in
      let front4 = front3 ++ (fragment ++ (0 ∷ third.junk)) in
      record {
        out' = front4 ++ back;
        behind =
            (path ++ (0 ∷ first.junk))
            ++ ((query ++ (0 ∷ second.junk)) ++ ((fragment ++ (0 ∷ third.junk)) ++ back));
        kept =
            append_assoc front3 (fragment ++ (0 ∷ third.junk)) back
            ∙ append_assoc front2 (query ++ (0 ∷ second.junk)) _
            ∙ append_assoc front (path ++ (0 ∷ first.junk)) _;
        run = rw (first.run, second.run, third.run) refl;
        path_text =
            text_at_here front path first.junk
              ((query ++ (0 ∷ second.junk)) ++ ((fragment ++ (0 ∷ third.junk)) ++ back)) pt refl
              (append_assoc front3 (fragment ++ (0 ∷ third.junk)) back
                ∙ append_assoc front2 (query ++ (0 ∷ second.junk)) _);
        query_text =
            text_at_here front2 query second.junk ((fragment ++ (0 ∷ third.junk)) ++ back) qt
              (sym first.next) (append_assoc front3 (fragment ++ (0 ∷ third.junk)) back);
        fragment_text =
            text_at_here front3 fragment third.junk back ft (omega (arith, first.next, second.next))
              refl;
      }
