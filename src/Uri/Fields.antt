-- ===== src/Uri/Fields.antt =====
-- One field of a URI decoded where it stands.
use mathlib.Core.List.{append_assoc}
use moonsugar.Prelude.{
  ℕ, zero, suc, ◌+◌, ◌/◌, ◌%◌, ◌≤◌, ◌<◌, ◌≡◌, ◌≢◌, refl, ap, ap₂, ◌∙◌, sym, arith, Bool, true,
  false, Bool-cases, inl, inr, some, List, [], ◌∷◌, ◌++◌, length, length-append, length-drop, drop,
  leb,
}
use moonsugar.Config.Text.{IsText, drop-append_self}
use moonsugar.Uri.{write_from, decode_field}
use moonsugar.Uri.Percent.{encode, hex_digit, IsPlain, AllBytes, pct_decode-encode}
use moonsugar.Uri.Scan.{Lacks, strcpy_lem, take-append_self}

module _ {ℓ} {A : Type ℓ} where
  drop_add : (xs ys : List A) (n : ℕ) → drop (length xs + n) (xs ++ ys) ≡ drop n ys
  drop_add [] ys n = let same : 0 + n ≡ n = omega arith in ap (λ k. drop k ys) same
  drop_add (x ∷ xs) ys n =
      let next : suc (length xs) + n ≡ suc (length xs + n) = omega arith in
      ap (λ k. drop k (x ∷ (xs ++ ys))) next ∙ drop_add xs ys n

  drop-append_le : (n : ℕ) (xs ys : List A) → n ≤ length xs → drop n (xs ++ ys) ≡ drop n xs ++ ys
  drop-append_le zero xs ys h = refl
  drop-append_le (suc n) [] ys h = absurd (omega (arith, h))
  drop-append_le (suc n) (x ∷ xs) ys h = drop-append_le n xs ys (omega (arith, h))

pub length-encode : (plain : ℕ → Bool) (chars : List ℕ) → length chars ≤ length (encode plain chars)
unfolding encode
length-encode plain [] = omega arith
length-encode plain (c ∷ cs) = elim (Bool-cases (plain c)) [
  | inl kept ↦ rw kept (omega (arith, length-encode plain cs))
  | inr escaped ↦ rw escaped (omega (arith, length-encode plain cs))
]

-- A delimiter: no digit, no letter and no percent sign.
abbrev pub IsDelimiter : ℕ → Type 0
IsDelimiter c = (c ≢ b'%') × ((d : ℕ) → d < 16 → hex_digit d ≢ c)

hex_digit-nonzero : (d : ℕ) → hex_digit d ≢ 0
hex_digit-nonzero d = ground arith

pub Lacks-encode :
    (plain : ℕ → Bool) (c : ℕ) (chars : List ℕ)
    → IsPlain plain
    → AllBytes chars
    → IsDelimiter c
    → plain c ≡ false
    → Lacks c (encode plain chars)
unfolding encode
Lacks-encode plain c [] h bytes delim out = tt
Lacks-encode plain c (x ∷ xs) h (byte, bytes) (percent, digit) out =
    let rest = Lacks-encode plain c xs h bytes (percent, digit) out in
    elim (Bool-cases (plain x)) [
      | inl kept ↦ rw kept ((h x kept).0, λ e. cc, rest)
      | inr escaped ↦ rw escaped (
        omega arith,
        λ e. percent (sym e),
        (
          hex_digit-nonzero (x / 16),
          digit (x / 16) (omega arith),
          (hex_digit-nonzero (x % 16), digit (x % 16) (omega arith), rest),
        ),
      )
    ]

-- What `DECODE` leaves: the decoded characters in place of the encoded ones, and behind them the rest of the
-- room they had.
pub record Decoded (front encoded chars back buff : List ℕ) : Type 0 where
  pub buff' : List ℕ
  pub junk : List ℕ
  pub sized : length buff' ≡ length buff
  pub filled : length chars + length junk ≡ length encoded
  pub run :
      decode_field (some (length front)) (buff, front ++ (encoded ++ (0 ∷ back)))
      ≡ some (buff', front ++ (chars ++ (0 ∷ (junk ++ back))))

module _ (plain : ℕ → Bool) (h : IsPlain plain) (chars : List ℕ) (bytes : AllBytes chars) where
  write_from_lem :
      (front back : List ℕ)
      → write_from (front ++ (encode plain chars ++ (0 ∷ back))) (length front) (chars ++ (0 ∷ []))
        ≡ some (
            front
            ++ (chars ++ (0 ∷ (drop (length chars + 1) (encode plain chars ++ (0 ∷ [])) ++ back))))
  unfolding write_from
  write_from_lem front back =
      let fits : leb (length front + length (chars ++ (0 ∷ [])))
            (length (front ++ (encode plain chars ++ (0 ∷ back))))
          ≡ true =
        ground (
          arith,
          length-append chars (0 ∷ []),
          length-append front (encode plain chars ++ (0 ∷ back)),
          length-append (encode plain chars) (0 ∷ back),
          length-encode plain chars,
        ) in
      let behind : drop (length front + length (chars ++ (0 ∷ [])))
            (front ++ (encode plain chars ++ (0 ∷ back)))
          ≡ drop (length chars + 1) (encode plain chars ++ (0 ∷ [])) ++ back =
        drop_add front (encode plain chars ++ (0 ∷ back)) (length (chars ++ (0 ∷ [])))
        ∙ ap₂ drop (length-append chars (0 ∷ []))
            (sym (append_assoc (encode plain chars) (0 ∷ []) back))
        ∙ drop-append_le (length chars + 1) (encode plain chars ++ (0 ∷ [])) back (
            omega
              (arith, length-append (encode plain chars) (0 ∷ []), length-encode plain chars)) in
      rw (fits, take-append_self front (encode plain chars ++ (0 ∷ back)), behind)
        (ap (λ o. some (front ++ o)) (append_assoc chars (0 ∷ []) _))

  pub decode_field_lem :
      (front back buff : List ℕ)
      → IsText (encode plain chars)
      → length (encode plain chars) < length buff
      → Decoded front (encode plain chars) chars back buff
  unfolding decode_field
  decode_field_lem front back buff text room = record {
    buff' = encode plain chars ++ (0 ∷ drop (length (encode plain chars) + 1) buff);
    junk = drop (length chars + 1) (encode plain chars ++ (0 ∷ []));
    sized = omega (
      arith,
      length-append (encode plain chars) (0 ∷ drop (length (encode plain chars) + 1) buff),
      length-drop (length (encode plain chars) + 1) buff,
    );
    filled = omega (
      arith,
      length-drop (length chars + 1) (encode plain chars ++ (0 ∷ [])),
      length-append (encode plain chars) (0 ∷ []),
      length-encode plain chars,
    );
    run =
        rw
          (
            drop-append_self front (encode plain chars ++ (0 ∷ back)),
            strcpy_lem buff (encode plain chars) back text room,
            pct_decode-encode plain chars (drop (length (encode plain chars) + 1) buff) h bytes,
            write_from_lem front back,
          )
          refl;
  }
