-- ===== src/Uri/Percent.antt =====
-- Percent-encoding: a reference encoder, and what `pct_decode` makes of it.
use moonsugar.Prelude.{
  ℕ, ◌+◌, ◌-◌, ◌*◌, ◌<◌, ◌/◌, ◌%◌, ◌≡◌, ◌≢◌, refl, ap, ap₂, ◌∙◌, arith, Bool, true, false,
  Bool-cases, inl, inr, some, List, [], ◌∷◌, ◌++◌, ltb, ◌==◌, if◌then◌else◌, ◌>>=◌,
}
use moonsugar.Uri.{h2i, pct_decode}

abbrev pub hex_digit : ℕ → ℕ
hex_digit d = if ltb d 10 then b'0' + d else b'A' + (d - 10)

-- The characters for which `plain` holds stand for themselves; any other is written with its two digits.
unfoldable pub encode : (ℕ → Bool) → List ℕ → List ℕ
encode plain [] = []
encode plain (c ∷ cs) =
    let rest = encode plain cs in
    if plain c then c ∷ rest else b'%' ∷ hex_digit (c / 16) ∷ hex_digit (c % 16) ∷ rest

-- A choice of characters that can stand for themselves.
abbrev pub IsPlain : (ℕ → Bool) → Type 0
IsPlain plain = (c : ℕ) → plain c ≡ true → (c ≢ 0) × (c ≢ b'%')

abbrev pub AllBytes : List ℕ → Type 0
AllBytes [] = Unit
AllBytes (c ∷ cs) = (c < 256) × AllBytes cs

h2i-hex_digit : (d : ℕ) → d < 16 → h2i (hex_digit d) ≡ d
unfolding h2i
h2i-hex_digit d h = ground arith

two_digits :
    (c : ℕ) → c < 256 → (h2i (hex_digit (c / 16)) * 16 + h2i (hex_digit (c % 16))) % 256 ≡ c
two_digits c h =
    rw (h2i-hex_digit (c / 16) (omega arith), h2i-hex_digit (c % 16) (omega arith)) (omega arith)

pct_decode-plain :
    (c : ℕ) (cs : List ℕ)
    → c ≢ 0
    → c ≢ b'%'
    → pct_decode (c ∷ cs) ≡ (pct_decode cs >>= λ s. some (c ∷ s))
unfolding pct_decode
pct_decode-plain c [] nz np = ground arith
pct_decode-plain c (a ∷ []) nz np =
    let z : (c == 0) ≡ false = ground arith in
    let p : (c == b'%') ≡ false = ground arith in rw (z, p) refl
pct_decode-plain c (a ∷ b ∷ cs) nz np =
    let z : (c == 0) ≡ false = ground arith in
    let p : (c == b'%') ≡ false = ground arith in rw (z, p) refl

pct_decode-escape :
    (a b : ℕ) (cs : List ℕ)
    → pct_decode (b'%' ∷ a ∷ b ∷ cs)
      ≡ (pct_decode cs >>= λ s. some ((h2i a * 16 + h2i b) % 256 ∷ s))
unfolding pct_decode
pct_decode-escape a b cs = refl

pct_decode-nul : (rest : List ℕ) → pct_decode (0 ∷ rest) ≡ some (0 ∷ [])
unfolding pct_decode
pct_decode-nul [] = refl
pct_decode-nul (a ∷ []) = refl
pct_decode-nul (a ∷ b ∷ cs) = refl

-- `pct_decode` gives back the bytes that were encoded, whichever characters were left to stand for themselves, and
-- writes a NUL behind them; nothing behind the NUL of the encoded text matters.
pub pct_decode-encode :
    (plain : ℕ → Bool) (chars rest : List ℕ)
    → IsPlain plain
    → AllBytes chars
    → pct_decode (encode plain chars ++ (0 ∷ rest)) ≡ some (chars ++ (0 ∷ []))
unfolding encode
pct_decode-encode plain [] rest h bytes = pct_decode-nul rest
pct_decode-encode plain (c ∷ cs) rest h (byte, bytes) =
    let others = pct_decode-encode plain cs rest h bytes in
    elim (Bool-cases (plain c)) [
      | inl kept ↦
          let (nz, np) = h c kept in
          rw kept (
            pct_decode-plain c (encode plain cs ++ (0 ∷ rest)) nz np
            ∙ ap (λ o. o >>= λ s. some (c ∷ s)) others)
      | inr escaped ↦ rw escaped (
          pct_decode-escape (hex_digit (c / 16)) (hex_digit (c % 16))
            (encode plain cs ++ (0 ∷ rest))
          ∙ ap₂ (λ d o. o >>= λ s. some (d ∷ s)) (two_digits c byte) others)
    ]
