-- ===== src/Uri/Scan.antt =====
-- Where the searches of src/uri.c stop, and what is left when a delimiter is overwritten.
use mathlib.Core.List.{append_assoc}
use moonsugar.Prelude.{
  ℕ, ◌+◌, ◌<◌, ◌≡◌, ◌≢◌, refl, ap, ap₂, ◌∙◌, sym, arith, true, false, none, some, List, [], ◌∷◌,
  ◌++◌, length, length-append, set as set_elem, drop, take, leb, ◌==◌,
}
use moonsugar.Config.Text.{IsText, string_at-text, drop-append_self, set-append_self}
use moonsugar.Uri.{find_from, cut, write_from, strcpy}

-- Text in which a character does not occur.
abbrev pub Lacks : ℕ → List ℕ → Type 0
Lacks c [] = Unit
Lacks c (x ∷ xs) = (x ≢ 0) × (x ≢ c) × Lacks c xs

pub Lacks-IsText : (c : ℕ) (xs : List ℕ) → Lacks c xs → IsText xs
Lacks-IsText c [] h = tt
Lacks-IsText c (x ∷ xs) (nz, nc, h) = (nz, Lacks-IsText c xs h)

pub different : (x c : ℕ) → x ≢ c → (x == c) ≡ false
different x c h = ground (arith, h)

pub find_from-hit :
    (xs rest : List ℕ) (p c : ℕ)
    → Lacks c xs
    → c ≢ 0
    → find_from (xs ++ (c ∷ rest)) p c ≡ some (some (p + length xs))
unfolding find_from
find_from-hit [] rest p c h nz =
    let same : (c == c) ≡ true = ground arith in
    rw (different c 0 nz, same) (ap (λ t. some (some t)) (omega arith))
find_from-hit (x ∷ xs) rest p c (nx, nc, h) nz =
    rw (different x 0 nx, different x c nc)
      (find_from-hit xs rest (p + 1) c h nz ∙ ap (λ t. some (some t)) (omega arith))

pub find_from-miss :
    (xs rest : List ℕ) (p c : ℕ) → Lacks c xs → find_from (xs ++ (0 ∷ rest)) p c ≡ some none
unfolding find_from
find_from-miss [] rest p c h = refl
find_from-miss (x ∷ xs) rest p c (nx, nc, h) =
    rw (different x 0 nx, different x c nc) (find_from-miss xs rest (p + 1) c h)

-- A part between `front` and its delimiter, and a part that ends the string.
pub cut-hit :
    (front xs rest : List ℕ) (c : ℕ)
    → Lacks c xs
    → c ≢ 0
    → cut (front ++ (xs ++ (c ∷ rest))) (length front) c
      ≡ some (some (length front + length xs + 1), front ++ (xs ++ (0 ∷ rest)))
unfolding cut
cut-hit front xs rest c h nz =
    rw (drop-append_self front (xs ++ (c ∷ rest)), find_from-hit xs rest (length front) c h nz)
      (ap (λ o. some (some (length front + length xs + 1), o)) overwritten)
  where
    overwritten :
        set_elem (front ++ (xs ++ (c ∷ rest))) (length front + length xs) 0
        ≡ front ++ (xs ++ (0 ∷ rest))
    overwritten =
        ap₂ (λ o n. set_elem o n 0) (sym (append_assoc front xs (c ∷ rest)))
          (sym (length-append front xs))
        ∙ set-append_self (front ++ xs) c 0 rest
        ∙ append_assoc front xs (0 ∷ rest)

pub cut-miss :
    (front xs rest : List ℕ) (c : ℕ)
    → Lacks c xs
    → cut (front ++ (xs ++ (0 ∷ rest))) (length front) c ≡ some (none, front ++ (xs ++ (0 ∷ rest)))
unfolding cut
cut-miss front xs rest c h =
    rw (drop-append_self front (xs ++ (0 ∷ rest)), find_from-miss xs rest (length front) c h) refl

module _ {ℓ} {A : Type ℓ} where
  pub take-append_self : (xs ys : List A) → take (length xs) (xs ++ ys) ≡ xs
  take-append_self [] ys = refl
  take-append_self (x ∷ xs) ys = ap (◌∷◌ x) (take-append_self xs ys)

-- `strcpy` of a text that the buffer has room for.
pub strcpy_lem :
    (out text rest : List ℕ)
    → IsText text
    → length text < length out
    → strcpy out (text ++ (0 ∷ rest)) ≡ some (text ++ (0 ∷ drop (length text + 1) out))
unfolding strcpy write_from
strcpy_lem out text rest h room =
    let fits : leb (0 + length (text ++ (0 ∷ []))) (length out) ≡ true =
      ground (arith, length-append text (0 ∷ [])) in
    rw (string_at-text text rest h, fits)
      (ap₂ (λ o n. some (o ++ drop n out)) refl (omega (arith, length-append text (0 ∷ [])))
        ∙ ap some (append_assoc text (0 ∷ []) (drop (length text + 1) out)))
