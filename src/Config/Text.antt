-- ===== src/Config/Text.antt =====
-- Strings in the memory of the parser: where the scans stop.

use moonsugar.Prelude.{
  ℕ, zero, suc, ◌+◌, ◌-◌, ◌<◌, ◌≡◌, ◌≢◌, refl, ap, ◌∙◌, arith, true, false, none, some, List, [],
  ◌∷◌, ◌++◌, length, get_or, set as set_elem, drop, replicate, ◌==◌,
}
use moonsugar.Config.{is_blank, find_non_blank, find_blank, string_length, string_at, string_copy}

-- Characters of a word, of a text, and blanks.
abbrev pub IsWord : List ℕ → Type 0
IsWord [] = Unit
IsWord (c ∷ cs) = (c ≢ 0) × (is_blank c ≡ false) × IsWord cs

abbrev pub IsText : List ℕ → Type 0
IsText [] = Unit
IsText (c ∷ cs) = (c ≢ 0) × IsText cs

abbrev pub IsBlanks : List ℕ → Type 0
IsBlanks [] = Unit
IsBlanks (c ∷ cs) = (is_blank c ≡ true) × IsBlanks cs

pub nonzero : (c : ℕ) → c ≢ 0 → (c == 0) ≡ false
nonzero c h = ground (arith, h)

pub nonzero_of_blank : (c : ℕ) → is_blank c ≡ true → c ≢ 0
nonzero_of_blank c h = ground arith

pub IsText-append : (xs ys : List ℕ) → IsText xs → IsText ys → IsText (xs ++ ys)
IsText-append [] ys h k = k
IsText-append (c ∷ xs) ys (h, t) k = (h, IsText-append xs ys t k)

pub IsWord-IsText : (xs : List ℕ) → IsWord xs → IsText xs
IsWord-IsText [] h = tt
IsWord-IsText (c ∷ xs) (h, b, t) = (h, IsWord-IsText xs t)

pub IsBlanks-IsText : (xs : List ℕ) → IsBlanks xs → IsText xs
IsBlanks-IsText [] h = tt
IsBlanks-IsText (c ∷ xs) (b, t) = (nonzero_of_blank c b, IsBlanks-IsText xs t)

add-suc_eq : (p n : ℕ) → p + 1 + n ≡ p + suc n
add-suc_eq p n = omega arith

pub find_non_blank-word :
    (blanks : List ℕ) (c : ℕ) (rest : List ℕ) (p : ℕ)
    → IsBlanks blanks
    → c ≢ 0
    → is_blank c ≡ false
    → find_non_blank (blanks ++ (c ∷ rest)) p ≡ some (some (p + length blanks))
unfolding find_non_blank
find_non_blank-word [] c rest p h nz nb =
    rw (nonzero c nz, nb) (ap (λ t. some (some t)) (omega arith))
find_non_blank-word (b ∷ blanks) c rest p (h, t) nz nb =
    rw (nonzero b (nonzero_of_blank b h), h)
      (find_non_blank-word blanks c rest (p + 1) t nz nb
        ∙ ap (λ t. some (some t)) (add-suc_eq p (length blanks)))

pub find_non_blank-none :
    (blanks rest : List ℕ) (p : ℕ)
    → IsBlanks blanks
    → find_non_blank (blanks ++ (0 ∷ rest)) p ≡ some none
unfolding find_non_blank
find_non_blank-none [] rest p h = refl
find_non_blank-none (b ∷ blanks) rest p (h, t) =
    rw (nonzero b (nonzero_of_blank b h), h) (find_non_blank-none blanks rest (p + 1) t)

pub find_blank-word :
    (word : List ℕ) (b : ℕ) (rest : List ℕ) (p : ℕ)
    → IsWord word
    → is_blank b ≡ true
    → find_blank (word ++ (b ∷ rest)) p ≡ some (some (p + length word))
unfolding find_blank
find_blank-word [] b rest p h k =
    rw (nonzero b (nonzero_of_blank b k), k) (ap (λ t. some (some t)) (omega arith))
find_blank-word (c ∷ word) b rest p (nz, nb, t) k =
    rw (nonzero c nz, nb)
      (find_blank-word word b rest (p + 1) t k
        ∙ ap (λ t. some (some t)) (add-suc_eq p (length word)))

pub find_blank-none :
    (word rest : List ℕ) (p : ℕ) → IsWord word → find_blank (word ++ (0 ∷ rest)) p ≡ some none
unfolding find_blank
find_blank-none [] rest p h = refl
find_blank-none (c ∷ word) rest p (nz, nb, t) =
    rw (nonzero c nz, nb) (find_blank-none word rest (p + 1) t)

pub string_length-text :
    (text rest : List ℕ) → IsText text → string_length (text ++ (0 ∷ rest)) ≡ some (length text)
unfolding string_length
string_length-text [] rest h = refl
string_length-text (c ∷ text) rest (nz, t) = rw (nonzero c nz, string_length-text text rest t) refl

pub string_at-text : (text rest : List ℕ) → IsText text → string_at (text ++ (0 ∷ rest)) ≡ some text
unfolding string_at
string_at-text [] rest h = refl
string_at-text (c ∷ text) rest (nz, t) = rw (nonzero c nz, string_at-text text rest t) refl

-- What `strncpy` leaves of a string that is shorter than the buffer.
pub string_copy-text :
    (n : ℕ) (text rest : List ℕ)
    → IsText text
    → length text < n
    → string_copy n (text ++ (0 ∷ rest)) ≡ some (text ++ (0 ∷ replicate (n - length text - 1) 0))
unfolding string_copy
string_copy-text zero text rest h less = elim less [ ]
string_copy-text (suc n) [] rest h less = ap (λ t. some (0 ∷ replicate t 0)) (omega arith)
string_copy-text (suc n) (c ∷ text) rest (nz, t) less =
    rw (nonzero c nz, string_copy-text n text rest t (omega (arith, less)))
      (ap (λ k. some (c ∷ (text ++ (0 ∷ replicate k 0)))) (omega arith))

module _ {ℓ} {A : Type ℓ} where
  pub drop-append_self : (xs ys : List A) → drop (length xs) (xs ++ ys) ≡ ys
  drop-append_self [] ys = refl
  drop-append_self (x ∷ xs) ys = drop-append_self xs ys

  pub set-append_self :
      (xs : List A) (y z : A) (ys : List A)
      → set_elem (xs ++ (y ∷ ys)) (length xs) z ≡ xs ++ (z ∷ ys)
  set-append_self [] y z ys = refl
  set-append_self (x ∷ xs) y z ys = ap (◌∷◌ x) (set-append_self xs y z ys)

  pub get_or-append_self :
      (xs : List A) (y : A) (ys : List A) (d : A) → get_or (xs ++ (y ∷ ys)) (length xs) d ≡ y
  get_or-append_self [] y ys d = refl
  get_or-append_self (x ∷ xs) y ys d = get_or-append_self xs y ys d
