-- ===== src/Coroutine/Rows.antt =====
-- The slots of the scheduler as lists: a list put, reversed, in front of another, and a list's last item.
use mathlib.Core.List.{reverse, reverse_aux, reverse_aux-eq, append-nil}
use moonsugar.Prelude.{
  ℕ, suc, ◌+◌, ◌≡◌, refl, ap, ◌∙◌, sym, arith, List, [], ◌∷◌, ◌++◌, length, get_elem?,
  set as set_elem, inl, inr, ◌⊎◌,
}

module _ {A : Type 0} where
  -- `rs`, the last one first, in front of `tail`.
  abbrev pub onto : List A → List A → List A
  onto [] tail = tail
  onto (r ∷ rs) tail = onto rs (r ∷ tail)

  pub get_elem?-onto :
      (rs tail : List A) (k : ℕ) → get_elem? (onto rs tail) (length rs + k) ≡ get_elem? tail k
  get_elem?-onto [] tail k = ap (get_elem? tail) (omega arith)
  get_elem?-onto (r ∷ rs) tail k =
      ap (get_elem? (onto rs (r ∷ tail))) (omega arith) ∙ get_elem?-onto rs (r ∷ tail) (suc k)

  pub set-onto :
      (rs tail : List A) (k : ℕ) (x : A)
      → set_elem (onto rs tail) (length rs + k) x ≡ onto rs (set_elem tail k x)
  set-onto [] tail k x = ap (λ i. set_elem tail i x) (omega arith)
  set-onto (r ∷ rs) tail k x =
      ap (λ i. set_elem (onto rs (r ∷ tail)) i x) (omega arith) ∙ set-onto rs (r ∷ tail) (suc k) x

  pub onto-reverse : (rs tail : List A) → onto rs tail ≡ reverse rs ++ tail
  onto-reverse rs tail = by_aux rs tail ∙ reverse_aux-eq rs tail
    where
      by_aux : (rs tail : List A) → onto rs tail ≡ reverse_aux rs tail
      by_aux [] tail = refl
      by_aux (r ∷ rs) tail = by_aux rs (r ∷ tail)

  -- A list is empty or ends in an item.
  abbrev pub Snoc : List A → Type 0
  Snoc xs = (xs ≡ []) ⊎ ((front : List A) × (last : A) × (xs ≡ front ++ (last ∷ [])))

  pub Snoc-cases : (xs : List A) → Snoc xs
  Snoc-cases [] = inl refl
  Snoc-cases (x ∷ xs) = elim (Snoc-cases xs) [
    | inl e ↦ inr ([], x, ap (◌∷◌ x) e)
    | inr (front, last, e) ↦ inr (x ∷ front, last, ap (◌∷◌ x) e)
  ]

  pub get_elem?-append :
      (xs ys : List A) (k : ℕ) → get_elem? (xs ++ ys) (length xs + k) ≡ get_elem? ys k
  get_elem?-append [] ys k = ap (get_elem? ys) (omega arith)
  get_elem?-append (x ∷ xs) ys k =
      ap (get_elem? (x ∷ (xs ++ ys))) (over (length xs) k) ∙ get_elem?-append xs ys k
    where
      over : (n k : ℕ) → suc n + k ≡ suc (n + k)
      over n k = omega arith

  length-onto : (rs tail : List A) → length (onto rs tail) ≡ length rs + length tail
  length-onto [] tail = omega arith
  length-onto (r ∷ rs) tail = omega (arith, length-onto rs (r ∷ tail))

  pub length-reverse : (xs : List A) → length (reverse xs) ≡ length xs
  length-reverse xs =
      ap length (sym (append-nil (reverse xs)) ∙ sym (onto-reverse xs []))
      ∙ length-onto xs []
      ∙ plus_zero
    where
      plus_zero : length xs + 0 ≡ length xs
      plus_zero = omega arith

  -- Writing the slot behind `xs`.
  pub set-behind :
      (xs ys : List A) (y z : A) → set_elem (xs ++ (y ∷ ys)) (length xs) z ≡ (xs ++ (z ∷ [])) ++ ys
  set-behind [] ys y z = refl
  set-behind (x ∷ xs) ys y z = ap (◌∷◌ x) (set-behind xs ys y z)
