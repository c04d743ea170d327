-- ===== src/PagedArray/Contents.antt =====
-- The items of a paged array as one list.
use native.Mathlib.Nat.{div-eq_of_lt, mod-eq_of_lt, div-add-mod, mod-lt, mul-suc}
use moonsugar.Prelude.{
  ℕ, zero, suc, ◌+◌, ◌-◌, ◌*◌, ◌/◌, ◌%◌, ◌≤◌, ◌<◌, ◌≡◌, refl, ap, ap₂, ◌∙◌, sym, arith, some,
  Option, List, [], ◌∷◌, ◌++◌, length, length-append, get_elem?, ◌>>=◌, dec_lt,
}
use moonsugar.PagedArray.{Page}
use moonsugar.PagedArray.Pages.{AllFull}
use moonsugar.PagedArray.Places.{quotient}

module _ {ℓ} {A : Type ℓ} where
  get_elem?-left :
      (xs ys : List A) (i : ℕ) → i < length xs → get_elem? (xs ++ ys) i ≡ get_elem? xs i
  get_elem?-left [] ys i h = absurd (omega (arith, h))
  get_elem?-left (x ∷ xs) ys zero h = refl
  get_elem?-left (x ∷ xs) ys (suc i) h = get_elem?-left xs ys i (omega (arith, h))

  get_elem?-right :
      (xs ys : List A) (i : ℕ)
      → length xs ≤ i
      → get_elem? (xs ++ ys) i ≡ get_elem? ys (i - length xs)
  get_elem?-right [] ys i h = ap (get_elem? ys) (omega arith)
  get_elem?-right (x ∷ xs) ys zero h = absurd (omega (arith, h))
  get_elem?-right (x ∷ xs) ys (suc i) h =
      get_elem?-right xs ys i (omega (arith, h)) ∙ ap (get_elem? ys) (omega arith)

  -- `n` items of a page from its item `r` on, each `size` bytes behind the one before.
  page_items : ℕ → Page A → ℕ → ℕ → List A
  page_items size page r zero = []
  page_items size page r (suc n) = page.items (r * size) ∷ page_items size page (r + 1) n

  length-page_items : (size : ℕ) (page : Page A) (r n : ℕ) → length (page_items size page r n) ≡ n
  unfolding page_items
  length-page_items size page r zero = refl
  length-page_items size page r (suc n) = ap suc (length-page_items size page (r + 1) n)

  get_elem?-page_items :
      (size : ℕ) (page : Page A) (r n j : ℕ)
      → j < n
      → get_elem? (page_items size page r n) j ≡ some (page.items ((r + j) * size))
  unfolding page_items
  get_elem?-page_items size page r zero j h = elim h [ ]
  get_elem?-page_items size page r (suc n) zero h =
      ap (λ k. some (page.items (k * size))) (omega arith)
  get_elem?-page_items size page r (suc n) (suc j) h =
      get_elem?-page_items size page (r + 1) n j (omega (arith, h))
      ∙ ap (λ k. some (page.items (k * size))) (omega arith)

  -- The items of all pages, as many of each as it counts.
  unfoldable pub contents : ℕ → List (Page A) → List A
  unfolding page_items
  contents size [] = []
  contents size (page ∷ pages) = page_items size page 0 page.count ++ contents size pages

  -- An item on the first page, and one behind it.
  first_page :
      (size : ℕ) (page : Page A) (pages : List (Page A)) (i : ℕ)
      → i < page.count
      → get_elem? (contents size (page ∷ pages)) i ≡ some (page.items (i * size))
  unfolding contents
  first_page size page pages i h =
      get_elem?-left (page_items size page 0 page.count) (contents size pages) i
        (omega (arith, h, length-page_items size page 0 page.count))
      ∙ get_elem?-page_items size page 0 page.count i h
      ∙ ap (λ k. some (page.items (k * size))) (omega arith)

  behind_page :
      (size : ℕ) (page : Page A) (pages : List (Page A)) (i : ℕ)
      → page.count ≤ i
      → get_elem? (contents size (page ∷ pages)) i
        ≡ get_elem? (contents size pages) (i - page.count)
  unfolding contents
  behind_page size page pages i h =
      get_elem?-right (page_items size page 0 page.count) (contents size pages) i
        (omega (arith, h, length-page_items size page 0 page.count))
      ∙ ap (λ n. get_elem? (contents size pages) (i - n)) (length-page_items size page 0 page.count)

  -- The item at the place that an index has on pages of `c` items.
  abbrev pub placed : ℕ → ℕ → List (Page A) → ℕ → Option A
  placed size c pages i = get_elem? pages (i / c) >>= λ page. some (page.items (i % c * size))

  placed-first :
      (size c : ℕ) (page : Page A) (pages : List (Page A)) (i : ℕ)
      → i < c
      → placed size c (page ∷ pages) i ≡ some (page.items (i * size))
  placed-first size c page pages i h =
      ap₂ (λ k j. get_elem? (page ∷ pages) k >>= λ page. some (page.items (j * size)))
        (div-eq_of_lt {n = i} {m = c} h) (mod-eq_of_lt {n = i} {m = c} h)

  placed-next :
      (size c : ℕ) (page : Page A) (pages : List (Page A)) (i : ℕ)
      → 0 < c
      → c ≤ i
      → placed size c (page ∷ pages) i ≡ placed size c pages (i - c)
  placed-next size c page pages i pos h =
      ap₂ (λ k j. get_elem? (page ∷ pages) k >>= λ page. some (page.items (j * size)))
        (ap (λ t. t / c) split ∙ there.0) (ap (λ t. t % c) split ∙ there.1)
    where
      split : i ≡ c * suc ((i - c) / c) + (i - c) % c
      split = omega (arith, div-add-mod (i - c) c, mul-suc c ((i - c) / c), h)

      there :
          ((c * suc ((i - c) / c) + (i - c) % c) / c ≡ suc ((i - c) / c))
          × ((c * suc ((i - c) / c) + (i - c) % c) % c ≡ (i - c) % c)
      there = quotient c (suc ((i - c) / c)) ((i - c) % c) (mod-lt (i - c) pos)

  -- Where all pages but the last are full, the place of an item follows from its index.
  pub get_elem?-contents :
      (size c : ℕ) (front : List (Page A)) (last : Page A) (i : ℕ)
      → 0 < c
      → AllFull c front
      → last.count ≤ c
      → i < c * length front + last.count
      → get_elem? (contents size (front ++ (last ∷ []))) i ≡ placed size c (front ++ (last ∷ [])) i
  get_elem?-contents size c [] last i pos full fits h =
      let less : i < last.count = omega (arith, h) in
      first_page size last [] i less
      ∙ sym (placed-first size c last [] i (omega (arith, less, fits)))
  get_elem?-contents size c (page ∷ front) last i pos (count, full) fits h = elim (dec_lt i c) [
    | yes less ↦
        first_page size page (front ++ (last ∷ [])) i (omega (arith, less, count))
        ∙ sym (placed-first size c page (front ++ (last ∷ [])) i less)
    | no more ↦
        behind_page size page (front ++ (last ∷ [])) i (omega (arith, more, count))
        ∙ ap (λ n. get_elem? (contents size (front ++ (last ∷ []))) (i - n)) count
        ∙ get_elem?-contents size c front last (i - c) pos full fits
            (omega (arith, h, more, mul-suc c (length front)))
        ∙ sym (placed-next size c page (front ++ (last ∷ [])) i pos (omega (arith, more)))
  ]

  pub length-contents :
      (size c : ℕ) (front : List (Page A)) (last : Page A)
      → AllFull c front
      → length (contents size (front ++ (last ∷ []))) ≡ c * length front + last.count
  unfolding contents
  length-contents size c [] last full = omega (
    arith,
    length-append (page_items size last 0 last.count) [],
    length-page_items size last 0 last.count,
  )
  length-contents size c (page ∷ front) last (count, full) = omega (
    arith,
    length-append (page_items size page 0 page.count) (contents size (front ++ (last ∷ []))),
    length-page_items size page 0 page.count,
    length-contents size c front last full,
    count,
    mul-suc c (length front),
  )
