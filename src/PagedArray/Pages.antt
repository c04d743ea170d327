-- ===== src/PagedArray/Pages.antt =====
-- The pages of an array: what an item appended to the last of them, or a new page, changes.
use moonsugar.Prelude.{
  ℕ, zero, suc, ◌+◌, ◌*◌, ◌<◌, ◌≡◌, refl, ap, ◌∙◌, arith, Bool, true, false, none, some, List, [],
  ◌∷◌, ◌++◌, length, get_elem?, u32, ltb, if◌then◌else◌, ◌>>=◌,
}
use moonsugar.PagedArray.{Page, put, append_last, last_count}

module _ {ℓ} {A : Type ℓ} where
  -- Every page but the last is full.
  abbrev pub AllFull : ℕ → List (Page A) → Type 0
  AllFull capacity [] = Unit
  AllFull capacity (page ∷ pages) = (page.count ≡ capacity) × AllFull capacity pages

  pub AllFull-snoc :
      (capacity : ℕ) (pages : List (Page A)) (page : Page A)
      → AllFull capacity pages
      → page.count ≡ capacity
      → AllFull capacity (pages ++ (page ∷ []))
  AllFull-snoc capacity [] page full e = (e, tt)
  AllFull-snoc capacity (p ∷ pages) page (h, full) e = (h, AllFull-snoc capacity pages page full e)

  bind_if :
      (test : Bool) (page : Page A) (pages : List (Page A))
      → ((if test then some pages else none) >>= λ rest. some (page ∷ rest))
        ≡ (if test then some (page ∷ pages) else none)
  bind_if true page pages = refl
  bind_if false page pages = refl

  pub append_last-snoc :
      (capacity item_size : ℕ) (front : List (Page A)) (page : Page A) (value : A)
      → append_last capacity item_size (front ++ (page ∷ [])) value ≡ (
          if ltb page.count capacity
          then some (
              front
              ++ (put
                    (record page { count = u32 (page.count + 1) })
                    (u32 (item_size * page.count))
                    value
                  ∷ []))
          else none)
  unfolding append_last
  append_last-snoc capacity item_size [] page value = refl
  append_last-snoc capacity item_size (p ∷ []) page value =
      bind_if (ltb page.count capacity) p (
        put (record page { count = u32 (page.count + 1) }) (u32 (item_size * page.count)) value
        ∷ [])
  append_last-snoc capacity item_size (p ∷ q ∷ front) page value =
      ap (λ t. t >>= λ rest. some (p ∷ rest))
        (append_last-snoc capacity item_size (q ∷ front) page value)
      ∙ bind_if (ltb page.count capacity) p (
          q
          ∷ (front
              ++ (put (record page { count = u32 (page.count + 1) }) (u32 (item_size * page.count))
                    value
                  ∷ [])))

  pub last_count-snoc :
      (front : List (Page A)) (page : Page A) → last_count (front ++ (page ∷ [])) ≡ page.count
  unfolding last_count
  last_count-snoc [] page = refl
  last_count-snoc (p ∷ []) page = refl
  last_count-snoc (p ∷ q ∷ front) page = last_count-snoc (q ∷ front) page

  -- The pages by their numbers.
  pub get_elem?-snoc :
      (front : List (Page A)) (page : Page A)
      → get_elem? (front ++ (page ∷ [])) (length front) ≡ some page
  get_elem?-snoc [] page = refl
  get_elem?-snoc (p ∷ front) page = get_elem?-snoc front page

  pub get_elem?-front :
      (front back : List (Page A)) (i : ℕ)
      → i < length front
      → get_elem? (front ++ back) i ≡ get_elem? front i
  get_elem?-front [] back i h = absurd (omega (arith, h))
  get_elem?-front (p ∷ front) back zero h = refl
  get_elem?-front (p ∷ front) back (suc i) h = get_elem?-front front back i (omega (arith, h))
