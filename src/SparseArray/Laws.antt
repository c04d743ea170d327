-- ===== src/SparseArray/Laws.antt =====
-- What `ms_sparray_get_ptr` promises: a pointer that stays, with its page allocated once.
use native.Mathlib.Nat.{div-le_self}
use moonsugar.Prelude.{
  ℕ, ◌+◌, ◌*◌, ◌/◌, ◌%◌, ◌^◌, ◌≤◌, ◌<◌, ◌≡◌, ◌≢◌, ◌⊎◌, inl, inr, refl, ap, ◌∙◌, sym, arith, Bool,
  true, false, Option, none, some, List, [], ◌∷◌, length, u32, u64, leb, if◌then◌else◌, dec_lt,
}
use moonsugar.Api.{Allocator, null}
use moonsugar.SparseArray.{SparseArray, resize_pages, page_of, get_ptr}
use moonsugar.SparseArray.Pages.{IsValid, page_at, Grown, Page, resize_pages_cases, page_of_cases}

-- What a lookup that does not fail has done.
pub record Got (array : SparseArray) (index : ℕ) (out : Option (Option ℕ × SparseArray × List ℕ))
    : Type 0 where
  pub items : ℕ
  pub after : SparseArray
  pub initialised : List ℕ
  pub run :
      out
      ≡ some (
        some (u64 (items + u32 (index % array.items_per_page * array.item_size))),
        after,
        initialised,
      )
  pub valid : IsValid after
  pub per_page : after.items_per_page ≡ array.items_per_page
  pub size : after.item_size ≡ array.item_size
  pub reached : index / array.items_per_page < after.page_count
  pub allocated : items ≢ null
  pub there : page_at after (index / array.items_per_page) ≡ items
  pub others : (k : ℕ) → k ≢ index / array.items_per_page → page_at after k ≡ page_at array k
  pub once :
      page_at array (index / array.items_per_page) ≢ null
      → (items ≡ page_at array (index / array.items_per_page)) × (initialised ≡ [])
  pub first :
      page_at array (index / array.items_per_page) ≡ null
      → initialised ≡ (if array.has_initializer then items ∷ [] else [])

-- The first step of `ms_sparray_get_ptr`.
abbrev room_for : Allocator → List ℕ → SparseArray → ℕ → Option (Bool × SparseArray)
room_for a fresh array index =
    if leb array.page_count (index / array.items_per_page)
    then resize_pages a fresh array (u32 (index / array.items_per_page + 1))
    else some (true, array)

module _ (a : Allocator) (fresh : List ℕ) {array : SparseArray} (v : IsValid array)
    (index : ℕ) where
  abbrev Outcome : Type 0
  Outcome =
      ((after : SparseArray) × (get_ptr a fresh array index ≡ some (none, after, [])))
      ⊎ Got array index (get_ptr a fresh array index)

  get_ptr_no_room :
      (after : SparseArray)
      → room_for a fresh array index ≡ some (false, after)
      → get_ptr a fresh array index ≡ some (none, after, [])
  unfolding get_ptr
  get_ptr_no_room after e = rw e refl

  get_ptr_no_page :
      (g : SparseArray)
      → room_for a fresh array index ≡ some (true, g)
      → page_of a fresh g (index / array.items_per_page) ≡ some (none, g, [])
      → get_ptr a fresh array index ≡ some (none, g, [])
  unfolding get_ptr
  get_ptr_no_page g e f = rw (e, f) refl

  get_ptr-Got :
      (n : ℕ) (g : SparseArray)
      → room_for a fresh array index ≡ some (true, g)
      → Grown array n g
      → index / array.items_per_page < n
      → Page g (index / array.items_per_page) (page_of a fresh g (index / array.items_per_page))
      → Got array index (get_ptr a fresh array index)
  unfolding get_ptr
  get_ptr-Got n g e grown reached page = record {
    items = page.items;
    after = page.after;
    initialised = page.initialised;
    run = rw (e, page.run) refl;
    valid = page.valid;
    per_page = page.per_page ∙ grown.per_page;
    size = page.size ∙ grown.size;
    reached = omega (arith, page.count, grown.count);
    allocated = page.allocated;
    there = page.there;
    others = λ k ne. page.others k ne ∙ grown.kept k;
    once = λ old.
        let (same, none_called) = page.once (λ h. old (sym (grown.kept pi) ∙ h)) in
        (same ∙ grown.kept pi, none_called);
    first = λ missing.
        page.first (grown.kept pi ∙ missing)
        ∙ ap (λ t. if t then page.items ∷ [] else []) grown.initializer;
  }
    where
      pi : ℕ
      pi = index / array.items_per_page

  in_room :
      (n : ℕ) (g : SparseArray)
      → room_for a fresh array index ≡ some (true, g)
      → Grown array n g
      → index / array.items_per_page < n
      → Outcome
  in_room n g e grown reached =
      elim (page_of_cases a fresh grown.valid (index / array.items_per_page)
        (omega (arith, grown.count))) [
          | inl failed ↦ inl (g, get_ptr_no_page g e failed)
          | inr page ↦ inr (get_ptr-Got n g e grown reached page)
        ]

  -- `ms_sparray_get_ptr` never leaves the list of pages. It returns NULL and initialises nothing, or it
  -- returns the pointer into the page of the index: a page that was there is kept and not initialised
  -- again, a missing one is allocated and handed to the initialiser once, and no other page changes.
  pub get_ptr_cases :
      index + 1 < 2 ^ 32
      → index / array.items_per_page < array.page_count + length fresh
      → ((after : SparseArray) × (get_ptr a fresh array index ≡ some (none, after, [])))
        ⊎ Got array index (get_ptr a fresh array index)
  get_ptr_cases word given = elim (dec_lt (index / array.items_per_page) array.page_count) [
    | yes there ↦
        in_room array.page_count array (ground (arith, there))
          (record {
            valid = v;
            count = refl;
            per_page = refl;
            size = refl;
            initializer = refl;
            kept = λ k. refl;
          })
          there
    | no beyond ↦
        let grow = e beyond in
        elim (resize_pages_cases a fresh v (index / array.items_per_page + 1)
          (omega (arith, beyond)) (omega arith)) [
            | inl (after, failed) ↦ inl (after, get_ptr_no_room after (grow ∙ failed))
            | inr (g, done, grown) ↦
                in_room (index / array.items_per_page + 1) g (grow ∙ done) grown (omega arith)
          ]
  ]
    where
      small : index / array.items_per_page ≤ index
      small = div-le_self index array.items_per_page

      e :
          ¬ (index / array.items_per_page < array.page_count)
          → room_for a fresh array index
            ≡ resize_pages a fresh array (index / array.items_per_page + 1)
      e beyond =
          let past : leb array.page_count (index / array.items_per_page) ≡ true =
            ground (arith, beyond) in
          let plain : u32 (index / array.items_per_page + 1) ≡ index / array.items_per_page + 1 =
            omega (arith, small) in
          rw (past, plain) refl
