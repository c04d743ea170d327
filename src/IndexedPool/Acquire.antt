-- ===== src/IndexedPool/Acquire.antt =====
-- `ms_ipool_acquire`: it hands out a free item, or says that there is none.
use moonsugar.Prelude.{
  ℕ, zero, suc, ◌+◌, ◌-◌, ◌*◌, ◌/◌, ◌%◌, ◌^◌, ◌≤◌, ◌<◌, ◌≡◌, ◌≢◌, ◌⊎◌, inl, inr, refl, ap, ◌∙◌,
  arith, bit, bit_or, false, Option, some, ◌==◌, if◌then◌else◌, lt→ltb, dec_lt, ℕ_discrete, u32,
  u32_max, length, List, get_elem?, get_or, set as set_elem, length-set, get_or-set,
  get_elem?-eq-get_or,
}
use moonsugar.Bits.{bit-set, bit-complement, bit-zero, bit_or-lt}
use moonsugar.Util.Align.{two-pow-lt}
use moonsugar.IndexedPool.{IndexedPool, state_full, find_block_offset, try_acquire, scan, acquire}
use moonsugar.IndexedPool.Block.{find_block_offset_lem}

pub record IsValid (p : IndexedPool) : Type 0 where
  pub sized : length p.state ≡ p.item_count / 64
  pub multiple : p.item_count % 64 ≡ 0
  pub small : p.item_count < 2 ^ 32
  pub words : (i : ℕ) → get_or p.state i 0 < 2 ^ 64
  pub from : p.last_state ≤ p.item_count / 64

-- 1 where the item is acquired.
abbrev pub taken : IndexedPool → ℕ → ℕ
taken p item = bit (get_or p.state (item / 64) 0) (item % 64)

-- What a successful acquisition has done: the item was free, it is taken now, and no other item
-- changed.
pub record Acquired (p : IndexedPool) (out : Option (ℕ × IndexedPool)) : Type 0 where
  pub item : ℕ
  pub after : IndexedPool
  pub run : out ≡ some (item, after)
  pub inside : item < p.item_count
  pub free : taken p item ≡ 0
  pub bits : (j : ℕ) → taken after j ≡ (if j == item then 1 else taken p j)
  pub valid : IsValid after

-- The bits of a bitmap after one of them is set.
set_item :
    (ws : List ℕ) (i offset j : ℕ)
    → i < length ws
    → offset < 64
    → bit (get_or (set_elem ws i (bit_or (get_or ws i 0) (2 ^ offset))) (j / 64) 0) (j % 64)
      ≡ (if j == i * 2 ^ 6 + offset then 1 else bit (get_or ws (j / 64) 0) (j % 64))
set_item ws i offset j h small = elim (ℕ_discrete (j / 64) i) [
  | yes e ↦ ground (
    arith,
    get_or-set ws i (j / 64) (bit_or (get_or ws i 0) (2 ^ offset)) 0 h,
    bit-set (get_or ws i 0) offset (j % 64),
    ap (λ t. bit (get_or ws t 0) (j % 64)) e,
  )
  | no ne ↦ ground (arith, ne, get_or-set ws i (j / 64) (bit_or (get_or ws i 0) (2 ^ offset)) 0 h)
]

module _ {p : IndexedPool} (v : IsValid p) (i : ℕ) (inside : i < p.item_count / 64) where
  block : ℕ
  block = get_or p.state i 0

  read_block : get_elem? p.state i ≡ some (get_or p.state i 0)
  read_block = get_elem?-eq-get_or p.state i 0 (omega (arith, v.sized, inside))

  try_acquire-full :
      get_or p.state i 0 ≡ state_full
      → (try_acquire p i ≡ some (u32_max, p)) × ((k : ℕ) → k < 64 → bit (get_or p.state i 0) k ≡ 1)
  unfolding try_acquire
  try_acquire-full e = (
    rw read_block (ground (arith, e)),
    λ k h. rw e (omega (arith, bit-complement 64 0 k (omega arith) h, bit-zero k)),
  )

  try_acquire-Acquired : get_or p.state i 0 ≢ state_full → Acquired p (try_acquire p i)
  unfolding try_acquire
  try_acquire-Acquired ne = record {
    item = item;
    after = after;
    run = rw (read_block, partial, lt→ltb _ _ found.0, whole) refl;
    inside = inside_lem;
    free = ap (λ t. bit (get_or p.state t 0) (item % 64)) at_block ∙ ap (bit w) at_offset ∙ found.1;
    bits = bits_lem;
    valid = record {
      sized = length-set p.state i set_word ∙ v.sized;
      multiple = v.multiple;
      small = v.small;
      words = words_lem;
      from = omega (arith, inside);
    };
  }
    where
      w : ℕ
      w = get_or p.state i 0

      found : (find_block_offset w < 64) × (bit w (find_block_offset w) ≡ 0)
      found = find_block_offset_lem w (v.words i) ne

      item : ℕ
      item = i * 2 ^ 6 + find_block_offset w

      set_word : ℕ
      set_word = bit_or w (2 ^ find_block_offset w)

      after : IndexedPool
      after = record p { state = set_elem p.state i set_word; last_state = i }

      partial : (w == state_full) ≡ false
      partial = ground (arith, ne)

      inside_lem : item < p.item_count
      inside_lem = omega (arith, found, inside, v.multiple)

      whole : u32 item ≡ item
      whole = omega (arith, inside_lem, v.small)

      at_block : item / 64 ≡ i
      at_block = omega (arith, found)

      at_offset : item % 64 ≡ find_block_offset w
      at_offset = omega (arith, found)

      bits_lem : (j : ℕ) → taken after j ≡ (if j == item then 1 else taken p j)
      bits_lem j =
          set_item p.state i (find_block_offset w) j (omega (arith, v.sized, inside)) found.0

      words_lem : (k : ℕ) → get_or (set_elem p.state i set_word) k 0 < 2 ^ 64
      words_lem k = ground (
        arith,
        get_or-set p.state i k set_word 0 (omega (arith, v.sized, inside)),
        v.words k,
        bit_or-lt 64 w (2 ^ find_block_offset w) (v.words i) (two-pow-lt _ 64 found.0).1,
      )

  -- One block: it hands out its lowest free item, unless it is full.
  try_acquire_cases :
      Acquired p (try_acquire p i)
      ⊎ ((try_acquire p i ≡ some (u32_max, p))
          × ((k : ℕ) → k < 64 → bit (get_or p.state i 0) k ≡ 1))
  try_acquire_cases = elim (ℕ_discrete (get_or p.state i 0) state_full) [
    | yes e ↦ inr (try_acquire-full e)
    | no ne ↦ inl (try_acquire-Acquired ne)
  ]

module _ {p : IndexedPool} (v : IsValid p) where
  -- What an acquisition returns is no error value.
  item-ne-max : (item : ℕ) → item < p.item_count → (item == u32_max) ≡ false
  item-ne-max item h = ground (arith, v.small, v.multiple)

  scan_cases :
      (rounds i : ℕ)
      → i + rounds ≤ p.item_count / 64
      → Acquired p (scan rounds i p)
        ⊎ ((scan rounds i p ≡ some (u32_max, p))
            × ((j : ℕ) → i ≤ j / 64 → j / 64 < i + rounds → taken p j ≡ 1))
  unfolding scan
  scan_cases zero i h = inr (refl, λ j a b. absurd (omega arith))
  scan_cases (suc rounds) i h = elim (try_acquire_cases v i (omega arith)) [
    | inl got ↦ inl (record {
      item = got.item;
      after = got.after;
      run = rw (got.run, item-ne-max got.item got.inside) refl;
      inside = got.inside;
      free = got.free;
      bits = got.bits;
      valid = got.valid;
    })
    | inr (full, ones) ↦ elim (scan_cases rounds (i + 1) (omega arith)) [
      | inl got ↦ inl (rw full got)
      | inr (nothing, others) ↦ inr (
        rw full nothing,
        λ j a b. elim (ℕ_discrete (j / 64) i) [
          | yes e ↦ ap (λ t. bit (get_or p.state t 0) (j % 64)) e ∙ ones (j % 64) (omega arith)
          | no ne ↦ others j (omega (arith, ne)) (omega arith)
        ],
      )
    ]
  ]

  -- On a valid pool `ms_ipool_acquire` never goes out of bounds. It either takes a free item of the
  -- pool and changes no other, or it returns UINT32_MAX, changes nothing, and every item is taken.
  pub acquire_cases :
      Acquired p (acquire p)
      ⊎ ((acquire p ≡ some (u32_max, p)) × ((j : ℕ) → j < p.item_count → taken p j ≡ 1))
  unfolding acquire
  acquire_cases = elim (scan_cases (p.item_count / 64 - p.last_state) p.last_state ends) [
    | inl got ↦ inl (record {
      item = got.item;
      after = got.after;
      run = rw (got.run, item-ne-max got.item got.inside) refl;
      inside = got.inside;
      free = got.free;
      bits = got.bits;
      valid = got.valid;
    })
    | inr (none_above, above) ↦ elim (scan_cases p.last_state 0 below_end) [
      | inl got ↦ inl (rw none_above got)
      | inr (none_below, below) ↦ inr (
        rw none_above none_below,
        λ j h. elim (dec_lt (j / 64) p.last_state) [
          | yes under ↦ below j (omega arith) (omega arith)
          | no over ↦ above j (omega (arith, over)) (omega (arith, v.from, v.multiple))
        ],
      )
    ]
  ]
    where
      ends : p.last_state + (p.item_count / 64 - p.last_state) ≤ p.item_count / 64
      ends = omega (arith, v.from)

      below_end : 0 + p.last_state ≤ p.item_count / 64
      below_end = omega (arith, v.from)
