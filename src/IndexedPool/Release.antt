-- ===== src/IndexedPool/Release.antt =====
-- `ms_ipool_release` and `ms_ipool_construct`.
use moonsugar.Prelude.{
  ℕ, suc, ◌+◌, ◌*◌, ◌/◌, ◌%◌, ◌^◌, ◌≤◌, ◌<◌, ◌≡◌, ◌≢◌, refl, ap, ◌∙◌, sym, arith, bit, bit_and,
  false, none, some, ◌==◌, if◌then◌else◌, ltb, lt→ltb, ℕ_discrete, List, length, get_elem?, get_or,
  set as set_elem, length-set, get_or-set, get_elem?-eq-get_or, u32, sub32, replicate,
  length-replicate, get_or-replicate,
}
use moonsugar.Api.{success, invalid_argument, Allocator}
use moonsugar.Bits.{bit-clear, bit_and-le, bit_and-mask, bit_and-two-pow, bit-le-one, bit-zero}
use moonsugar.Util.{complement64}
use moonsugar.Util.Align.{two-pow-lt}
use moonsugar.IndexedPool.{IndexedPool, construct, release, state_block_count}
use moonsugar.IndexedPool.Acquire.{IsValid, taken}

offset_of : (item : ℕ) → bit_and item 0xffffff ≡ item % 2 ^ 24
offset_of item = bit_and-mask 24 item

-- The bits of a bitmap after one of them is cleared.
clear_item :
    (ws : List ℕ) (i offset j : ℕ)
    → i < length ws
    → get_or ws i 0 < 2 ^ 64
    → offset < 64
    → bit
        (get_or (set_elem ws i (bit_and (get_or ws i 0) (complement64 (2 ^ offset)))) (j / 64) 0)
        (j % 64)
      ≡ (if j == i * 2 ^ 6 + offset then 0 else bit (get_or ws (j / 64) 0) (j % 64))
clear_item ws i offset j h word small = elim (ℕ_discrete (j / 64) i) [
  | yes e ↦ ground (
    arith,
    get_or-set ws i (j / 64) (bit_and (get_or ws i 0) (complement64 (2 ^ offset))) 0 h,
    bit-clear 64 (get_or ws i 0) offset (j % 64) small,
    ap (λ t. bit (get_or ws t 0) (j % 64)) e,
  )
  | no ne ↦ ground (
    arith,
    ne,
    get_or-set ws i (j / 64) (bit_and (get_or ws i 0) (complement64 (2 ^ offset))) 0 h,
  )
]

-- `prev_state & set_mask`, as a truth value.
was_set : (w k : ℕ) → (bit_and w (2 ^ k) == 0) ≡ (bit w k == 0)
was_set w k = elim (ℕ_discrete (bit w k) 0) [
  | yes e ↦ ground (arith, bit_and-two-pow k w, e, ap (λ (t : ℕ). t * 2 ^ k) e)
  | no ne ↦ ground (
    arith,
    bit_and-two-pow k w,
    ap (λ (t : ℕ). t * 2 ^ k) (one ne),
    two-pow-lt k (suc k) (omega arith),
    ne,
  )
]
  where
    one : bit w k ≢ 0 → bit w k ≡ 1
    one ne = omega (arith, bit-le-one w k, ne)

module _ {p : IndexedPool} (v : IsValid p) (item : ℕ) where
  -- On an item of the first block `ms_ipool_release` frees that item and no other. It reports success
  -- where the item was taken, and an invalid argument where it was free already.
  pub release_lem :
      item < 64
      → 0 < p.item_count
      → (after : IndexedPool) × (release p item
          ≡ some ((if taken p item == 0 then invalid_argument else success), after))
        × ((j : ℕ) → taken after j ≡ (if j == item then 0 else taken p j))
        × IsValid after
  unfolding release
  release_lem first some_items = (
    after,
    rw (block_zero, offset, lt→ltb _ _ first, read, in_block)
        (ap (λ t. some ((if t then invalid_argument else success), after)) (was_set w item)),
    bits,
    record {
      sized = length-set p.state 0 cleared ∙ v.sized;
      multiple = v.multiple;
      small = v.small;
      words = words;
      from = v.from;
    },
  )
    where
      w : ℕ
      w = get_or p.state 0 0

      cleared : ℕ
      cleared = bit_and w (complement64 (2 ^ item))

      after : IndexedPool
      after = record p { state = set_elem p.state 0 cleared }

      block_zero : item / 64 ≡ 0
      block_zero = omega arith

      in_block : item % 64 ≡ item
      in_block = omega arith

      offset : bit_and item 0xffffff ≡ item
      offset = omega (arith, offset_of item)

      has_block : 0 < length p.state
      has_block = omega (arith, v.sized, v.multiple)

      read : get_elem? p.state 0 ≡ some w
      read = get_elem?-eq-get_or p.state 0 0 has_block

      bits : (j : ℕ) → taken after j ≡ (if j == item then 0 else taken p j)
      bits j =
          clear_item p.state 0 item j has_block (v.words 0) first
          ∙ ap (λ t. if j == t then 0 else taken p j) (omega arith)

      words : (k : ℕ) → get_or (set_elem p.state 0 cleared) k 0 < 2 ^ 64
      words k = ground (
        arith,
        get_or-set p.state 0 k cleared 0 has_block,
        v.words k,
        v.words 0,
        bit_and-le w (complement64 (2 ^ item)),
      )

  -- The mask of 24 bits leaves an offset that the shift cannot take: to release any item of a later
  -- block is undefined, unless its low 24 bits are below 64.
  pub release_undefined : 64 ≤ item % 2 ^ 24 → release p item ≡ none
  unfolding release
  release_undefined high = rw (offset_of item, shift) refl
    where
      shift : ltb (item % 2 ^ 24) 64 ≡ false
      shift = ground arith

record Made (capacity : ℕ) (p : IndexedPool) : Type 0 where
  multiple : capacity % 64 ≡ 0
  blank : p.state ≡ replicate (u32 (state_block_count capacity * 8) / 8) 0
  count : p.item_count ≡ capacity
  start : p.last_state ≡ 0

construct-Made :
    (a : Allocator) (this : IndexedPool) (capacity : ℕ) {p : IndexedPool}
    → construct a this capacity ≡ (success, p)
    → Made capacity p
unfolding construct
construct-Made a this capacity {p} e = ground arith

-- What `ms_ipool_construct` makes with success is a valid pool of that capacity with every item free,
-- where the capacity is a 32-bit number.
pub construct_free :
    (a : Allocator) (this : IndexedPool) (capacity : ℕ) {p : IndexedPool}
    → capacity < 2 ^ 32
    → construct a this capacity ≡ (success, p)
    → IsValid p × (p.item_count ≡ capacity) × ((j : ℕ) → taken p j ≡ 0)
construct_free a this capacity {p} small e =
    let m = construct-Made a this capacity e in
    (
      record {
        sized =
            ap length m.blank
            ∙ length-replicate (u32 (state_block_count capacity * 8) / 8) 0
            ∙ words_lem m.multiple
            ∙ ap (λ t. t / 64) (sym m.count);
        multiple = omega (arith, m.count, m.multiple);
        small = omega (arith, m.count);
        words = λ i. omega (arith, zero_word m i);
        from = omega (arith, m.start);
      },
      m.count,
      λ j. ap (λ w. bit w (j % 64)) (zero_word m (j / 64)) ∙ bit-zero (j % 64),
    )
  where
    words_lem : capacity % 64 ≡ 0 → u32 (state_block_count capacity * 8) / 8 ≡ capacity / 64
    words_lem h =
        ap (λ t. u32 (u32 (capacity + t) / 64 * 8) / 8) (bit_and-mask 6 (sub32 0 capacity))
        ∙ omega arith

    zero_word : Made capacity p → (i : ℕ) → get_or p.state i 0 ≡ 0
    zero_word m i =
        ap (λ ws. get_or ws i 0) m.blank
        ∙ get_or-replicate (u32 (state_block_count capacity * 8) / 8) i 0
