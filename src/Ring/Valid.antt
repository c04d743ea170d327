-- ===== src/Ring/Valid.antt =====
-- The invariant of `ms_ring`: what `ms_ring_construct` makes and the operations keep.
use moonsugar.Prelude.{
  ℕ, ◌+◌, ◌-◌, ◌*◌, ◌%◌, ◌^◌, ◌≤◌, ◌<◌, ◌≡◌, ◌≢◌, ap, ◌∙◌, sym, arith, true, bit_and, sub32, u32,
}
use native.Mathlib.Nat.{mod-lt}
use moonsugar.Api.{success, Allocator, default_alignment, null}
use moonsugar.Bits.{bit_and-mask}
use moonsugar.Util.{is_power2}
use moonsugar.Util.Power.{is_power2_iff}
use moonsugar.Util.Align.{two-pow-lt, two-pow-lt_inv, two-pow-split}
use moonsugar.Ring.{
  Ring, RingDescription, construct, enqueue, dequeue, write_slot, read_slot, address,
}
use moonsugar.Ring.Index.{slot_of_write, slot_of_read, start_after_write}

pub record IsValid (r : Ring) : Type 0 where
  pub exponent : ℕ
  pub exponent-lt : exponent < 32
  pub power : r.capacity ≡ 2 ^ exponent
  pub counted : r.count ≤ r.capacity
  pub word : r.windex < 2 ^ 32

-- The storage lies in one block: no offset wraps at 32 bits and no pointer at 64.
pub record Fits (r : Ring) : Type 0 where
  pub sized : 0 < r.item_size
  pub block : r.item_size * r.capacity < 2 ^ 32
  pub placed : r.values + r.item_size * r.capacity ≤ 2 ^ 64

-- How far round the oldest item stands, before the index is reduced.
abbrev pub start : Ring → ℕ
start r = r.windex + 2 ^ 32 - r.count

module _ {r : Ring} (v : IsValid r) where
  pub capacity-lt : (0 < r.capacity) × (r.capacity < 2 ^ 32)
  capacity-lt = omega (arith, v.power, two-pow-lt v.exponent 32 v.exponent-lt)

  split : 2 ^ 32 ≡ r.capacity * 2 ^ (32 - v.exponent)
  split =
      two-pow-split v.exponent 32 (omega (arith, v.exponent-lt))
      ∙ ap (λ t. t * 2 ^ (32 - v.exponent)) (sym v.power)

  -- `x & (capacity - 1)` is the remainder.
  masked : (x : ℕ) → bit_and x (sub32 r.capacity 1) ≡ x % r.capacity
  masked x = ap (bit_and x) mask ∙ bit_and-mask v.exponent x ∙ ap (λ t. x % t) (sym v.power)
    where
      mask : sub32 r.capacity 1 ≡ 2 ^ v.exponent - 1
      mask = omega (arith, v.power, capacity-lt)

  pub write_slot-eq-mod : write_slot r ≡ r.windex % r.capacity
  write_slot-eq-mod = masked r.windex

  pub read_slot-eq-mod : read_slot r ≡ start r % r.capacity
  read_slot-eq-mod =
      masked _ ∙ slot_of_read r.capacity (2 ^ (32 - v.exponent)) (2 ^ 32) split r.windex r.count

  -- The start after `enqueue`, and after `dequeue`.
  pub start_after_enqueue :
      r.count < r.capacity
      → (u32 (r.windex + 1) + 2 ^ 32 - u32 (r.count + 1)) % r.capacity ≡ start r % r.capacity
  start_after_enqueue h =
      ap (λ t. (u32 (r.windex + 1) + 2 ^ 32 - t) % r.capacity) (omega (arith, capacity-lt))
      ∙ start_after_write r.capacity (2 ^ (32 - v.exponent)) (2 ^ 32) split r.windex r.count v.word
          (omega (arith, capacity-lt))

  pub start_after_dequeue : 0 < r.count → r.windex + 2 ^ 32 - sub32 r.count 1 ≡ start r + 1
  start_after_dequeue h = omega (arith, v.counted, capacity-lt)

  pub write_slot_after_all : write_slot r ≡ (start r + r.count) % r.capacity
  write_slot_after_all =
      write_slot-eq-mod
      ∙ slot_of_write r.capacity (2 ^ (32 - v.exponent)) (2 ^ 32) split r.windex r.count
          (omega (arith, v.counted, capacity-lt))

  -- `ms_ring_enqueue` on a valid ring leaves a valid ring, whether there is room or not.
  pub enqueue-IsValid : IsValid (enqueue r).1
  unfolding enqueue
  enqueue-IsValid = ground (arith, capacity-lt)

  -- `ms_ring_dequeue` on a valid ring leaves a valid ring, whether it holds an item or not.
  pub dequeue-IsValid : IsValid (dequeue r).1
  unfolding dequeue
  dequeue-IsValid = ground (arith, capacity-lt)

-- What a successful construction has passed.
pub record Accepted (a : Allocator) (d : RingDescription) (r : Ring) : Type 0 where
  pub power : is_power2 d.capacity ≡ true
  pub sized : d.item_size ≢ 0
  pub stored : r.values ≢ null
  pub same : r ≡ record {
    count = 0;
    windex = 0;
    capacity = d.capacity;
    item_size = d.item_size;
    values = a.allocate (u32 (d.item_size * d.capacity)) default_alignment;
  }

pub construct-Accepted :
    (a : Allocator) (this : Ring) (d : RingDescription) {r : Ring}
    → construct a this d ≡ (success, r)
    → Accepted a d r
unfolding construct
construct-Accepted a this d {r} e = ground arith

-- What `ms_ring_construct` accepts is a valid empty ring of the capacity asked for, whose item size
-- is not 0 and whose storage is not NULL, for a capacity of 32 bits.
pub construct-IsValid :
    (a : Allocator) (this : Ring) (d : RingDescription) {r : Ring}
    → d.capacity < 2 ^ 32
    → construct a this d ≡ (success, r)
    → IsValid r × (r.count ≡ 0) × (r.capacity ≡ d.capacity) × (0 < r.item_size) × (r.values ≢ null)
unfolding construct
construct-IsValid a this d hc e =
    let ok = construct-Accepted a this d e in
    let (k, hk, ek) = (is_power2_iff d.capacity (omega arith)).0 ok.power in
    (
      record {
        exponent = k;
        exponent-lt = two-pow-lt_inv k 32 (omega (arith, ek));
        power = ground (arith, ok.same, ek);
        counted = ground (arith, ok.same);
        word = ground (arith, ok.same);
      },
      ground (arith, ok.same),
      ground (arith, ok.same),
      ground (arith, ok.same, ok.sized),
      ok.stored,
    )

-- Both operations hand out pointers to whole items inside the storage: nothing wraps, at 32 bits or 64.
pub slots_in_block :
    {r : Ring}
    → IsValid r
    → Fits r
    → (address r (write_slot r) ≡ r.values + r.item_size * write_slot r)
      × (address r (read_slot r) ≡ r.values + r.item_size * read_slot r)
      × (write_slot r < r.capacity)
      × (read_slot r < r.capacity)
slots_in_block {r} v f = (plain _ write_in, plain _ read_in, write_in, read_in)
  where
    write_in : write_slot r < r.capacity
    write_in = rw (write_slot-eq-mod v) (mod-lt r.windex (capacity-lt v).0)

    read_in : read_slot r < r.capacity
    read_in = rw (read_slot-eq-mod v) (mod-lt (start r) (capacity-lt v).0)

    plain : (i : ℕ) → i < r.capacity → address r i ≡ r.values + r.item_size * i
    plain i h =
        let inside : r.item_size * i + r.item_size ≤ r.item_size * r.capacity = grind arith in
        omega (arith, inside, f.sized, f.block, f.placed)
