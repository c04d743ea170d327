-- ===== src/Ring/Fifo.antt =====
-- A valid ring is a bounded first-in first-out queue of the items behind the pointers it hands out.
use native.Mathlib.Nat.{mod-add-mod, mod-lt}
use moonsugar.Prelude.{
  ℕ, zero, suc, ◌+◌, ◌-◌, sub32, ◌*◌, ◌%◌, ◌^◌, ◌≤◌, ◌<◌, ◌≡◌, ◌≢◌, refl, ap, ap₂, ◌∙◌, sym, arith,
  List, [], ◌∷◌, ◌++◌, some, length, lt→ltb, u32, u64, ◌==◌, if◌then◌else◌,
}
use moonsugar.Ring.{Ring, enqueue, dequeue, write_slot, read_slot, address}
use moonsugar.Ring.Index.{mod-add-ne}
use moonsugar.Ring.Valid.{
  IsValid, Fits, start, capacity-lt, read_slot-eq-mod, write_slot_after_all, start_after_enqueue,
  start_after_dequeue,
}

-- The pointer to a slot, from the fields that no operation changes.
abbrev slot_pointer : ℕ → ℕ → ℕ → ℕ
slot_pointer values size i = u64 (values + u32 (size * i))

module _ {ℓ} {A : Type ℓ} where
  -- `*pointer = item`.
  abbrev pub write : (ℕ → A) → ℕ → A → ℕ → A
  write store pointer x q = if q == pointer then x else store q

  -- `n` items from slot `s` on, going round at `cap`.
  unfoldable pub items : (values size cap : ℕ) → (ℕ → A) → ℕ → ℕ → List A
  items values size cap store s zero = []
  items values size cap store s (suc n) =
      store (slot_pointer values size (s % cap)) ∷ items values size cap store (s + 1) n

  -- What the ring holds, the oldest item first.
  unfoldable pub contents : (ℕ → A) → Ring → List A
  contents store r = items r.values r.item_size r.capacity store (start r) r.count

module _ {ℓ} {A : Type ℓ} (values size cap : ℕ) where
  length-items : (store : ℕ → A) (s n : ℕ) → length (items values size cap store s n) ≡ n
  unfolding items
  length-items store s zero = refl
  length-items store s (suc n) = ap suc (length-items store (s + 1) n)

  items-mod :
      (store : ℕ → A) (s t n : ℕ)
      → s % cap ≡ t % cap
      → items values size cap store s n ≡ items values size cap store t n
  unfolding items
  items-mod store s t zero e = refl
  items-mod store s t (suc n) e = ap₂ ◌∷◌ (ap (λ i. store (slot_pointer values size i)) e) (
      items-mod store (s + 1) (t + 1) n
        (sym (mod-add-mod s cap 1) ∙ ap (λ i. (i + 1) % cap) e ∙ mod-add-mod t cap 1))

  items-snoc :
      (store : ℕ → A) (s n : ℕ)
      → items values size cap store s (suc n)
        ≡ items values size cap store s n ++ (store (slot_pointer values size ((s + n) % cap)) ∷ [])
  unfolding items
  items-snoc store s zero = ap (λ i. store (slot_pointer values size (i % cap)) ∷ []) (omega arith)
  items-snoc store s (suc n) = ap (◌∷◌ (store (slot_pointer values size (s % cap)))) (
      items-snoc store (s + 1) n
      ∙ ap
          (λ i.
            items values size cap store (s + 1) n
            ++ (store (slot_pointer values size (i % cap)) ∷ []))
          (omega arith))

  -- A write to another slot leaves the items.
  items-write :
      (store : ℕ → A) (q : ℕ) (x : A) (s n : ℕ)
      → ((j : ℕ) → j < n → slot_pointer values size ((s + j) % cap) ≢ q)
      → items values size cap (write store q x) s n ≡ items values size cap store s n
  unfolding items
  items-write store q x s zero apart = refl
  items-write store q x s (suc n) apart =
      ap₂ ◌∷◌ (ground (arith, first)) (items-write store q x (s + 1) n rest)
    where
      first : slot_pointer values size (s % cap) ≢ q
      first e =
          apart 0 (omega arith) (ap (λ i. slot_pointer values size (i % cap)) (omega arith) ∙ e)

      rest : (j : ℕ) → j < n → slot_pointer values size ((s + 1 + j) % cap) ≢ q
      rest j h e =
          apart (suc j) (omega arith)
            (ap (λ i. slot_pointer values size (i % cap)) (omega arith) ∙ e)

-- Two slots of a ring that fits have different pointers.
slot_pointer-ne :
    (r : Ring) (i j : ℕ)
    → Fits r
    → i < r.capacity
    → j < r.capacity
    → i ≢ j
    → slot_pointer r.values r.item_size i ≢ slot_pointer r.values r.item_size j
slot_pointer-ne r i j f hi hj ne e = ne (grind (arith, plain i hi, plain j hj, f.sized))
  where
    open r use {values, item_size, capacity}

    plain : (k : ℕ) → k < capacity → slot_pointer values item_size k ≡ values + item_size * k
    plain k h =
        let inside : item_size * k + item_size ≤ item_size * capacity = grind arith in
        omega (arith, inside, f.sized, f.block, f.placed)

pub length-contents {ℓ} :
    {A : Type ℓ} (store : ℕ → A) (r : Ring) → length (contents store r) ≡ r.count
unfolding contents
length-contents store r = length-items r.values r.item_size r.capacity store (start r) r.count

module _ {ℓ} {A : Type ℓ} (store : ℕ → A) {r : Ring} (v : IsValid r) where
  -- Where the ring has room, `ms_ring_enqueue` hands out a pointer, and an item written there stands
  -- behind all others.
  pub enqueue_appends :
      (x : A)
      → Fits r
      → r.count < r.capacity
      → (q : ℕ) × ((enqueue r).0 ≡ some q)
        × (contents (write store q x) (enqueue r).1 ≡ contents store r ++ (x ∷ []))
  unfolding enqueue contents
  enqueue_appends x f h = (q, rw (lt→ltb _ _ h) refl, rw (lt→ltb _ _ h) held)
    where
      open r use {values, item_size, capacity, count}

      q : ℕ
      q = address r (write_slot r)

      slot : slot_pointer values item_size ((start r + count) % capacity) ≡ q
      slot = ap (slot_pointer values item_size) (sym (write_slot_after_all v))

      apart : (j : ℕ) → j < count → slot_pointer values item_size ((start r + j) % capacity) ≢ q
      apart j hj e =
          slot_pointer-ne r ((start r + j) % capacity) ((start r + count) % capacity) f
            (mod-lt _ (capacity-lt v).0) (mod-lt _ (capacity-lt v).0)
            (mod-add-ne capacity (start r) j count hj h) (e ∙ sym slot)

      counted : u32 (count + 1) ≡ suc count
      counted = omega (arith, capacity-lt v)

      next : ℕ
      next = u32 (r.windex + 1) + 2 ^ 32 - u32 (count + 1)

      held :
          items values item_size capacity (write store q x) next (u32 (count + 1))
          ≡ items values item_size capacity store (start r) count ++ (x ∷ [])
      held =
          ap (items values item_size capacity (write store q x) next) counted
          ∙ items-mod values item_size capacity (write store q x) next (start r) (suc count)
              (start_after_enqueue v h)
          ∙ items-snoc values item_size capacity (write store q x) (start r) count
          ∙ ap₂ (λ front last. front ++ (last ∷ []))
              (items-write values item_size capacity store q x (start r) count apart)
              (ground (arith, slot))

  -- Where the ring holds an item, `ms_ring_dequeue` hands out the pointer to the oldest, and keeps
  -- the others in order.
  pub dequeue_first :
      0 < r.count
      → (q : ℕ) × ((dequeue r).0 ≡ some q)
        × (contents store r ≡ store q ∷ contents store (dequeue r).1)
  unfolding dequeue contents items
  dequeue_first h = (q, rw (lt→ltb _ _ h) refl, rw (lt→ltb _ _ h) held)
    where
      open r use {values, item_size, capacity, count}

      q : ℕ
      q = address r (read_slot r)

      counted : count ≡ suc (count - 1)
      counted = omega arith

      less : count - 1 ≡ sub32 count 1
      less = omega (arith, v.counted, capacity-lt v)

      held :
          items values item_size capacity store (start r) count
          ≡ store q
            ∷ items values item_size capacity store
                (r.windex + 2 ^ 32 - sub32 count 1)
                (sub32 count 1)
      held =
          ap (items values item_size capacity store (start r)) counted
          ∙ ap₂ (λ i rest. store (slot_pointer values item_size i) ∷ rest)
              (sym (read_slot-eq-mod v))
              (ap₂ (items values item_size capacity store) (sym (start_after_dequeue v h)) less)
