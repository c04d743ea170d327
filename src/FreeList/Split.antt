-- ===== src/FreeList/Split.antt =====
-- A node split, and its first part taken out, as `malloc_node` of src/memory/freelist.c does.
use mathlib.Core.List.{append_assoc}
use moonsugar.Prelude.{
  ℕ, suc, ◌+◌, ◌-◌, ◌≤◌, ◌<◌, ◌≡◌, ◌⊎◌, inl, inr, refl, ap, sym, subst, arith, Bool, true, false,
  Bool-cases, [], ◌∷◌, ◌++◌, leb, if◌then◌else◌,
}
use moonsugar.Api.{null}
use moonsugar.FreeList.{Node, FreeList, set_size, detach_node, create_node, cut_node, node_size}
use moonsugar.FreeList.Links.{Nodes, head, last, Ascending}
use moonsugar.FreeList.Order.{
  Holds, Holds-node, Ascending-split, Ascending-append, last-append, detach_node-Holds,
  create_node-Holds,
}
use moonsugar.FreeList.Blocks.{
  IsValid, Sorted, free_size, Sorted-weaken, Sorted-Ascending, Sorted-split, Sorted-append,
  free_size-append, set_size-Holds,
}

-- What is left of a block when `total` bytes at its beginning are taken: nothing where no node fits in it.
abbrev pub remainder : ℕ → ℕ → ℕ → Nodes
remainder a n total = if leb node_size (n - total) then (a + total, n - total) ∷ [] else []

abbrev pub size_taken : ℕ → ℕ → ℕ
size_taken n total = if leb node_size (n - total) then total else n

module _ {U : Type 0} (on_create on_alloc : ℕ → ℕ → U → U) where
  -- Splitting a node and taking its first part out, whatever the size that it is given meanwhile.
  split-Holds :
      (list : FreeList U) (front : Nodes) (a n : ℕ) (back : Nodes) (hi rest remaining m : ℕ)
      → Holds list (front ++ ((a, n) ∷ back))
      → Ascending 1 (front ++ ((a, n) ∷ back)) hi
      → a < rest
      → Ascending (suc rest) back hi
      → let split = create_node on_create on_alloc list rest a (list.mem a).next remaining in
        Holds
          (detach_node (record split { mem = set_size split.mem a m }) a)
          (front ++ ((rest, remaining) ∷ back))
  split-Holds list front a n back hi rest remaining m h asc after above =
      (detach_node-Holds (record split { mem = set_size split.mem a m }) front a m
        ((rest, remaining) ∷ back) hi
        (set_size-Holds split front a n m ((rest, remaining) ∷ back) hi made asc_made) (asc_of m)).0
    where
      split : FreeList U
      split = create_node on_create on_alloc list rest a (list.mem a).next remaining

      regroup : (ys : Nodes) → (front ++ ((a, n) ∷ [])) ++ ys ≡ front ++ ((a, n) ∷ ys)
      regroup ys = append_assoc front ((a, n) ∷ []) ys

      below : Ascending 1 front a
      below = (Ascending-split 1 front a n back hi asc).0

      next : head back null ≡ (list.mem a).next
      next = sym (ap (λ (node : Node). node.next) (Holds-node list front a n back h))

      asc_of : (m : ℕ) → Ascending 1 (front ++ ((a, m) ∷ ((rest, remaining) ∷ back))) hi
      asc_of m =
          Ascending-append 1 front a ((a, m) ∷ ((rest, remaining) ∷ back)) hi below
            (omega arith, (after, above))

      asc_made : Ascending 1 (front ++ ((a, n) ∷ ((rest, remaining) ∷ back))) hi
      asc_made = asc_of n

      created :
          Holds
            (create_node on_create on_alloc list rest
              (last (front ++ ((a, n) ∷ [])) null)
              (head back null)
              remaining)
            ((front ++ ((a, n) ∷ [])) ++ ((rest, remaining) ∷ back))
      created =
          create_node-Holds on_create on_alloc list (front ++ ((a, n) ∷ [])) rest remaining back hi
            (subst (Holds list) (sym (regroup back)) h)
            (Ascending-append 1 front a ((a, n) ∷ []) rest below (omega arith, after)) above

      made : Holds split (front ++ ((a, n) ∷ ((rest, remaining) ∷ back)))
      made = subst (Holds split) (regroup ((rest, remaining) ∷ back)) (
          subst
            (λ p.
              Holds (create_node on_create on_alloc list rest p (list.mem a).next remaining)
                ((front ++ ((a, n) ∷ [])) ++ ((rest, remaining) ∷ back)))
            (last-append front a n null)
            (subst
              (λ q.
                Holds
                  (create_node on_create on_alloc list rest (last (front ++ ((a, n) ∷ [])) null) q
                    remaining)
                  ((front ++ ((a, n) ∷ [])) ++ ((rest, remaining) ∷ back)))
              next created))

  -- `cut_node` on a valid list takes the beginning of the block, at least the size asked for, and leaves
  -- the remainder in its place where a node fits in it. The list stays valid, and no byte is lost.
  pub cut_node-IsValid :
      (list : FreeList U) (front : Nodes) (a n : ℕ) (back : Nodes) (hi total : ℕ)
      → IsValid list (front ++ ((a, n) ∷ back)) hi
      → 0 < total
      → total ≤ n
      → let (size, after) = cut_node on_create on_alloc list a total in
        (size ≡ size_taken n total)
        × IsValid after (front ++ (remainder a n total ++ back)) hi
        × (free_size (front ++ (remainder a n total ++ back)) + size
            ≡ free_size (front ++ ((a, n) ∷ back)))
  unfolding cut_node
  cut_node-IsValid list front a n back hi total v some_bytes fits =
      subst (λ c. Taken (leb node_size remaining) c) (ap (leb node_size) same)
        (by_split (Bool-cases (leb node_size remaining)))
    where
      remaining : ℕ
      remaining = (list.mem a).size - total

      split : FreeList U
      split = create_node on_create on_alloc list (a + total) a (list.mem a).next remaining

      pick : Bool → ℕ × FreeList U
      pick t =
          if t
          then (
            total,
            detach_node
                (record split { mem = set_size split.mem a ((split.mem a).size - remaining) }) a,
          )
          else ((list.mem a).size, detach_node list a)

      rest : Bool → Nodes
      rest t = if t then (a + total, n - total) ∷ [] else []

      Taken : Bool → Bool → Type 0
      Taken t c =
          ((pick t).0 ≡ (if c then total else n))
          × IsValid (pick t).1 (front ++ (rest c ++ back)) hi
          × (free_size (front ++ (rest c ++ back)) + (pick t).0
              ≡ free_size (front ++ ((a, n) ∷ back)))

      size : (list.mem a).size ≡ n
      size = ap (λ (node : Node). node.size) (Holds-node list front a n back v.holds)

      same : remaining ≡ n - total
      same = ap (λ k. k - total) size

      asc : Ascending 1 (front ++ ((a, n) ∷ back)) hi
      asc = Sorted-Ascending 1 (front ++ ((a, n) ∷ back)) hi v.sorted

      parts : Sorted 1 front a × (node_size ≤ n) × Sorted (a + n) back hi
      parts = Sorted-split 1 front a n back hi v.sorted

      by_split :
          (leb node_size remaining ≡ true) ⊎ (leb node_size remaining ≡ false)
          → Taken (leb node_size remaining) (leb node_size remaining)
      by_split (inl t) =
          subst (λ b. Taken b b) (sym t)
            (
              refl,
              record {
                holds =
                    subst (λ k. Holds (pick true).1 (front ++ ((a + total, k) ∷ back))) same
                      (split-Holds list front a n back hi (a + total) remaining
                        ((split.mem a).size - remaining) v.holds asc (omega arith)
                        (Sorted-Ascending (suc (a + total)) back hi (
                          Sorted-weaken (a + n) (suc (a + total)) back hi (ground (arith, t, same))
                            (parts.2))));
                sorted = Sorted-append 1 front a ((a + total, n - total) ∷ back) hi (parts.0) (
                  omega arith,
                  ground (arith, t, same),
                  subst (λ k. Sorted k back hi) ends (parts.2),
                );
                word = v.word;
              },
              omega (
                arith,
                free_size-append front ((a + total, n - total) ∷ back),
                free_size-append front ((a, n) ∷ back),
              ),
            )
        where
          ends : a + n ≡ a + total + (n - total)
          ends = omega arith
      by_split (inr f) =
          subst (λ b. Taken b b) (sym f)
            (
              size,
              record {
                holds = (detach_node-Holds list front a n back hi v.holds asc).0;
                sorted =
                    Sorted-append 1 front a back hi (parts.0)
                      (Sorted-weaken (a + n) a back hi (omega arith) (parts.2));
                word = v.word;
              },
              omega (
                arith,
                size,
                free_size-append front back,
                free_size-append front ((a, n) ∷ back),
              ),
            )
