-- ===== src/FreeList/Free.antt =====
-- `ms_free_list_free` as a whole.
use mathlib.Core.List.{append_assoc}
use moonsugar.Prelude.{
  ℕ, suc, ◌+◌, ◌^◌, ◌≤◌, ◌<◌, ◌≡◌, ◌≢◌, inl, inr, refl, ap, ◌∙◌, sym, subst, arith, false, Option,
  some, [], ◌∷◌, ◌++◌, length, ◌==◌, if◌then◌else◌,
}
use moonsugar.Api.{null}
use moonsugar.FreeList.{
  Node, FreeList, create_node, find_prev_node, try_coalesce_neighbors, free, node_size,
}
use moonsugar.FreeList.Links.{Nodes, head, last, Ascending}
use moonsugar.FreeList.Order.{Holds, Holds-node, Ascending-append, last-append, create_node-Holds}
use moonsugar.FreeList.Blocks.{
  IsValid, Sorted, free_size, Sorted-le, Sorted-weaken, Sorted-Ascending, Sorted-split,
  free_size-append,
}
use moonsugar.FreeList.Before.{find_prev_node-last}
use moonsugar.FreeList.Give.{
  merge, right_size, right_rest, merged, merged-Holds, joined, joined-Holds, Snoc, Snoc-cases,
}
use moonsugar.FreeList.Merge.{Sorted-left, Sorted-right}

module _ {U : Type 0} (on_create on_alloc : ℕ → ℕ → U → U) where
  -- What giving back the block `s` of `m` bytes has done.
  pub record Freed (front : Nodes) (s m : ℕ) (back : Nodes) (hi : ℕ) (out : Option (FreeList U))
      : Type 0 where
    pub after : FreeList U
    pub run : out ≡ some after
    pub valid : IsValid after (merge front s m back) hi
    pub kept : free_size (merge front s m back) ≡ free_size (front ++ back) + m

  -- `try_coalesce_neighbors` on the block just put in.
  coalesce_neighbors-Holds :
      (list : FreeList U) (front : Nodes) (s m : ℕ) (back : Nodes) (hi : ℕ)
      → Holds list (front ++ ((s, m) ∷ back))
      → Sorted 1 front s
      → node_size ≤ m
      → Sorted (s + m) back hi
      → hi < 2 ^ 64
      → Holds (try_coalesce_neighbors list s).1 (merge front s m back)
  unfolding try_coalesce_neighbors
  coalesce_neighbors-Holds list front s m back hi h sorted large sorted' word =
      subst (λ p. Holds (joined (merged list s) s p) (merge front s m back)) (sym prev)
        (joined-Holds (merged list s) front s (right_size s m back) (right_rest s m back) hi
          (merged-Holds list front s m back hi h asc sorted' word)
          (Ascending-append 1 front s ((s, right_size s m back) ∷ right_rest s m back) hi
            (Sorted-Ascending 1 front s sorted)
            (Sorted-Ascending s ((s, right_size s m back) ∷ right_rest s m back) hi
              (omega arith, right.0, right.1)))
          sorted
          (omega (arith, Sorted-le (s + right_size s m back) (right_rest s m back) hi (right.1))))
    where
      prev : (list.mem s).prev ≡ last front null
      prev = ap (λ (node : Node). node.prev) (Holds-node list front s m back h)

      right :
          (node_size ≤ right_size s m back)
          × Sorted (s + right_size s m back) (right_rest s m back) hi
          × (right_size s m back + free_size (right_rest s m back) ≡ m + free_size back)
      right = Sorted-right s m back hi large sorted'

      asc : Ascending 1 (front ++ ((s, m) ∷ back)) hi
      asc =
          Ascending-append 1 front s ((s, m) ∷ back) hi (Sorted-Ascending 1 front s sorted)
            (Sorted-Ascending s ((s, m) ∷ back) hi (omega arith, large, sorted'))

  -- What `find_prev_node` and the link behind its answer lead to.
  next-head :
      (list : FreeList U) (front back : Nodes) (s : ℕ)
      → Holds list (front ++ back)
      → Sorted 1 front s
      → (if last front null == null then list.first else (list.mem (last front null)).next)
        ≡ head back null
  next-head list front back s h sorted = by_last (Snoc-cases front)
    where
      Next : Nodes → Type 0
      Next xs =
          (if last xs null == null then list.first else (list.mem (last xs null)).next)
          ≡ head back null

      by_last : Snoc front → Next front
      by_last (inl e) = subst Next (sym e) (h.first ∙ ap (λ xs. head (xs ++ back) null) e)
      by_last (inr (f, a, n, e)) = subst Next (sym e) (
          rw
            (
              last-append f a n null,
              real (
                  Sorted-le 1 f a
                    (Sorted-split 1 f a n [] s (subst (λ xs. Sorted 1 xs s) e sorted)).0),
            )
            (ap (λ (node : Node). node.next)
              (Holds-node list f a n back (
                subst (Holds list) (ap (λ xs. xs ++ back) e ∙ append_assoc f ((a, n) ∷ []) back)
                  h))))
        where
          real : 1 ≤ a → (a == null) ≡ false
          real h = ground arith

  module _ (fuel : ℕ) (list : FreeList U) (s m hi : ℕ) (large : node_size ≤ m)
      (size : (list.mem s).size ≡ m) where
    inserted-Freed :
        (front back : Nodes)
        → IsValid list (front ++ back) hi
        → Sorted 1 front s
        → Sorted (s + m) back hi
        → Freed front s m back hi (
            some
              (try_coalesce_neighbors
                (create_node on_create on_alloc list s (last front null) (head back null) m)
                s).1)
    inserted-Freed front back v sorted sorted' = record {
      after = (try_coalesce_neighbors made s).1;
      run = refl;
      valid = record {
        holds =
            coalesce_neighbors-Holds made front s m back hi
              (create_node-Holds on_create on_alloc list front s m back hi v.holds
                (Sorted-Ascending 1 front s sorted)
                (Sorted-Ascending (suc s) back hi
                  (Sorted-weaken (s + m) (suc s) back hi (omega arith) sorted')))
              sorted large sorted' v.word;
        sorted = left.0;
        word = v.word;
      };
      kept = omega (arith, left.1, right.2, free_size-append front back);
    }
      where
        made : FreeList U
        made = create_node on_create on_alloc list s (last front null) (head back null) m

        right :
            (node_size ≤ right_size s m back)
            × Sorted (s + right_size s m back) (right_rest s m back) hi
            × (right_size s m back + free_size (right_rest s m back) ≡ m + free_size back)
        right = Sorted-right s m back hi large sorted'

        left :
            Sorted 1 (merge front s m back) hi
            × (free_size (merge front s m back)
                ≡ free_size front + right_size s m back + free_size (right_rest s m back))
        left =
            Sorted-left 1 front s (right_size s m back) (right_rest s m back) hi sorted (right.0)
              (right.1)

    among-Freed :
        (front back : Nodes)
        → list.first ≢ null
        → IsValid list (front ++ back) hi
        → Sorted 1 front s
        → Sorted (s + m) back hi
        → length front < fuel
        → Freed front s m back hi (free on_create on_alloc fuel list s m)
    unfolding free
    among-Freed front back some_node v sorted sorted' enough =
        rw (not_null, found, next-head list front back s v.holds sorted)
          (inserted-Freed front back v sorted sorted')
      where
        not_null : (list.first == null) ≡ false
        not_null = ground (arith, some_node)

        found : find_prev_node fuel list.mem list.first s ≡ some (last front null)
        found =
            ap (λ c. find_prev_node fuel list.mem c s) v.holds.first
            ∙ find_prev_node-last list.mem s fuel null 1 front m back hi (omega arith)
                v.holds.linked sorted sorted' size enough

    -- Giving back the block `s` of `m` bytes, which overlaps no block of a valid list, where the memory at `s`
    -- spells that size too: with fuel for one step more than there are blocks in front of it,
    -- `ms_free_list_free` ends, the list is valid with the block in its place, merged with each neighbour that
    -- it touches, and the free bytes grow by `m`.
    pub free-Freed :
        (front back : Nodes)
        → IsValid list (front ++ back) hi
        → Sorted 1 front s
        → Sorted (s + m) back hi
        → length front < fuel
        → Freed front s m back hi (free on_create on_alloc fuel list s m)
    unfolding free
    free-Freed [] [] v sorted sorted' enough =
        rw (v.holds.first, size)
          (record {
            after = created;
            run = refl;
            valid = record {
              holds =
                  create_node-Holds on_create on_alloc list [] s m [] hi v.holds sorted
                    (omega (arith, sorted'));
              sorted = (sorted, large, sorted');
              word = v.word;
            };
            kept = omega arith;
          })
      where
        created : FreeList U
        created = create_node on_create on_alloc list s null null m
    free-Freed [] ((b, k) ∷ back) v sorted sorted' enough =
        among-Freed [] ((b, k) ∷ back) (λ e. omega (arith, e, v.holds.first, sorted, sorted'.0)) v
          sorted sorted' enough
    free-Freed ((a, n) ∷ front) back v sorted sorted' enough =
        among-Freed ((a, n) ∷ front) back (λ e. omega (arith, e, v.holds.first, sorted.0)) v sorted
          sorted' enough
