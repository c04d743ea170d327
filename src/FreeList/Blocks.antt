-- ===== src/FreeList/Blocks.antt =====
-- Free lists whose nodes are blocks that do not overlap.
use mathlib.Core.List.{append_assoc}
use moonsugar.Prelude.{
  ℕ, suc, ◌+◌, ◌^◌, ◌≤◌, ◌<◌, ◌≡◌, refl, ap, ◌∙◌, sym, subst, arith, [], ◌∷◌, ◌++◌, u64,
}
use moonsugar.Api.{null}
use moonsugar.FreeList.{Node, Memory, FreeList, set_size, detach_node, coalesce, node_size}
use moonsugar.FreeList.Links.{
  Nodes, head, last, Linked, Ascending, Linked-split, Linked-append, Linked-frame, write-same,
  write-other,
}
use moonsugar.FreeList.Order.{
  Holds, Holds-node, Ascending-remove, Ascending-split, detach_node-Holds,
}

-- The blocks ascend from `lo`, each as large as a node, and end before `hi`.
abbrev pub Sorted : ℕ → Nodes → ℕ → Type 0
Sorted lo [] hi = lo ≤ hi
Sorted lo ((a, n) ∷ rest) hi = (lo ≤ a) × (node_size ≤ n) × Sorted (a + n) rest hi

-- The bytes of all blocks.
abbrev pub free_size : Nodes → ℕ
free_size [] = 0
free_size ((a, n) ∷ rest) = n + free_size rest

pub Sorted-le : (lo : ℕ) (xs : Nodes) (hi : ℕ) → Sorted lo xs hi → lo ≤ hi
Sorted-le lo [] hi h = h
Sorted-le lo ((a, n) ∷ xs) hi (h, large, s) = omega (arith, h, Sorted-le (a + n) xs hi s)

pub Sorted-weaken :
    (lo lo' : ℕ) (xs : Nodes) (hi : ℕ) → lo' ≤ lo → Sorted lo xs hi → Sorted lo' xs hi
Sorted-weaken lo lo' [] hi h s = omega arith
Sorted-weaken lo lo' ((a, n) ∷ xs) hi h (above, large, rest) = (omega arith, large, rest)

pub Sorted-Ascending : (lo : ℕ) (xs : Nodes) (hi : ℕ) → Sorted lo xs hi → Ascending lo xs hi
Sorted-Ascending lo [] hi s = s
Sorted-Ascending lo ((a, n) ∷ xs) hi (h, large, s) =
    (h, Sorted-Ascending (suc a) xs hi (Sorted-weaken (a + n) (suc a) xs hi (omega arith) s))

pub Sorted-split :
    (lo : ℕ) (xs : Nodes) (a n : ℕ) (ys : Nodes) (hi : ℕ)
    → Sorted lo (xs ++ ((a, n) ∷ ys)) hi
    → Sorted lo xs a × (node_size ≤ n) × Sorted (a + n) ys hi
Sorted-split lo [] a n ys hi s = s
Sorted-split lo ((b, m) ∷ xs) a n ys hi (h, large, s) =
    let (front, size, back) = Sorted-split (b + m) xs a n ys hi s in ((h, large, front), size, back)

pub Sorted-append :
    (lo : ℕ) (xs : Nodes) (mid : ℕ) (ys : Nodes) (hi : ℕ)
    → Sorted lo xs mid
    → Sorted mid ys hi
    → Sorted lo (xs ++ ys) hi
Sorted-append lo [] mid ys hi h s = Sorted-weaken mid lo ys hi h s
Sorted-append lo ((a, n) ∷ xs) mid ys hi (h, large, front) s =
    (h, large, Sorted-append (a + n) xs mid ys hi front s)

pub free_size-append : (xs ys : Nodes) → free_size (xs ++ ys) ≡ free_size xs + free_size ys
free_size-append [] ys = omega arith
free_size-append ((a, n) ∷ xs) ys = omega (arith, free_size-append xs ys)

module _ {U : Type 0} where
  -- The list holds these blocks, in the memory below `hi`.
  pub record IsValid (list : FreeList U) (nodes : Nodes) (hi : ℕ) : Type 0 where
    pub holds : Holds list nodes
    pub sorted : Sorted 1 nodes hi
    pub word : hi < 2 ^ 64

  -- A change of the size of one node.
  pub set_size-Holds :
      (list : FreeList U) (front : Nodes) (a n m : ℕ) (back : Nodes) (hi : ℕ)
      → Holds list (front ++ ((a, n) ∷ back))
      → Ascending 1 (front ++ ((a, n) ∷ back)) hi
      → Holds (record list { mem = set_size list.mem a m }) (front ++ ((a, m) ∷ back))
  set_size-Holds list front a n m back hi h asc = record {
    first = h.first ∙ same_head front;
    linked =
        Linked-append mem null front ((a, m) ∷ back) null
          (Linked-frame list.mem mem null 1 front a a below
            (λ b lo hi'. write-other list.mem a changed b (λ e. omega (arith, e, hi'))) (split.0))
          (
            write-same list.mem a changed ∙ ap with_size (split.1.0),
            Linked-frame list.mem mem a (suc a) back null hi above
                (λ b lo hi'. write-other list.mem a changed b (λ e. omega (arith, e, lo)))
                (split.1.1),
          );
  }
    where
      with_size : Node → Node
      with_size node = record node { size = m }

      changed : Node
      changed = record (list.mem a) { size = m }

      mem : Memory
      mem = set_size list.mem a m

      split : Linked list.mem null front a × Linked list.mem (last front null) ((a, n) ∷ back) null
      split = Linked-split list.mem null front ((a, n) ∷ back) null h.linked

      below : Ascending 1 front a
      below = (Ascending-split 1 front a n back hi asc).0

      above : Ascending (suc a) back hi
      above = (Ascending-split 1 front a n back hi asc).1

      same_head :
          (front : Nodes)
          → head (front ++ ((a, n) ∷ back)) null ≡ head (front ++ ((a, m) ∷ back)) null
      same_head [] = refl
      same_head (x ∷ xs) = refl

  -- `coalesce` makes one node of two neighbours.
  pub coalesce-Holds :
      (list : FreeList U) (front : Nodes) (a n b k : ℕ) (back : Nodes) (hi : ℕ)
      → Holds list (front ++ ((a, n) ∷ ((b, k) ∷ back)))
      → Ascending 1 (front ++ ((a, n) ∷ ((b, k) ∷ back))) hi
      → n + k < 2 ^ 64
      → Holds (coalesce list a b) (front ++ ((a, n + k) ∷ back))
  unfolding coalesce
  coalesce-Holds list front a n b k back hi h asc word =
      subst (λ size. Holds (sized read) (front ++ ((a, size) ∷ back))) added
        (set_size-Holds detached front a n read back hi out asc_out)
    where
      detached : FreeList U
      detached = detach_node list b

      read : ℕ
      read = u64 ((detached.mem a).size + (detached.mem b).size)

      sized : ℕ → FreeList U
      sized size = record detached { mem = set_size detached.mem a size }

      regroup : (ys : Nodes) → (front ++ ((a, n) ∷ [])) ++ ys ≡ front ++ ((a, n) ∷ ys)
      regroup ys = append_assoc front ((a, n) ∷ []) ys

      h' : Holds list ((front ++ ((a, n) ∷ [])) ++ ((b, k) ∷ back))
      h' = subst (Holds list) (sym (regroup ((b, k) ∷ back))) h

      asc' : Ascending 1 ((front ++ ((a, n) ∷ [])) ++ ((b, k) ∷ back)) hi
      asc' = subst (λ xs. Ascending 1 xs hi) (sym (regroup ((b, k) ∷ back))) asc

      gone : Holds detached ((front ++ ((a, n) ∷ [])) ++ back) × (detached.mem b ≡ list.mem b)
      gone = detach_node-Holds list (front ++ ((a, n) ∷ [])) b k back hi h' asc'

      out : Holds detached (front ++ ((a, n) ∷ back))
      out = subst (Holds detached) (regroup back) (gone.0)

      asc_out : Ascending 1 (front ++ ((a, n) ∷ back)) hi
      asc_out =
          subst (λ xs. Ascending 1 xs hi) (regroup back)
            (Ascending-remove 1 (front ++ ((a, n) ∷ [])) b k back hi asc')

      size_a : (detached.mem a).size ≡ n
      size_a = ap (λ (node : Node). node.size) (Holds-node detached front a n back out)

      size_b : (detached.mem b).size ≡ k
      size_b =
          ap (λ (node : Node). node.size)
            (gone.1 ∙ Holds-node list (front ++ ((a, n) ∷ [])) b k back h')

      added : read ≡ n + k
      added = omega (arith, size_a, size_b)
