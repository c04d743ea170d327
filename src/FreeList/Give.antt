-- ===== src/FreeList/Give.antt =====
-- Giving memory back to a free list: `ms_free_list_free` and the merging of neighbours.
use mathlib.Core.List.{append_assoc}
use moonsugar.Prelude.{
  ℕ, suc, ◌+◌, ◌^◌, ◌≤◌, ◌<◌, ◌≡◌, ◌⊎◌, inl, inr, refl, ap, ◌∙◌, sym, subst, arith, Bool, true,
  false, not, ◌&&◌, Bool-cases, [], ◌∷◌, ◌++◌, ◌==◌, if◌then◌else◌,
}
use moonsugar.Api.{null}
use moonsugar.FreeList.{Node, FreeList, coalesce, node_end}
use moonsugar.FreeList.Links.{Nodes, last, Ascending}
use moonsugar.FreeList.Order.{Holds, Holds-node, Ascending-split, last-append}
use moonsugar.FreeList.Blocks.{Sorted, Sorted-le, Sorted-split, coalesce-Holds}

-- The block `s` of `m` bytes merged with the first of the blocks behind it, where they touch: its size, and
-- the blocks that are left behind it.
abbrev pub right_size : ℕ → ℕ → Nodes → ℕ
right_size s m [] = m
right_size s m ((b, k) ∷ rest) = if b == s + m then m + k else m

abbrev pub right_rest : ℕ → ℕ → Nodes → Nodes
right_rest s m [] = []
right_rest s m ((b, k) ∷ rest) = if b == s + m then rest else (b, k) ∷ rest

-- The same with the last of the blocks in front of it.
abbrev pub merge_left : Nodes → ℕ → ℕ → Nodes → Nodes
merge_left [] s m rest = (s, m) ∷ rest
merge_left ((a, n) ∷ []) s m rest =
    if s == a + n then (a, n + m) ∷ rest else (a, n) ∷ ((s, m) ∷ rest)
merge_left (x ∷ (y ∷ xs)) s m rest = x ∷ merge_left (y ∷ xs) s m rest

-- The blocks `front` and `back` with the block `s` of `m` bytes between them, merged where it touches them.
abbrev pub merge : Nodes → ℕ → ℕ → Nodes → Nodes
merge front s m back = merge_left front s (right_size s m back) (right_rest s m back)

-- Merging with the last of the blocks in front, where there is one.
merge_left-last :
    (front : Nodes) (a n s m : ℕ) (rest : Nodes)
    → merge_left (front ++ ((a, n) ∷ [])) s m rest
      ≡ front ++ (if s == a + n then (a, n + m) ∷ rest else (a, n) ∷ ((s, m) ∷ rest))
merge_left-last [] a n s m rest = refl
merge_left-last (x ∷ []) a n s m rest = refl
merge_left-last (x ∷ (y ∷ front)) a n s m rest =
    ap (◌∷◌ x) (merge_left-last (y ∷ front) a n s m rest)

-- A list of nodes is empty or ends in one.
abbrev pub Snoc : Nodes → Type 0
Snoc xs = (xs ≡ []) ⊎ ((front : Nodes) × (a : ℕ) × (n : ℕ) × (xs ≡ front ++ ((a, n) ∷ [])))

pub Snoc-cases : (xs : Nodes) → Snoc xs
Snoc-cases [] = inl refl
Snoc-cases ((a, n) ∷ xs) = elim (Snoc-cases xs) [
  | inl e ↦ inr ([], a, n, ap (◌∷◌ (a, n)) e)
  | inr (front, b, m, e) ↦ inr ((a, n) ∷ front, b, m, ap (◌∷◌ (a, n)) e)
]

module _ {U : Type 0} where
  -- The merge to the right.
  abbrev pub merged : FreeList U → ℕ → FreeList U
  merged list s =
      if not ((list.mem s).next == null) && (list.mem s).next == node_end list.mem s
      then coalesce list s (list.mem s).next
      else list

  pub merged-Holds :
      (list : FreeList U) (front : Nodes) (s m : ℕ) (back : Nodes) (hi : ℕ)
      → Holds list (front ++ ((s, m) ∷ back))
      → Ascending 1 (front ++ ((s, m) ∷ back)) hi
      → Sorted (s + m) back hi
      → hi < 2 ^ 64
      → Holds (merged list s) (front ++ ((s, right_size s m back) ∷ right_rest s m back))
  merged-Holds list front s m [] hi h asc sorted word = rw (Holds-node list front s m [] h) h
  merged-Holds list front s m ((b, k) ∷ back) hi h asc (above, large, sorted) word =
      rw (Holds-node list front s m ((b, k) ∷ back) h, real (asc_parts.1.0))
        (by_touch (Bool-cases (b == s + m)))
    where
      asc_parts : Ascending 1 front s × Ascending (suc s) ((b, k) ∷ back) hi
      asc_parts = Ascending-split 1 front s m ((b, k) ∷ back) hi asc

      real : suc s ≤ b → (b == null) ≡ false
      real h = ground arith

      Merged : Bool → Type 0
      Merged t =
          Holds (if t then coalesce list s b else list)
            (front ++ ((s, if t then m + k else m) ∷ (if t then back else (b, k) ∷ back)))

      by_touch : ((b == s + m) ≡ true) ⊎ ((b == s + m) ≡ false) → Merged (b == s + m)
      by_touch (inl t) = subst Merged (sym t) (
          coalesce-Holds list front s m b k back hi h asc
            (omega (arith, Sorted-le (b + k) back hi sorted)))
      by_touch (inr f) = subst Merged (sym f) h

  -- The merge to the left.
  abbrev pub joined : FreeList U → ℕ → ℕ → FreeList U
  joined list s prev =
      if not (prev == null) && s == node_end list.mem prev then coalesce list prev s else list

  pub joined-Holds :
      (list : FreeList U) (front : Nodes) (s m : ℕ) (rest : Nodes) (hi : ℕ)
      → Holds list (front ++ ((s, m) ∷ rest))
      → Ascending 1 (front ++ ((s, m) ∷ rest)) hi
      → Sorted 1 front s
      → s + m < 2 ^ 64
      → Holds (joined list s (last front null)) (merge_left front s m rest)
  joined-Holds list front s m rest hi h asc sorted word = by_last (Snoc-cases front)
    where
      by_last : Snoc front → Holds (joined list s (last front null)) (merge_left front s m rest)
      by_last (inl e) =
          subst (λ xs. Holds (joined list s (last xs null)) (merge_left xs s m rest)) (sym e)
            (subst (λ xs. Holds list (xs ++ ((s, m) ∷ rest))) e h)
      by_last (inr (f, a, n, e)) =
          subst (λ xs. Holds (joined list s (last xs null)) (merge_left xs s m rest)) (sym e)
            (rw (last-append f a n null, merge_left-last f a n s m rest)
              (rw (real (parts.0), size) (by_touch (Bool-cases (s == a + n)))))
        where
          regroup : front ++ ((s, m) ∷ rest) ≡ f ++ ((a, n) ∷ ((s, m) ∷ rest))
          regroup =
              ap (λ xs. xs ++ ((s, m) ∷ rest)) e ∙ append_assoc f ((a, n) ∷ []) ((s, m) ∷ rest)

          h' : Holds list (f ++ ((a, n) ∷ ((s, m) ∷ rest)))
          h' = subst (Holds list) regroup h

          asc' : Ascending 1 (f ++ ((a, n) ∷ ((s, m) ∷ rest))) hi
          asc' = subst (λ xs. Ascending 1 xs hi) regroup asc

          size : (list.mem a).size ≡ n
          size = ap (λ (node : Node). node.size) (Holds-node list f a n ((s, m) ∷ rest) h')

          parts : (1 ≤ a) × (a + n ≤ s)
          parts =
              let (front_of, large, ends) =
                Sorted-split 1 f a n [] s (subst (λ xs. Sorted 1 xs s) e sorted) in
              (Sorted-le 1 f a front_of, ends)

          real : 1 ≤ a → (a == null) ≡ false
          real h = ground arith

          Joined : Bool → Type 0
          Joined t =
              Holds (if t then coalesce list a s else list)
                (f ++ (if t then (a, n + m) ∷ rest else (a, n) ∷ ((s, m) ∷ rest)))

          by_touch : ((s == a + n) ≡ true) ⊎ ((s == a + n) ≡ false) → Joined (s == a + n)
          by_touch (inl t) =
              subst Joined (sym t)
                (coalesce-Holds list f a n s m rest hi h' asc' (omega (arith, parts.0, parts.1)))
          by_touch (inr g) = subst Joined (sym g) h'
