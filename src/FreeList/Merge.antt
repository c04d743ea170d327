-- ===== src/FreeList/Merge.antt =====
-- A block merged with the blocks that touch it: what stays sorted, and the free bytes.

use moonsugar.Prelude.{
  ℕ, ◌+◌, ◌≤◌, ◌≡◌, ◌≢◌, refl, subst, arith, true, false, [], ◌∷◌, ◌==◌, ℕ_discrete,
}
use moonsugar.FreeList.{node_size}
use moonsugar.FreeList.Links.{Nodes}
use moonsugar.FreeList.Blocks.{Sorted, free_size}
use moonsugar.FreeList.Give.{merge_left, right_size, right_rest}

pub Sorted-right :
    (s m : ℕ) (back : Nodes) (hi : ℕ)
    → node_size ≤ m
    → Sorted (s + m) back hi
    → (node_size ≤ right_size s m back)
      × Sorted (s + right_size s m back) (right_rest s m back) hi
      × (right_size s m back + free_size (right_rest s m back) ≡ m + free_size back)
Sorted-right s m [] hi large h = (large, h, refl)
Sorted-right s m ((b, k) ∷ back) hi large (above, large', sorted) = elim (ℕ_discrete b (s + m)) [
  | yes e ↦ rw (touch e) (omega arith, subst (λ x. Sorted x back hi) (ends e) sorted, omega arith)
  | no ne ↦ rw (apart ne) (large, (above, large', sorted), refl)
]
  where
    touch : b ≡ s + m → (b == s + m) ≡ true
    touch e = ground (arith, e)

    apart : b ≢ s + m → (b == s + m) ≡ false
    apart ne = ground (arith, ne)

    ends : b ≡ s + m → b + k ≡ s + (m + k)
    ends e = omega (arith, e)

pub Sorted-left :
    (lo : ℕ) (front : Nodes) (s m : ℕ) (rest : Nodes) (hi : ℕ)
    → Sorted lo front s
    → node_size ≤ m
    → Sorted (s + m) rest hi
    → Sorted lo (merge_left front s m rest) hi
      × (free_size (merge_left front s m rest) ≡ free_size front + m + free_size rest)
Sorted-left lo [] s m rest hi h large sorted = ((h, large, sorted), omega arith)
Sorted-left lo ((a, n) ∷ []) s m rest hi (above, large', ends) large sorted =
    elim (ℕ_discrete s (a + n)) [
      | yes e ↦
          rw (touch e)
            ((above, omega arith, subst (λ x. Sorted x rest hi) (both e) sorted), omega arith)
      | no ne ↦ rw (apart ne) ((above, large', (ends, large, sorted)), omega arith)
    ]
  where
    touch : s ≡ a + n → (s == a + n) ≡ true
    touch e = ground (arith, e)

    apart : s ≢ a + n → (s == a + n) ≡ false
    apart ne = ground (arith, ne)

    both : s ≡ a + n → s + m ≡ a + (n + m)
    both e = omega (arith, e)
Sorted-left lo ((a, n) ∷ (y ∷ xs)) s m rest hi (above, large', sorted') large sorted =
    let (rest-sorted, sizes) = Sorted-left (a + n) (y ∷ xs) s m rest hi sorted' large sorted in
    ((above, large', rest-sorted), omega (arith, sizes))
