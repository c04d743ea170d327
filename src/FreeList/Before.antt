-- ===== src/FreeList/Before.antt =====
-- Where `find_prev_node` ends: the last node in front of the memory given back.

use moonsugar.Prelude.{
  ℕ, zero, suc, ◌+◌, ◌≤◌, ◌<◌, ◌≡◌, ◌≢◌, refl, ◌∙◌, arith, Bool, true, false, ◌||◌, some, [], ◌∷◌,
  ◌++◌, length, leb, ◌==◌, if◌then◌else◌,
}
use moonsugar.Api.{null}
use moonsugar.FreeList.{Memory, find_prev_node, node_end}
use moonsugar.FreeList.Links.{Nodes, head, last, Linked}
use moonsugar.FreeList.Blocks.{Sorted, Sorted-le}

module _ (mem : Memory) (s : ℕ) where
  -- One step of the walk, on a node in front of `s`.
  step_on :
      (fuel p a n : ℕ) (rest : Nodes)
      → a ≢ null
      → Linked mem p ((a, n) ∷ rest) null
      → a + n ≤ s
      → find_prev_node (suc fuel) mem a s ≡ (
          if (head rest null == null) || leb (node_end mem s) (head rest null)
          then some a
          else find_prev_node fuel mem (head rest null) s)
  unfolding find_prev_node
  step_on fuel p a n rest ne (e, l) h = rw (real ne, e, before h) refl
    where
      real : a ≢ null → (a == null) ≡ false
      real ne = ground (arith, ne)

      before : a + n ≤ s → leb (a + n) s ≡ true
      before h = ground (arith, h)

  -- The walk stops with NULL at a node behind `s`, and at the end.
  stop_at :
      (fuel p lo : ℕ) (back : Nodes) (hi : ℕ)
      → s ≤ lo
      → Linked mem p back null
      → Sorted lo back hi
      → find_prev_node (suc fuel) mem (head back null) s ≡ some null
  unfolding find_prev_node
  stop_at fuel p lo [] hi h l sorted = refl
  stop_at fuel p lo ((b, k) ∷ back) hi h (e, l) (above, large, sorted) =
      rw (e, behind) (last_case (b == null))
    where
      behind : leb (b + k) s ≡ false
      behind = ground arith

      last_case : (t : Bool) → (if t then some null else some null) ≡ some null
      last_case true = refl
      last_case false = refl

  -- With the true size of the block at `s`, the walk finds the last node in front of it.
  pub find_prev_node-last :
      (fuel p lo : ℕ) (front : Nodes) (m : ℕ) (back : Nodes) (hi : ℕ)
      → 0 < lo
      → Linked mem p (front ++ back) null
      → Sorted lo front s
      → Sorted (s + m) back hi
      → (mem s).size ≡ m
      → length front < fuel
      → find_prev_node fuel mem (head (front ++ back) null) s ≡ some (last front null)
  find_prev_node-last zero p lo front m back hi pos l sorted sorted' size enough =
      absurd (omega (arith, enough))
  find_prev_node-last (suc fuel) p lo [] m back hi pos l sorted sorted' size enough =
      stop_at fuel p (s + m) back hi (omega arith) l sorted'
  find_prev_node-last (suc fuel) p lo ((a, n) ∷ []) m back hi pos l (above, large, ends) sorted'
        size enough =
      step_on fuel p a n back (λ e. omega (arith, e)) l ends ∙ rw stops refl
    where
      stops : ((head back null == null) || leb (s + (mem s).size) (head back null)) ≡ true
      stops = by_back back sorted'
        where
          by_back :
              (back : Nodes)
              → Sorted (s + m) back hi
              → ((head back null == null) || leb (s + (mem s).size) (head back null)) ≡ true
          by_back [] h = refl
          by_back ((b, k) ∷ rest) (h, _, _) = ground (arith, size)
  find_prev_node-last (suc fuel) p lo ((a, n) ∷ ((b, k) ∷ front)) m back hi pos (e, l)
        (above, large, (above', large', sorted)) sorted' size enough =
      step_on fuel p a n ((b, k) ∷ (front ++ back)) (λ e. omega (arith, e)) (e, l)
        (omega (arith, Sorted-le (b + k) front s sorted))
      ∙ rw goes_on (
          find_prev_node-last fuel a (a + n) ((b, k) ∷ front) m back hi (omega arith) l
            (above', large', sorted) sorted' size (omega (arith, enough)))
    where
      goes_on : ((b == null) || leb (s + (mem s).size) b) ≡ false
      goes_on = ground (arith, Sorted-le (b + k) front s sorted)

  -- Where the memory at `s` spells a size that reaches past the first node behind it, the walk of
  -- `find_prev_node` from a list with a node in front of `s` returns NULL, as if `s` belonged at the front.
  pub find_prev_node-stale :
      (fuel p lo a n : ℕ) (front : Nodes) (b k : ℕ) (back : Nodes) (hi : ℕ)
      → 0 < lo
      → Linked mem p ((a, n) ∷ (front ++ ((b, k) ∷ back))) null
      → Sorted lo ((a, n) ∷ front) s
      → Sorted s ((b, k) ∷ back) hi
      → b < node_end mem s
      → length front + 2 ≤ fuel
      → find_prev_node fuel mem a s ≡ some null
  find_prev_node-stale zero p lo a n front b k back hi pos l sorted sorted' stale enough =
      absurd (omega (arith, enough))
  find_prev_node-stale (suc zero) p lo a n front b k back hi pos l sorted sorted' stale enough =
      absurd (omega (arith, enough))
  find_prev_node-stale (suc (suc fuel)) p lo a n [] b k back hi pos (e, l) (above, large, ends)
        sorted' stale enough =
      step_on (suc fuel) p a n ((b, k) ∷ back) (λ e. omega (arith, e)) (e, l) ends
      ∙ rw goes_on (stop_at fuel a s ((b, k) ∷ back) hi (omega arith) l sorted')
    where
      goes_on : ((b == null) || leb (s + (mem s).size) b) ≡ false
      goes_on = ground (arith, sorted'.0)
  find_prev_node-stale (suc (suc fuel)) p lo a n ((c, j) ∷ front) b k back hi pos (e, l)
        (above, large, (above', large', sorted)) sorted' stale enough =
      step_on (suc fuel) p a n ((c, j) ∷ (front ++ ((b, k) ∷ back))) (λ e. omega (arith, e)) (e, l)
        (omega (arith, Sorted-le (c + j) front s sorted))
      ∙ rw goes_on (
          find_prev_node-stale (suc fuel) a (a + n) c j front b k back hi (omega arith) l
            (above', large', sorted) sorted' stale (omega (arith, enough)))
    where
      goes_on : ((c == null) || leb (s + (mem s).size) c) ≡ false
      goes_on = ground (arith, Sorted-le (c + j) front s sorted)
