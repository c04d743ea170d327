-- ===== src/Pool/Chain.antt =====
-- The free nodes of a pool as a list.
use moonsugar.Prelude.{
  ℕ, ◌+◌, ◌-◌, ◌<◌, ◌≡◌, ◌≢◌, refl, ap, ◌∙◌, subst, sym, arith, false, List, [], ◌∷◌, ◌==◌,
}
use moonsugar.Api.{Allocator, null}
use moonsugar.Pool.{Pool, pool_node_size, set_link, acquire, release}

-- The nodes from an address on.
abbrev pub Chain : (ℕ → ℕ) → ℕ → List ℕ → Type 0
Chain next a [] = a ≡ null
Chain next a (x ∷ xs) = (a ≡ x) × (x ≢ null) × Chain next (next x) xs

-- No node of the list is the one given.
abbrev pub Avoids : ℕ → List ℕ → Type 0
Avoids node [] = Unit
Avoids node (x ∷ xs) = (x ≢ node) × Avoids node xs

Chain-frame :
    (next : ℕ → ℕ) (node target a : ℕ) (xs : List ℕ)
    → Avoids node xs
    → Chain next a xs
    → Chain (set_link next node target) a xs
Chain-frame next node target a [] av c = c
Chain-frame next node target a (x ∷ xs) (ne, av) (e, some_node, c) = (
  e,
  some_node,
  subst (λ t. Chain (set_link next node target) t xs) (sym same)
      (Chain-frame next node target (next x) xs av c),
)
  where
    same : set_link next node target x ≡ next x
    same = ground (arith, ne)

-- Releasing an item puts its node before the free ones.
release_pushes :
    (this : Pool) (free : List ℕ) (item : ℕ)
    → Chain this.next this.items free
    → pool_node_size < item
    → Avoids (item - pool_node_size) free
    → Chain (release this item).next (release this item).items ((item - pool_node_size) ∷ free)
unfolding release
release_pushes this free item c big av = (
  refl,
  omega (arith, big),
  subst (λ t. Chain (set_link this.next (item - pool_node_size) this.items) t free) (sym same)
      (Chain-frame this.next (item - pool_node_size) this.items this.items free av c),
)
  where
    same :
        set_link this.next (item - pool_node_size) this.items (item - pool_node_size) ≡ this.items
    same = ground arith

-- Where an item is free, acquiring takes the first one and asks for no memory.
acquire_pops :
    (a : Allocator) (this : Pool) (node : ℕ) (free : List ℕ)
    → Chain this.next this.items (node ∷ free)
    → ((acquire a this).0 ≡ node + pool_node_size)
      × Chain (acquire a this).1.next (acquire a this).1.items free
unfolding acquire
acquire_pops a this node free (e, some_node, c) =
    rw (ready)
      (ap (λ t. t + pool_node_size) e, subst (λ t. Chain this.next (this.next t) free) (sym e) c)
  where
    ready : (this.items == null) ≡ false
    ready = ground (arith, e, some_node)

-- An item that is released to a pool, whose node is none of the free ones, is the one acquired next, without
-- an allocation, and the free nodes are then the same list as before.
pub release-acquire :
    (a : Allocator) (this : Pool) (free : List ℕ) (item : ℕ)
    → Chain this.next this.items free
    → pool_node_size < item
    → Avoids (item - pool_node_size) free
    → ((acquire a (release this item)).0 ≡ item)
      × Chain (acquire a (release this item)).1.next (acquire a (release this item)).1.items free
      × ((acquire a (release this item)).1.pages ≡ this.pages)
unfolding release acquire
release-acquire a this free item c big av =
    let popped =
      acquire_pops a (release this item) (item - pool_node_size) free
        (release_pushes this free item c big av) in
    (popped.0 ∙ omega (arith, big), popped.1, rw (ready) refl)
  where
    ready : (item - pool_node_size == null) ≡ false
    ready = ground (arith, big)
