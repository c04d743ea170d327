-- ===== src/Arena/Chain.antt =====
-- What `ms_arena_free`, `ms_arena_clear` and `ms_arena_realloc` do with the chain.
use moonsugar.Prelude.{
  ℕ, suc, ◌+◌, ◌^◌, ◌≤◌, ◌<◌, ◌≡◌, ◌⊎◌, inl, inr, refl, ap, sym, subst, arith, Bool, true, false,
  not, ◌&&◌, Bool-cases, none, some, List, [], ◌∷◌, ◌++◌, length, ltb, leb, ◌==◌, if◌then◌else◌,
  ◌>>=◌,
}
use moonsugar.Api.{Allocator, null}
use moonsugar.FreeList.{Node, Memory, create_node, node_size}
use moonsugar.FreeList.Stale.{create_node-first}
use moonsugar.Heap.{Header, header_at, place}
use moonsugar.Heap.Place.{PlacedAt}
use moonsugar.Arena.{
  Arena, ArenaNode, base_of, no_callback, belongs, is_sticky, free_in, free_from, free, realloc,
  clear_from, clear,
}
use moonsugar.Arena.Nodes.{NodeValid, whole-NodeValid}
use moonsugar.Arena.Free.{Block, Returned, free_in-Returned}

-- No node of the list holds the pointer.
abbrev pub NoneBelongs : List ArenaNode → ℕ → Type 0
NoneBelongs [] ptr = Unit
NoneBelongs (node ∷ nodes) ptr = (belongs node ptr ≡ false) × NoneBelongs nodes ptr

-- The chain after a block is given back to `after`: where that is empty and nodes are not kept, it is freed, and
-- the chain ends before it.
abbrev pub chained : Bool → List ArenaNode → ArenaNode → List ArenaNode → List ArenaNode × List ℕ
chained sticky front after back =
    if after.allocated_size == 0 && not sticky
    then (front, after.at ∷ [])
    else (front ++ (after ∷ back), [])

chained-cons :
    (sticky : Bool) (node : ArenaNode) (front : List ArenaNode) (after : ArenaNode)
    (back : List ArenaNode)
    → (node ∷ (chained sticky front after back).0, (chained sticky front after back).1)
      ≡ chained sticky (node ∷ front) after back
chained-cons sticky node front after back =
    elim (Bool-cases (after.allocated_size == 0 && not sticky)) [
      | inl t ↦ rw t refl
      | inr f ↦ rw f refl
    ]

free_from_lem :
    (sticky : Bool) (fuel : ℕ) (front : List ArenaNode) (node after : ArenaNode)
    (back : List ArenaNode) (headers : ℕ → Header) (ptr : ℕ) (stale : Node)
    → NoneBelongs front ptr
    → belongs node ptr ≡ true
    → free_in fuel node headers ptr stale ≡ some after
    → free_from sticky fuel (front ++ (node ∷ back)) headers ptr stale
      ≡ some (chained sticky front after back)
unfolding free_from
free_from_lem sticky fuel [] node after back headers ptr stale h b e =
    rw (b, e)
      (elim (Bool-cases (after.allocated_size == 0 && not sticky)) [
        | inl t ↦ rw t refl
        | inr f ↦ rw f refl
      ])
free_from_lem sticky fuel (other ∷ front) node after back headers ptr stale (outside, h) b e =
    rw (outside, free_from_lem sticky fuel front node after back headers ptr stale h b e)
      (ap some (chained-cons sticky other front after back))

-- `ms_arena_free` of a block of a valid node, which is the first of the chain that the pointer belongs to, where
-- the block's bytes spell its size as that of a free node. The node counts the block no more; where it is empty
-- then and the arena does not keep empty nodes, it is freed, and the nodes behind it are lost from the chain.
pub arena_free_lem :
    (fuel : ℕ) (arena : Arena) (front : List ArenaNode) (node : ArenaNode) (back : List ArenaNode)
    (v : NodeValid node) (ptr : ℕ) (stale : Node)
    → arena.nodes ≡ front ++ (node ∷ back)
    → NoneBelongs front ptr
    → belongs node ptr ≡ true
    → (b : Block node v arena.headers ptr) → stale.size ≡ (arena.headers (header_at ptr)).size
    → length b.front < fuel
    → (r : Returned node
        (arena.headers (header_at ptr)).size
        (free_in fuel node arena.headers ptr stale))
      × (free fuel arena ptr stale
          ≡ some (
            record arena { nodes = (chained (is_sticky arena) front r.after back).0 },
            (chained (is_sticky arena) front r.after back).1,
          ))
unfolding free
arena_free_lem fuel arena front node back v ptr stale at h here b same enough =
    let r = free_in-Returned fuel node v arena.headers ptr stale b same enough in
    (
      r,
      rw
          (
            some_ptr,
            at,
            free_from_lem (is_sticky arena) fuel front node r.after back arena.headers ptr stale h
                here r.run,
          )
          refl,
    )
  where
    some_ptr : (ptr == null) ≡ false
    some_ptr = ground (arith, here)

abbrev pub AllEmpty : List ArenaNode → Type 0
AllEmpty [] = Unit
AllEmpty (node ∷ nodes) = NodeValid node × (node.allocated_size ≡ 0) × AllEmpty nodes

abbrev pub AllRoomy : List ArenaNode → Type 0
AllRoomy [] = Unit
AllRoomy (node ∷ nodes) =
    (node_size ≤ node.total_size) × (base_of node + node.total_size < 2 ^ 64) × AllRoomy nodes

clear_from-kept :
    (nodes : List ArenaNode)
    → AllRoomy nodes
    → (after : List ArenaNode) × (clear_from true nodes ≡ some after)
      × (length after ≡ length nodes)
      × AllEmpty after
unfolding clear_from
clear_from-kept [] h = ([], refl, refl, tt)
clear_from-kept (node ∷ nodes) (large, room, h) =
    let (after, run, len, empty) = clear_from-kept nodes h in
    (kept ∷ after, rw run refl, ap suc len, (valid, refl, empty))
  where
    kept : ArenaNode
    kept = record node {
      free_list =
          create_node no_callback no_callback node.free_list (base_of node) null null
            node.total_size;
      allocated_size = 0;
    }

    valid : NodeValid kept
    valid =
        subst (λ list. NodeValid (record kept { free_list = list }))
          (sym (
            create_node-first no_callback no_callback node.free_list (base_of node)
              node.total_size))
          (whole-NodeValid node.free_list.mem node.at node.total_size large room).0

clear_from-freed :
    (nodes : List ArenaNode)
    → (clear_from false nodes ≡ none) ⊎ ((nodes ≡ []) × (clear_from false nodes ≡ some []))
unfolding clear_from
clear_from-freed [] = inr (refl, refl)
clear_from-freed (node ∷ nodes) = inl refl

-- `ms_arena_clear` of an arena that keeps its nodes ends, with as many nodes, each valid and empty. Where the
-- arena does not keep them and has any, the loop reads from the first node after it is freed.
pub clear_cases :
    (arena : Arena)
    → AllRoomy arena.nodes
    → ((is_sticky arena ≡ true)
        × ((after : Arena) × (clear arena ≡ some after)
            × (length after.nodes ≡ length arena.nodes)
            × AllEmpty after.nodes))
      ⊎ ((is_sticky arena ≡ false)
          × ((clear arena ≡ none) ⊎ ((arena.nodes ≡ []) × (clear arena ≡ some arena))))
unfolding clear
clear_cases arena h = elim (Bool-cases (is_sticky arena)) [
  | inl t ↦
      let (after, run, len, empty) = clear_from-kept arena.nodes h in
      inl (t, (record arena { nodes = after }, rw (t, run) refl, len, empty))
  | inr f ↦ inr (f, rw f (freed (clear_from-freed arena.nodes)))
]
  where
    freed :
        (clear_from false arena.nodes ≡ none)
          ⊎ ((arena.nodes ≡ []) × (clear_from false arena.nodes ≡ some []))
        → ((clear_from false arena.nodes >>= λ nodes. some (record arena { nodes = nodes })) ≡ none)
          ⊎ ((arena.nodes ≡ [])
              × ((clear_from false arena.nodes >>= λ nodes. some (record arena { nodes = nodes }))
                  ≡ some arena))
    freed (inl run) = inl (rw run refl)
    freed (inr (e, run)) =
        inr (e, rw run (ap (λ nodes. some (record arena { nodes = nodes })) (sym e)))

-- `ms_arena_realloc` compares the bytes asked for with the size of the whole chunk, the header and the padding
-- included: asked for as many bytes as the chunk of a block has, it returns the block where it is, though the
-- last of these bytes lie behind the end of the chunk.
pub realloc_overruns :
    (a : Allocator) (fresh : Memory) (fuel : ℕ) (arena : Arena) (headers : ℕ → Header)
    (chunk size k : ℕ) (stale : Node)
    → PlacedAt headers chunk size k
    → 0 < size
    → let (ptr, after) = place headers chunk size (2 ^ k) in
      (realloc a fresh fuel (record arena { headers = after }) ptr size stale
        ≡ some (ptr, record arena { headers = after }, []))
      × (chunk + size < ptr + size)
unfolding realloc
realloc_overruns a fresh fuel arena headers chunk size k stale at some_bytes =
    (rw (some_ptr, large, fits) refl, omega (arith, at.behind))
  where
    ptr : ℕ
    ptr = (place headers chunk size (2 ^ k)).0

    some_ptr : (ptr == null) ≡ false
    some_ptr = ground (arith, at.behind)

    large : ltb 0 size ≡ true
    large = ground (arith, some_bytes)

    fits : leb size ((place headers chunk size (2 ^ k)).1 (header_at ptr)).size ≡ true
    fits = ground (arith, ap (λ (h : Header). h.size) at.header)
