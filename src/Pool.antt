-- ===== src/Pool.antt =====
-- src/containers/pool.c: a pool of equal items, with the free ones in a list. The nodes stand in a memory, a
-- function from the address of a node to its `next`. An item is the address behind its node.
pub mod Chain
mod Tests
use moonsugar.Prelude.{
  ℕ, zero, suc, ◌+◌, ◌-◌, ◌*◌, ◌/◌, Bool, true, false, ◌||◌, Option, none, some, List, [], ◌∷◌,
  ◌++◌, u32, sub32, ◌==◌, if◌then◌else◌,
}
use moonsugar.Api.{MsResult, success, invalid_argument, Allocator, default_alignment, null}

-- `ms_pool`, less its allocator; `next` is the memory of its nodes.
pub record Pool : Type 0 where
  pub next : ℕ → ℕ
  pub pages : List ℕ
  pub items : ℕ
  pub item_count : ℕ
  pub item_size : ℕ
  pub items_per_page : ℕ

-- `ms_pool_description`, less its allocator.
pub record PoolDescription : Type 0 where
  pub item_size : ℕ
  pub items_per_page : ℕ

-- `sizeof(ms_pool_node)`.
abbrev pub pool_node_size : ℕ
pool_node_size = 8

-- `ms_pool_construct`.
pub construct : Pool → PoolDescription → MsResult × Pool
construct this desc =
    if desc.item_size == 0 || desc.items_per_page == 0 then (invalid_argument, this) else (
      success,
      record {
        next = this.next;
        pages = [];
        items = null;
        item_count = 0;
        item_size = desc.item_size;
        items_per_page = desc.items_per_page;
      },
    )

-- `ms_pool_destroy`; the second part is the pages that are freed.
pub destroy : Pool → Pool × List ℕ
destroy this = (record this { item_count = 0; items = null; pages = [] }, this.pages)

-- `node->next = target`.
abbrev pub set_link : (ℕ → ℕ) → ℕ → ℕ → ℕ → ℕ
set_link next node target a = if a == node then target else next a

-- The loop of `append_page`, over the nodes from `i` on.
pub link_from : (ℕ → ℕ) → ℕ → ℕ → ℕ → ℕ → ℕ → ℕ
link_from next page node_size i zero = next
link_from next page node_size i (suc n) =
    link_from (set_link next (page + u32 (i * node_size)) (page + u32 ((1 + i) * node_size))) page
      node_size (1 + i) n

-- `append_page`, where the allocator gives both blocks.
pub add_page : Allocator → Pool → Pool
unfolding link_from
add_page a this =
    let node_size = u32 (pool_node_size + this.item_size) in
    let page = a.allocate (u32 (node_size * this.items_per_page)) default_alignment in
    record this {
      next =
          set_link (link_from this.next page node_size 0 (this.items_per_page - 1))
            (page + u32 ((this.items_per_page - 1) * node_size)) null;
      pages = this.pages ++ (page ∷ []);
      item_count = u32 (this.item_count + this.items_per_page);
      items = page;
    }

-- `ms_pool_acquire`.
pub acquire : Allocator → Pool → ℕ × Pool
unfolding add_page
acquire a this =
    let ready = if this.items == null then add_page a this else this in
    (ready.items + pool_node_size, record ready { items = ready.next ready.items })

-- `ms_pool_release`.
pub release : Pool → ℕ → Pool
release this item =
    let node = item - pool_node_size in
    record this { next = set_link this.next node this.items; items = node }
