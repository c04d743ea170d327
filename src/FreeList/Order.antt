-- ===== src/FreeList/Order.antt =====
-- Free lists in the order of their addresses: taking a node out of one and putting one in.
use moonsugar.Prelude.{
  ℕ, suc, ◌≤◌, ◌<◌, ◌≡◌, ◌≢◌, refl, ap, ◌∙◌, arith, [], ◌∷◌, ◌++◌, ◌==◌, if◌then◌else◌,
}
use moonsugar.Api.{null}
use moonsugar.FreeList.{Node, Memory, FreeList, write, set_next, set_prev, detach_node, create_node}
use moonsugar.FreeList.Links.{
  Nodes, head, last, Linked, Ascending, Linked-split, Linked-append, Ascending-le, Linked-frame,
  last-range, write-same, write-other, set_next-other, set_prev-other, Linked-retarget,
  Linked-set_prev,
}

pub Ascending-split :
    (lo : ℕ) (xs : Nodes) (a n : ℕ) (ys : Nodes) (hi : ℕ)
    → Ascending lo (xs ++ ((a, n) ∷ ys)) hi
    → Ascending lo xs a × Ascending (suc a) ys hi
Ascending-split lo [] a n ys hi (h, asc) = (h, asc)
Ascending-split lo ((b, m) ∷ xs) a n ys hi (h, asc) =
    let (front, back) = Ascending-split (suc b) xs a n ys hi asc in ((h, front), back)

pub Ascending-weaken :
    (lo lo' : ℕ) (xs : Nodes) (hi : ℕ) → lo' ≤ lo → Ascending lo xs hi → Ascending lo' xs hi
Ascending-weaken lo lo' [] hi h asc = omega arith
Ascending-weaken lo lo' ((a, n) ∷ xs) hi h (above, rest) = (omega arith, rest)

pub Ascending-remove :
    (lo : ℕ) (xs : Nodes) (a n : ℕ) (ys : Nodes) (hi : ℕ)
    → Ascending lo (xs ++ ((a, n) ∷ ys)) hi
    → Ascending lo (xs ++ ys) hi
Ascending-remove lo [] a n ys hi (h, asc) = Ascending-weaken (suc a) lo ys hi (omega arith) asc
Ascending-remove lo ((b, m) ∷ xs) a n ys hi (h, asc) =
    (h, Ascending-remove (suc b) xs a n ys hi asc)

pub Ascending-append :
    (lo : ℕ) (xs : Nodes) (mid : ℕ) (ys : Nodes) (hi : ℕ)
    → Ascending lo xs mid
    → Ascending mid ys hi
    → Ascending lo (xs ++ ys) hi
Ascending-append lo [] mid ys hi h asc = Ascending-weaken mid lo ys hi h asc
Ascending-append lo ((a, n) ∷ xs) mid ys hi (h, front) asc =
    (h, Ascending-append (suc a) xs mid ys hi front asc)

pub last-append : (xs : Nodes) (a n p : ℕ) → last (xs ++ ((a, n) ∷ [])) p ≡ a
last-append [] a n p = refl
last-append ((b, m) ∷ xs) a n p = last-append xs a n b

-- An address behind all nodes is none of their links; nor is one before them.
pub last-outside :
    (lo : ℕ) (xs : Nodes) (hi b : ℕ) → Ascending lo xs hi → hi ≤ b → 0 < b → b ≢ last xs null
last-outside lo [] hi b asc h pos e = omega (arith, e)
last-outside lo ((a, n) ∷ xs) hi b asc h pos e = omega (arith, e, last-range lo a n xs hi asc)

pub head-outside :
    (lo : ℕ) (ys : Nodes) (hi b : ℕ) → Ascending lo ys hi → b < lo → 0 < b → b ≢ head ys null
head-outside lo [] hi b asc h pos e = omega (arith, e)
head-outside lo ((a, n) ∷ ys) hi b (above, asc) h pos e = omega (arith, e, above)

module _ {U : Type 0} where
  -- The nodes of a list are these, whatever their sizes and gaps.
  pub record Holds (list : FreeList U) (nodes : Nodes) : Type 0 where
    pub first : list.first ≡ head nodes null
    pub linked : Linked list.mem null nodes null

  -- The node at its place among the others.
  pub Holds-node :
      (list : FreeList U) (front : Nodes) (a n : ℕ) (back : Nodes)
      → Holds list (front ++ ((a, n) ∷ back))
      → list.mem a ≡ record { next = head back null; prev = last front null; size = n }
  Holds-node list front a n back h =
      (Linked-split list.mem null front ((a, n) ∷ back) null h.linked).1.0

  -- `detach_node` takes out one node, and does not write to it.
  pub detach_node-Holds :
      (list : FreeList U) (front : Nodes) (a n : ℕ) (back : Nodes) (hi : ℕ)
      → Holds list (front ++ ((a, n) ∷ back))
      → Ascending 1 (front ++ ((a, n) ∷ back)) hi
      → let after = detach_node list a in Holds after (front ++ back) × (after.mem a ≡ list.mem a)
  unfolding detach_node
  detach_node-Holds list front a n back hi h asc = (
    record { first = first_after front h.first below; linked = rw node linked },
    rw node (
        set_prev-other mem1 q p a (head-outside (suc a) back hi a above (omega arith) pos)
        ∙ set_next-other list.mem p q a (last-outside 1 front a a below (omega arith) pos)
        ∙ node),
  )
    where
      p : ℕ
      p = last front null

      q : ℕ
      q = head back null

      node : list.mem a ≡ record { next = head back null; prev = last front null; size = n }
      node = Holds-node list front a n back h

      below : Ascending 1 front a
      below = (Ascending-split 1 front a n back hi asc).0

      above : Ascending (suc a) back hi
      above = (Ascending-split 1 front a n back hi asc).1

      pos : 0 < a
      pos = Ascending-le 1 front a below

      mem1 : Memory
      mem1 = set_next list.mem p q

      linked : Linked (set_prev mem1 q p) null (front ++ back) null
      linked =
          let (l, (e, l')) = Linked-split list.mem null front ((a, n) ∷ back) null h.linked in
          Linked-append (set_prev mem1 q p) null front back null
            (Linked-frame mem1 (set_prev mem1 q p) null 1 front q a below
              (λ b lo hi'.
                set_prev-other mem1 q p b
                  (head-outside (suc a) back hi b above (omega arith) (omega arith)))
              (Linked-retarget list.mem 1 front a q a (omega arith) below l))
            (Linked-set_prev mem1 a p (suc a) back null hi (omega arith) above (
              Linked-frame list.mem mem1 a (suc a) back null hi above
                (λ b lo hi'.
                  set_next-other list.mem p q b
                    (last-outside 1 front a b below (omega arith) (omega arith)))
                l'))

      first_after :
          (front : Nodes)
          → list.first ≡ head (front ++ ((a, n) ∷ back)) null
          → Ascending 1 front a
          → (if list.first == a then (list.mem a).next else list.first) ≡ head (front ++ back) null
      first_after [] e asc = ground (arith, e, ap (λ (node : Node). node.next) node)
      first_after ((c, m) ∷ front) e (h, asc) = ground (arith, e, Ascending-le (suc c) front a asc)

  -- `create_node` puts a node between the two halves of a list.
  pub create_node-Holds :
      (on_create : ℕ → ℕ → U → U) (on_alloc : ℕ → ℕ → U → U) (list : FreeList U) (front : Nodes)
      (c n : ℕ) (back : Nodes) (hi : ℕ)
      → Holds list (front ++ back)
      → Ascending 1 front c
      → Ascending (suc c) back hi
      → Holds
          (create_node on_create on_alloc list c (last front null) (head back null) n)
          (front ++ ((c, n) ∷ back))
  unfolding create_node
  create_node-Holds on_create on_alloc list front c n back hi h below above = record {
    first = first_after front h.first below;
    linked = linked;
  }
    where
      p : ℕ
      p = last front null

      q : ℕ
      q = head back null

      made : Node
      made = record { next = q; prev = p; size = n }

      mem0 : Memory
      mem0 = write list.mem c made

      mem1 : Memory
      mem1 = set_next mem0 p c

      mem2 : Memory
      mem2 = set_prev mem1 q c

      pos : 0 < c
      pos = Ascending-le 1 front c below

      linked : Linked mem2 null (front ++ ((c, n) ∷ back)) null
      linked =
          let (l, l') = Linked-split list.mem null front back null h.linked in
          Linked-append mem2 null front ((c, n) ∷ back) null
            (Linked-frame mem1 mem2 null 1 front c c below
              (λ b lo hi'.
                set_prev-other mem1 q c b
                  (head-outside (suc c) back hi b above (omega arith) (omega arith)))
              (Linked-retarget mem0 1 front q c c (omega arith) below (
                Linked-frame list.mem mem0 null 1 front q c below
                  (λ b lo hi'. write-other list.mem c made b (λ e. omega (arith, e, hi'))) l)))
            (
              set_prev-other mem1 q c c (head-outside (suc c) back hi c above (omega arith) pos)
                  ∙ set_next-other mem0 p c c (last-outside 1 front c c below (omega arith) pos)
                  ∙ write-same list.mem c made,
              Linked-set_prev mem1 p c (suc c) back null hi (omega arith) above (
                  Linked-frame mem0 mem1 p (suc c) back null hi above
                    (λ b lo hi'.
                      set_next-other mem0 p c b
                        (last-outside 1 front c b below (omega arith) (omega arith)))
                    (Linked-frame list.mem mem0 p (suc c) back null hi above
                      (λ b lo hi'. write-other list.mem c made b (λ e. omega (arith, e, lo))) l')),
            )

      first_after :
          (front : Nodes)
          → list.first ≡ head (front ++ back) null
          → Ascending 1 front c
          → (if last front null == null then c else list.first)
            ≡ head (front ++ ((c, n) ∷ back)) null
      first_after [] e asc = refl
      first_after ((a, m) ∷ front) e asc = ground (arith, e, last-range 1 a m front c asc)
