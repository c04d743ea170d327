-- ===== src/FreeList/Links.antt =====
-- What the links of a free list spell, and what writing a link does to it.
use moonsugar.Prelude.{ℕ, suc, ◌≤◌, ◌<◌, ◌≡◌, ◌≢◌, refl, ap, ◌∙◌, sym, arith, List, [], ◌∷◌, ◌++◌}
use moonsugar.Api.{null}
use moonsugar.FreeList.{Node, Memory, write, set_next, set_prev}

-- The nodes of a list, from the first: address and size of each.
abbrev pub Nodes : Type 0
Nodes = List (ℕ × ℕ)

abbrev pub head : Nodes → ℕ → ℕ
head [] z = z
head ((a, n) ∷ rest) z = a

abbrev pub last : Nodes → ℕ → ℕ
last [] p = p
last ((a, n) ∷ rest) p = last rest a

-- The nodes follow each other in the memory, between the links `p` before them and `z` behind.
abbrev pub Linked : Memory → ℕ → Nodes → ℕ → Type 0
Linked mem p [] z = Unit
Linked mem p ((a, n) ∷ rest) z =
    (mem a ≡ record { next = head rest z; prev = p; size = n }) × Linked mem a rest z

-- The addresses ascend from `lo` and stay below `hi`.
abbrev pub Ascending : ℕ → Nodes → ℕ → Type 0
Ascending lo [] hi = lo ≤ hi
Ascending lo ((a, n) ∷ rest) hi = (lo ≤ a) × Ascending (suc a) rest hi

pub head-append : (xs ys : Nodes) (z : ℕ) → head (xs ++ ys) z ≡ head xs (head ys z)
head-append [] ys z = refl
head-append (x ∷ xs) ys z = refl

pub Linked-split :
    (mem : Memory) (p : ℕ) (xs ys : Nodes) (z : ℕ)
    → Linked mem p (xs ++ ys) z
    → Linked mem p xs (head ys z) × Linked mem (last xs p) ys z
Linked-split mem p [] ys z l = (tt, l)
Linked-split mem p ((a, n) ∷ xs) ys z (e, l) =
    let (front, back) = Linked-split mem a xs ys z l in
    ((e ∙ ap (λ q. record { next = q; prev = p; size = n }) (head-append xs ys z), front), back)

pub Linked-append :
    (mem : Memory) (p : ℕ) (xs ys : Nodes) (z : ℕ)
    → Linked mem p xs (head ys z)
    → Linked mem (last xs p) ys z
    → Linked mem p (xs ++ ys) z
Linked-append mem p [] ys z front back = back
Linked-append mem p ((a, n) ∷ xs) ys z (e, front) back = (
  e ∙ ap (λ q. record { next = q; prev = p; size = n }) (sym (head-append xs ys z)),
  Linked-append mem a xs ys z front back,
)

pub Ascending-le : (lo : ℕ) (xs : Nodes) (hi : ℕ) → Ascending lo xs hi → lo ≤ hi
Ascending-le lo [] hi h = h
Ascending-le lo ((a, n) ∷ xs) hi (h, rest) = omega (arith, Ascending-le (suc a) xs hi rest, h)

-- The links survive a change outside the range of the addresses.
pub Linked-frame :
    (mem mem' : Memory) (p lo : ℕ) (xs : Nodes) (z hi : ℕ)
    → Ascending lo xs hi
    → ((a : ℕ) → lo ≤ a → a < hi → mem' a ≡ mem a)
    → Linked mem p xs z
    → Linked mem' p xs z
Linked-frame mem mem' p lo [] z hi asc same l = tt
Linked-frame mem mem' p lo ((a, n) ∷ xs) z hi (h, asc) same (e, l) = (
  same a h (omega (arith, Ascending-le (suc a) xs hi asc)) ∙ e,
  Linked-frame mem mem' a (suc a) xs z hi asc (λ b above below. same b (omega arith) below) l,
)

pub last-range :
    (lo a n : ℕ) (xs : Nodes) (hi : ℕ)
    → Ascending lo ((a, n) ∷ xs) hi
    → (lo ≤ last xs a) × (last xs a < hi)
last-range lo a n [] hi (h, h') = (h, h')
last-range lo a n ((b, m) ∷ xs) hi (h, asc) =
    let (above, below) = last-range (suc a) b m xs hi asc in (omega arith, below)

-- Writes to one address.
pub write-same : (mem : Memory) (a : ℕ) (node : Node) → write mem a node a ≡ node
write-same mem a node = ground arith

pub write-other : (mem : Memory) (a : ℕ) (node : Node) (b : ℕ) → b ≢ a → write mem a node b ≡ mem b
write-other mem a node b ne = ground arith

pub set_next-other : (mem : Memory) (p q b : ℕ) → b ≢ p → set_next mem p q b ≡ mem b
set_next-other mem p q b ne = ground arith

pub set_prev-other : (mem : Memory) (q p b : ℕ) → b ≢ q → set_prev mem q p b ≡ mem b
set_prev-other mem q p b ne = ground arith

pub set_next-same :
    (mem : Memory) (p q : ℕ) → p ≢ null → set_next mem p q p ≡ record (mem p) { next = q }
set_next-same mem p q ne = ground arith

pub set_prev-same :
    (mem : Memory) (q p : ℕ) → q ≢ null → set_prev mem q p q ≡ record (mem q) { prev = p }
set_prev-same mem q p ne = ground arith

abbrev with_next : ℕ → Node → Node
with_next q node = record node { next = q }

abbrev with_prev : ℕ → Node → Node
with_prev p node = record node { prev = p }

-- The last node linked to another successor.
Linked-set_next :
    (mem : Memory) (p lo a n : ℕ) (xs : Nodes) (x q hi : ℕ)
    → 0 < lo
    → Ascending lo ((a, n) ∷ xs) hi
    → Linked mem p ((a, n) ∷ xs) x
    → Linked (set_next mem (last xs a) q) p ((a, n) ∷ xs) q
Linked-set_next mem p lo a n [] x q hi pos (h, asc) (e, l) =
    (set_next-same mem a q (omega arith) ∙ ap (with_next q) e, tt)
Linked-set_next mem p lo a n ((b, m) ∷ xs) x q hi pos (h, asc) (e, l) = (
  set_next-other mem (last xs b) q a (omega (arith, last-range (suc a) b m xs hi asc)) ∙ e,
  Linked-set_next mem a (suc a) b m xs x q hi (omega arith) asc l,
)

pub Linked-retarget :
    (mem : Memory) (lo : ℕ) (xs : Nodes) (x q hi : ℕ)
    → 0 < lo
    → Ascending lo xs hi
    → Linked mem null xs x
    → Linked (set_next mem (last xs null) q) null xs q
Linked-retarget mem lo [] x q hi pos asc l = tt
Linked-retarget mem lo ((a, n) ∷ xs) x q hi pos asc l =
    Linked-set_next mem null lo a n xs x q hi pos asc l

-- The first node linked to another predecessor.
pub Linked-set_prev :
    (mem : Memory) (y p lo : ℕ) (xs : Nodes) (z hi : ℕ)
    → 0 < lo
    → Ascending lo xs hi
    → Linked mem y xs z
    → Linked (set_prev mem (head xs null) p) p xs z
Linked-set_prev mem y p lo [] z hi pos asc l = tt
Linked-set_prev mem y p lo ((a, n) ∷ xs) z hi pos (h, asc) (e, l) = (
  set_prev-same mem a p (omega arith) ∙ ap (with_prev p) e,
  Linked-frame mem (set_prev mem a p) a (suc a) xs z hi asc
      (λ b above below. set_prev-other mem a p b (omega arith)) l,
)
