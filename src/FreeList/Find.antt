-- ===== src/FreeList/Find.antt =====
-- The walks over a free list: they end, and what they find.
use mathlib.Core.List.{append_assoc}
use moonsugar.Prelude.{
  ℕ, zero, suc, ◌≤◌, ◌<◌, ◌≡◌, ◌≢◌, ◌⊎◌, inl, inr, refl, ap, ◌∙◌, sym, subst, arith, Bool, true,
  false, not, ◌||◌, Bool-cases, dec_lt, some, [], ◌∷◌, ◌++◌, length, ltb, leb, ◌==◌, if◌then◌else◌,
}
use moonsugar.Api.{null}
use moonsugar.FreeList.{Node, Memory, first_fit, refine, find_smallest_node}
use moonsugar.FreeList.Links.{Nodes, head, Linked, Ascending}

-- A node that is large enough, at its place.
pub record Fitting (nodes : Nodes) (count : ℕ) (a : ℕ) : Type 0 where
  pub front : Nodes
  pub size : ℕ
  pub back : Nodes
  pub at : nodes ≡ front ++ ((a, size) ∷ back)
  pub large : count ≤ size

Fitting-cons :
    {nodes : Nodes} {count a : ℕ} (node : ℕ × ℕ)
    → Fitting nodes count a
    → Fitting (node ∷ nodes) count a
Fitting-cons node f = record {
  front = node ∷ f.front;
  size = f.size;
  back = f.back;
  at = ap (◌∷◌ node) f.at;
  large = f.large;
}

-- No node is large enough.
abbrev pub AllSmall : Nodes → ℕ → Type 0
AllSmall [] count = Unit
AllSmall ((a, n) ∷ nodes) count = (n < count) × AllSmall nodes count

-- One node of a walk.
node-next :
    (mem : Memory) (p a n : ℕ) (rest : Nodes)
    → Linked mem p ((a, n) ∷ rest) null
    → (mem a).next ≡ head rest null
node-next mem p a n rest (e, l) = ap (λ (node : Node). node.next) e

node-size :
    (mem : Memory) (p a n : ℕ) (rest : Nodes) → Linked mem p ((a, n) ∷ rest) null → (mem a).size ≡ n
node-size mem p a n rest (e, l) = ap (λ (node : Node). node.size) e

-- The second loop ends with the node it was given or with another that is large enough.
refine-Fitting :
    (fuel : ℕ) (mem : Memory) (p lo : ℕ) (nodes : Nodes) (hi smallest count : ℕ)
    → 0 < lo
    → Ascending lo nodes hi
    → Linked mem p nodes null
    → length nodes < fuel
    → (r : ℕ) × (refine fuel mem (head nodes null) smallest count ≡ some r)
      × ((r ≡ smallest) ⊎ Fitting nodes count r)
unfolding refine
refine-Fitting zero mem p lo nodes hi smallest count pos asc l enough =
    absurd (omega (arith, enough))
refine-Fitting (suc fuel) mem p lo [] hi smallest count pos asc l enough =
    (smallest, refl, inl refl)
refine-Fitting (suc fuel) mem p lo ((a, n) ∷ nodes) hi smallest count pos (above, asc) l enough =
    rw (node-next mem p a n nodes l, node-size mem p a n nodes l)
      (by_stop (Bool-cases stop) (
        refine-Fitting fuel mem a (suc a) nodes hi better count (omega arith) asc (l.1)
          (omega (arith, enough))))
  where
    stop : Bool
    stop = (a == null) || not (ltb n (mem smallest).size)

    better : ℕ
    better = if leb count n then a else smallest

    here : (r : ℕ) → r ≡ better → (r ≡ smallest) ⊎ Fitting ((a, n) ∷ nodes) count r
    here r e = elim (dec_lt n count) [
      | yes h ↦ inl (e ∙ ground (arith, h))
      | no g ↦ inr (
          subst (Fitting ((a, n) ∷ nodes) count) (sym (e ∙ ground (arith, g)))
            (record { front = []; size = n; back = nodes; at = refl; large = omega (arith, g) }))
    ]

    by_stop :
        (stop ≡ true) ⊎ (stop ≡ false)
        → (r : ℕ) × (refine fuel mem (head nodes null) better count ≡ some r)
          × ((r ≡ better) ⊎ Fitting nodes count r)
        → (r : ℕ) × ((if stop
              then some smallest
              else refine fuel mem (head nodes null) better count)
            ≡ some r)
          × ((r ≡ smallest) ⊎ Fitting ((a, n) ∷ nodes) count r)
    by_stop (inl t) rest = (smallest, rw t refl, inl refl)
    by_stop (inr f) (r, run, inl e) = (r, rw f run, here r e)
    by_stop (inr f) (r, run, inr fit) = (r, rw f run, inr (Fitting-cons (a, n) fit))

-- What the first loop finds, and what is left of the list behind it.
record FirstFit (mem : Memory) (nodes : Nodes) (hi count a : ℕ) : Type 0 where
  fitting : Fitting nodes count a
  ne_null : a ≢ null
  next : (mem a).next ≡ head (fitting.back) null
  linked : Linked mem a (fitting.back) null
  ascending : Ascending (suc a) (fitting.back) hi
  shorter : length (fitting.back) < length nodes

module _ (mem : Memory) (count : ℕ) where
  first_fit-FirstFit :
      (fuel p lo : ℕ) (nodes : Nodes) (hi : ℕ)
      → 0 < lo
      → Ascending lo nodes hi
      → Linked mem p nodes null
      → length nodes < fuel
      → ((first_fit fuel mem (head nodes null) count ≡ some null) × AllSmall nodes count)
        ⊎ ((a : ℕ) × (first_fit fuel mem (head nodes null) count ≡ some a)
            × FirstFit mem nodes hi count a)
  unfolding first_fit Fitting-cons
  first_fit-FirstFit zero p lo nodes hi pos asc l enough = absurd (omega (arith, enough))
  first_fit-FirstFit (suc fuel) p lo [] hi pos asc l enough = inl (refl, tt)
  first_fit-FirstFit (suc fuel) p lo ((a, n) ∷ nodes) hi pos (above, asc) l enough =
      rw (node-next mem p a n nodes l, node-size mem p a n nodes l, real)
        (elim (dec_lt n count) [
          | no g ↦ inr (
            a,
            rw (enough_bytes g) refl,
            record {
              fitting = record {
                front = [];
                size = n;
                back = nodes;
                at = refl;
                large = omega (arith, g);
              };
              ne_null = λ e. omega (arith, e, above);
              next = node-next mem p a n nodes l;
              linked = l.1;
              ascending = asc;
              shorter = omega arith;
            },
          )
          | yes h ↦
              elim (first_fit-FirstFit fuel a (suc a) nodes hi (omega arith) asc (l.1)
                (omega (arith, enough))) [
                  | inl (run, small) ↦ inl (rw (too_few h) run, (h, small))
                  | inr (b, run, f) ↦ inr (
                    b,
                    rw (too_few h) run,
                    record {
                      fitting = Fitting-cons (a, n) f.fitting;
                      ne_null = f.ne_null;
                      next = f.next;
                      linked = f.linked;
                      ascending = f.ascending;
                      shorter = omega (arith, f.shorter);
                    },
                  )
                ]
        ])
    where
      real : (a == null) ≡ false
      real = ground arith

      enough_bytes : ¬ (n < count) → leb count n ≡ true
      enough_bytes g = ground (arith, g)

      too_few : n < count → leb count n ≡ false
      too_few h = ground (arith, h)

  -- The search returns NULL where every node is too small, and else one that is large enough.
  pub find_smallest_node-Fitting :
      (fuel p lo : ℕ) (nodes : Nodes) (hi : ℕ)
      → 0 < lo
      → Ascending lo nodes hi
      → Linked mem p nodes null
      → length nodes < fuel
      → ((find_smallest_node fuel mem (head nodes null) count ≡ some null) × AllSmall nodes count)
        ⊎ ((a : ℕ) × (find_smallest_node fuel mem (head nodes null) count ≡ some a)
            × Fitting nodes count a)
  unfolding find_smallest_node
  find_smallest_node-Fitting fuel p lo nodes hi pos asc l enough =
      elim (first_fit-FirstFit fuel p lo nodes hi pos asc l enough) [
        | inl (run, small) ↦ inl (rw run refl, small)
        | inr (a, run, f) ↦
            let (r, refined, which) =
              refine-Fitting fuel mem a (suc a) (f.fitting.back) hi a count (omega arith)
                f.ascending f.linked (omega (arith, f.shorter, enough)) in
            inr (r, rw (run, not_null f.ne_null, f.next) refined, found f r which)
      ]
    where
      not_null : {a : ℕ} → a ≢ null → (a == null) ≡ false
      not_null ne = ground (arith, ne)

      found :
          {a : ℕ} (f : FirstFit mem nodes hi count a) (r : ℕ)
          → (r ≡ a) ⊎ Fitting (f.fitting.back) count r
          → Fitting nodes count r
      found f r (inl e) = subst (Fitting nodes count) (sym e) f.fitting
      found {a} f r (inr g) = record {
        front = f.fitting.front ++ ((a, f.fitting.size) ∷ g.front);
        size = g.size;
        back = g.back;
        at =
            f.fitting.at
            ∙ ap (λ xs. f.fitting.front ++ ((a, f.fitting.size) ∷ xs)) g.at
            ∙ sym (
                append_assoc f.fitting.front ((a, f.fitting.size) ∷ g.front)
                  ((r, g.size) ∷ g.back));
        large = g.large;
      }
