-- ===== src/Uri/Parts.antt =====
-- How the parts of a URI without authority are found in the output buffer.

use moonsugar.Prelude.{
  ℕ, ◌+◌, ◌<◌, ◌≡◌, refl, ap, ap₂, ◌∙◌, sym, arith, false, none, some, List, [], ◌∷◌, ◌++◌, length,
  length-append, get_or, ◌==◌,
}
use moonsugar.Config.Text.{get_or-append_self}
use moonsugar.Uri.{Uri, no_port, cut, read_hierarchy, read_tail}
use moonsugar.Uri.Scan.{Lacks, different, cut-hit}
use moonsugar.Uri.Decode.{regroup}

-- The first character of a part.
head-Lacks :
    (front xs rest : List ℕ) (c : ℕ)
    → Lacks c xs
    → 0 < length xs
    → (get_or (front ++ (xs ++ rest)) (length front) 0 == c) ≡ false
head-Lacks front [] rest c h more = absurd (omega (arith, more))
head-Lacks front (x ∷ xs) rest c (nz, nc, h) more =
    ap (λ x. x == c) (get_or-append_self front x (xs ++ rest) 0) ∙ different x c nc

cut-next :
    (front xs ys rest : List ℕ)
    → Lacks b'#' ys
    → cut (front ++ (xs ++ (0 ∷ (ys ++ (b'#' ∷ rest))))) (length front + length xs + 1) b'#'
      ≡ some (
        some (length front + length xs + 1 + length ys + 1),
        front ++ (xs ++ (0 ∷ (ys ++ (0 ∷ rest)))),
      )
cut-next front xs ys rest hash =
    let here : length front + length xs + 1 ≡ length (front ++ (xs ++ (0 ∷ []))) =
      omega (arith, length-append front (xs ++ (0 ∷ [])), length-append xs (0 ∷ [])) in
    ap₂ (λ o p. cut o p b'#') (regroup front xs [] (ys ++ (b'#' ∷ rest))) here
    ∙ cut-hit (front ++ (xs ++ (0 ∷ []))) ys rest b'#' hash (omega arith)
    ∙ ap₂ (λ n o. some (some (n + length ys + 1), o)) (sym here)
        (sym (regroup front xs [] (ys ++ (0 ∷ rest))))

module _ (atoi : List ℕ → ℕ) where
  pub read_hierarchy_lem :
      (front xs rest : List ℕ) (data_in : Uri)
      → Lacks b'/' xs
      → Lacks b'?' xs
      → Lacks b'#' xs
      → 0 < length xs
      → read_hierarchy atoi (front ++ (xs ++ rest)) (length front) data_in
        ≡ some (
          front ++ (xs ++ rest),
          length front,
          record data_in {
            user = none;
            password = none;
            host = none;
            port = no_port;
            path = some (length front);
          },
        )
  unfolding read_hierarchy
  read_hierarchy_lem front xs rest data_in slash query hash more =
      rw
        (
          head-Lacks front xs rest b'/' slash more,
          head-Lacks front xs rest b'?' query more,
          head-Lacks front xs rest b'#' hash more,
        )
        refl

  pub read_tail_lem :
      (front xs ys rest : List ℕ) (data_in : Uri)
      → Lacks b'?' xs
      → Lacks b'#' ys
      → read_tail atoi (front ++ (xs ++ (b'?' ∷ (ys ++ (b'#' ∷ rest))))) (length front) data_in
        ≡ some (
          front ++ (xs ++ (0 ∷ (ys ++ (0 ∷ rest)))),
          record data_in {
            query = some (length front + length xs + 1);
            fragment = some (length front + length xs + 1 + length ys + 1);
          },
        )
  unfolding read_tail
  read_tail_lem front xs ys rest data_in query hash =
      rw (cut-hit front xs (ys ++ (b'#' ∷ rest)) b'?' query (omega arith))
        (rw (cut-next front xs ys rest hash) refl)
