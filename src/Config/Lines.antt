-- ===== src/Config/Lines.antt =====
-- How the loop of `ms_config_parse` collects a line in its buffer.
use mathlib.Core.List.{append_assoc}
use moonsugar.Prelude.{
  ℕ, zero, suc, ◌≤◌, ◌<◌, ◌≡◌, ◌≢◌, refl, ap, ap₂, ◌∙◌, sym, arith, true, false, Option, some, List,
  [], ◌∷◌, ◌++◌, length, length-append, drop, ltb, ◌>>=◌,
}
use moonsugar.Api.{MsResult}
use moonsugar.Config.{is_newline, parse_line, put, parse_from, and_then}
use moonsugar.Config.Text.{IsText, string_copy-text, set-append_self}

-- The characters of one line.
abbrev pub IsLine : List ℕ → Type 0
IsLine [] = Unit
IsLine (c ∷ cs) = (c ≢ 0) × (is_newline c ≡ false) × IsLine cs

pub IsLine-IsText : (xs : List ℕ) → IsLine xs → IsText xs
IsLine-IsText [] h = tt
IsLine-IsText (c ∷ xs) (nz, nb, t) = (nz, IsLine-IsText xs t)

-- A line laid over what the buffer holds.
abbrev pub overlay : List ℕ → List ℕ → List ℕ
overlay line buff = line ++ drop (length line) buff

put_lem :
    (front : List ℕ) (d : ℕ) (back : List ℕ) (c : ℕ)
    → put (front ++ (d ∷ back)) (length front) c ≡ some (front ++ (c ∷ back))
put_lem front d back c = rw (inside) (ap some (set-append_self front d c back))
  where
    inside : ltb (length front) (length (front ++ (d ∷ back))) ≡ true
    inside = ground (arith, length-append front (d ∷ back))

drop_next : (n : ℕ) (xs : List ℕ) → n < length xs → (d : ℕ) × (drop n xs ≡ d ∷ drop (suc n) xs)
drop_next n [] h = absurd (omega (arith, h))
drop_next zero (x ∷ xs) h = (x, refl)
drop_next (suc n) (x ∷ xs) h = drop_next n xs (omega (arith, h))

module _ {ℓ} {S : Type ℓ} (limit : ℕ) (on_entry : S → List ℕ → Option (List ℕ) → MsResult × S) where
  parse_from-char :
      (c : ℕ) (config front : List ℕ) (d : ℕ) (back : List ℕ) (ctx : S)
      → is_newline c ≡ false
      → parse_from limit on_entry (c ∷ config) (front ++ (d ∷ back)) (length front) ctx
        ≡ parse_from limit on_entry config (front ++ (c ∷ back)) (suc (length front)) ctx
  unfolding parse_from
  parse_from-char c config front d back ctx h =
      rw (h, put_lem front d back c)
        (ap (λ j. parse_from limit on_entry config (front ++ (c ∷ back)) j ctx) (omega arith))

  parse_from-newline :
      (c : ℕ) (config front : List ℕ) (d : ℕ) (back : List ℕ) (ctx : S)
      → is_newline c ≡ true
      → parse_from limit on_entry (c ∷ config) (front ++ (d ∷ back)) (length front) ctx ≡ (
          parse_line limit on_entry (front ++ (0 ∷ back)) ctx >>= λ out.
          and_then out (parse_from limit on_entry config (front ++ (0 ∷ back)) 0))
  unfolding parse_from
  parse_from-newline c config front d back ctx h = rw (h, put_lem front d back 0) refl

  -- A line is laid over the buffer, behind what stands there of it.
  pub parse_from-line :
      (line config front buff : List ℕ) (ctx : S)
      → IsLine line
      → length line ≤ length buff
      → parse_from limit on_entry (line ++ config) (front ++ buff) (length front) ctx
        ≡ parse_from limit on_entry config (front ++ overlay line buff) (length (front ++ line)) ctx
  parse_from-line [] config front buff ctx h short =
      ap (λ j. parse_from limit on_entry config (front ++ buff) j ctx)
        (omega (arith, length-append front []))
  parse_from-line (c ∷ line) config front [] ctx h short = absurd (omega (arith, short))
  parse_from-line (c ∷ line) config front (d ∷ buff) ctx (nz, nb, h) short =
      parse_from-char c (line ++ config) front d buff ctx nb
      ∙ ap₂ (λ t j. parse_from limit on_entry (line ++ config) t j ctx)
          (sym (append_assoc front (c ∷ []) buff)) (omega (arith, length-append front (c ∷ [])))
      ∙ parse_from-line line config (front ++ (c ∷ [])) buff ctx h (omega (arith, short))
      ∙ ap₂ (λ t j. parse_from limit on_entry config t j ctx)
          (append_assoc front (c ∷ []) (overlay line buff))
          (ap length (append_assoc front (c ∷ []) line))

  -- A string parsed as a line: what stands behind it in memory does not matter.
  pub parse_line-back :
      (line back : List ℕ) (ctx : S)
      → IsLine line
      → length line < limit
      → parse_line limit on_entry (line ++ (0 ∷ back)) ctx
        ≡ parse_line limit on_entry (line ++ (0 ∷ [])) ctx
  unfolding parse_line
  parse_line-back line back ctx h short =
      rw
        (
          string_copy-text limit line back (IsLine-IsText line h) short,
          string_copy-text limit line [] (IsLine-IsText line h) short,
        )
        refl

  -- A line and the newline behind it.
  pub parse_from-ended :
      (line config buff : List ℕ) (c : ℕ) (ctx : S)
      → IsLine line
      → is_newline c ≡ true
      → length buff ≡ limit
      → length line < limit
      → parse_from limit on_entry (line ++ (c ∷ config)) buff 0 ctx ≡ (
          parse_line limit on_entry (line ++ (0 ∷ [])) ctx >>= λ out.
          and_then out (parse_from limit on_entry config (overlay (line ++ (0 ∷ [])) buff) 0))
  parse_from-ended line config buff c ctx h nl sized short =
      let (d, next) = drop_next (length line) buff (omega (arith, sized, short)) in
      parse_from-line line (c ∷ config) [] buff ctx h (omega (arith, sized, short))
      ∙ ap (λ t. parse_from limit on_entry (c ∷ config) (line ++ t) (length line) ctx) next
      ∙ parse_from-newline c config line d back ctx nl
      ∙ ap
          (λ t. t >>= λ out. and_then out (parse_from limit on_entry config (line ++ (0 ∷ back)) 0))
          (parse_line-back line back ctx h short)
      ∙ ap
          (λ t. parse_line limit on_entry (line ++ (0 ∷ [])) ctx >>= λ out.
            and_then out (parse_from limit on_entry config t 0))
          laid
    where
      back : List ℕ
      back = drop (suc (length line)) buff

      one_more : suc (length line) ≡ length (line ++ (0 ∷ []))
      one_more = omega (arith, length-append line (0 ∷ []))

      laid : line ++ (0 ∷ back) ≡ overlay (line ++ (0 ∷ [])) buff
      laid =
          sym (append_assoc line (0 ∷ []) back)
          ∙ ap (λ n. (line ++ (0 ∷ [])) ++ drop n buff) one_more
