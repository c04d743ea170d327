-- ===== src/Config/Whole.antt =====
-- A whole text: its lines in order, and what the buffer still holds behind the last one.
use mathlib.Core.List.{append_assoc, append-nil}
use mathlib.Core.Path.{fun_ext}
use moonsugar.Prelude.{
  ℕ, ◌≤◌, ◌<◌, ◌≡◌, ap, ◌∙◌, sym, arith, true, Option, List, [], ◌∷◌, ◌++◌, length, length-append,
  length-drop, length-replicate, drop, replicate, ◌>>=◌,
}
use moonsugar.Api.{MsResult}
use moonsugar.Config.{is_newline, parse_line, parse_from, parse, and_then}
use moonsugar.Config.Lines.{IsLine, overlay, parse_line-back, parse_from-line, parse_from-ended}

-- Lines with the newline behind each, and a last line.
abbrev pub text_of : List (List ℕ × ℕ) → List ℕ → List ℕ
text_of [] last = last
text_of ((line, c) ∷ lines) last = line ++ (c ∷ text_of lines last)

abbrev pub AreLines : ℕ → List (List ℕ × ℕ) → Type 0
AreLines limit [] = Unit
AreLines limit ((line, c) ∷ lines) =
    IsLine line × (is_newline c ≡ true) × (length line < limit) × AreLines limit lines

length-overlay :
    (line buff : List ℕ) → length line ≤ length buff → length (overlay line buff) ≡ length buff
length-overlay line buff h =
    omega (arith, length-append line (drop (length line) buff), length-drop (length line) buff)

module _ {ℓ} {S : Type ℓ} (limit : ℕ) (on_entry : S → List ℕ → Option (List ℕ) → MsResult × S) where
  -- Each line by itself, until one gives an error. Behind the last there is what the buffer holds.
  pub parse_lines : List ℕ → List (List ℕ × ℕ) → List ℕ → S → Option (MsResult × S)
  parse_lines buff [] last ctx = parse_line limit on_entry (overlay last buff) ctx
  parse_lines buff ((line, c) ∷ lines) last ctx =
      parse_line limit on_entry (line ++ (0 ∷ [])) ctx >>= λ out.
      and_then out (parse_lines (overlay (line ++ (0 ∷ [])) buff) lines last)

  parse_from-eq-parse_lines :
      (lines : List (List ℕ × ℕ)) (last buff : List ℕ) (ctx : S)
      → AreLines limit lines
      → IsLine last
      → length last ≤ limit
      → length buff ≡ limit
      → parse_from limit on_entry (text_of lines last) buff 0 ctx ≡ parse_lines buff lines last ctx
  unfolding parse_lines parse_from
  parse_from-eq-parse_lines [] last buff ctx h hl short sized =
      ap (λ t. parse_from limit on_entry t buff 0 ctx) (sym (append-nil last))
      ∙ parse_from-line limit on_entry last [] [] buff ctx hl (omega (arith, short, sized))
  parse_from-eq-parse_lines ((line, c) ∷ lines) last buff ctx (hline, nl, less, h) hl short sized =
      parse_from-ended limit on_entry line (text_of lines last) buff c ctx hline nl sized less
      ∙ ap (λ f. parse_line limit on_entry (line ++ (0 ∷ [])) ctx >>= λ out. and_then out f)
          (fun_ext (λ next.
            parse_from-eq-parse_lines lines last (overlay (line ++ (0 ∷ [])) buff) next h hl short
              resized))
    where
      resized : length (overlay (line ++ (0 ∷ [])) buff) ≡ limit
      resized =
          length-overlay (line ++ (0 ∷ [])) buff
            (omega (arith, less, sized, length-append line (0 ∷ [])))
          ∙ sized

  -- A text of lines shorter than the buffer, whatever newline character ends each, is parsed line by line: each
  -- line by itself and in order, until one gives an error, whose result is returned. What is parsed at the end
  -- is the last line with what the buffer holds behind it, a buffer that is NUL at first and keeps the lines.
  pub parse-eq-parse_lines :
      (lines : List (List ℕ × ℕ)) (last : List ℕ) (ctx : S)
      → AreLines limit lines
      → IsLine last
      → length last ≤ limit
      → parse limit on_entry (text_of lines last) ctx
        ≡ parse_lines (replicate limit 0) lines last ctx
  unfolding parse
  parse-eq-parse_lines lines last ctx h hl short =
      parse_from-eq-parse_lines lines last (replicate limit 0) ctx h hl short
        (length-replicate limit 0)

  -- Where the text is one line and a newline, the line is parsed twice: its entry is reported once more with
  -- the context of the first time, unless the first time gives an error.
  pub parse_twice :
      (line : List ℕ) (c : ℕ) (ctx : S)
      → IsLine line
      → is_newline c ≡ true
      → length line < limit
      → parse limit on_entry (line ++ (c ∷ [])) ctx ≡ (
          parse_line limit on_entry (line ++ (0 ∷ [])) ctx >>= λ out.
          and_then out (parse_line limit on_entry (line ++ (0 ∷ []))))
  unfolding parse_lines
  parse_twice line c ctx h nl short =
      parse-eq-parse_lines ((line, c) ∷ []) [] ctx (h, nl, short, tt) tt (omega arith)
      ∙ ap (λ f. parse_line limit on_entry (line ++ (0 ∷ [])) ctx >>= λ out. and_then out f)
          (fun_ext (λ next.
            ap (λ t. parse_line limit on_entry t next) (append_assoc line (0 ∷ []) rest)
            ∙ parse_line-back limit on_entry line rest next h short))
    where
      rest : List ℕ
      rest = drop (length (line ++ (0 ∷ []))) (replicate limit 0)
