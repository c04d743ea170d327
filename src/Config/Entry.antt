-- ===== src/Config/Entry.antt =====
-- A line with a key and a value.
use mathlib.Core.List.{append_assoc}
use moonsugar.Prelude.{
  ℕ, suc, ◌+◌, ◌-◌, ◌<◌, ◌≡◌, ◌≢◌, refl, ap, subst, ◌∙◌, sym, arith, true, false, Option, some,
  List, ◌∷◌, ◌++◌, length, length-append, get_or, set as set_elem, drop, replicate, ◌==◌,
}
use moonsugar.Api.{MsResult}
use moonsugar.Config.{
  hash, is_blank, find_non_blank, find_blank, string_at, string_copy, report, parse_value,
  parse_key, parse_line,
}
use moonsugar.Config.Text.{
  IsWord, IsText, IsBlanks, IsText-append, IsWord-IsText, IsBlanks-IsText, find_non_blank-word,
  find_blank-word, string_at-text, string_copy-text, drop-append_self, set-append_self,
  get_or-append_self,
}
use moonsugar.Config.Trim.{IsValue, trim_right-value}

module _ {ℓ} {S : Type ℓ} (limit : ℕ) (on_entry : S → List ℕ → Option (List ℕ) → MsResult × S)
    (blanks key : List ℕ) (b : ℕ) (sep value back : List ℕ) (ctx : S) where
  -- The callback is given the key and the value, where NULs stand behind both.
  report_lem :
      (left : List ℕ)
      → IsWord key
      → IsText value
      → report limit on_entry
          ((blanks ++ (key ++ (0 ∷ sep))) ++ (value ++ (0 ∷ left)))
          (length blanks)
          (some (length (blanks ++ (key ++ (0 ∷ sep)))))
          ctx
        ≡ some (on_entry ctx key (some value))
  unfolding report
  report_lem left wk tv = rw (k, v) refl
    where
      k :
          string_at (drop (length blanks) ((blanks ++ (key ++ (0 ∷ sep))) ++ (value ++ (0 ∷ left))))
          ≡ some key
      k =
          ap string_at (
            ap (drop (length blanks)) (append_assoc blanks (key ++ (0 ∷ sep)) (value ++ (0 ∷ left)))
            ∙ drop-append_self blanks ((key ++ (0 ∷ sep)) ++ (value ++ (0 ∷ left)))
            ∙ append_assoc key (0 ∷ sep) (value ++ (0 ∷ left)))
          ∙ string_at-text key (sep ++ (value ++ (0 ∷ left))) (IsWord-IsText key wk)

      v :
          string_at (
            drop
              (length (blanks ++ (key ++ (0 ∷ sep))))
              ((blanks ++ (key ++ (0 ∷ sep))) ++ (value ++ (0 ∷ left))))
          ≡ some value
      v =
          ap string_at (drop-append_self (blanks ++ (key ++ (0 ∷ sep))) (value ++ (0 ∷ left)))
          ∙ string_at-text value left tv

  parse_value_lem :
      (post : List ℕ)
      → IsWord key
      → is_blank b ≡ true
      → IsBlanks sep
      → IsValue value
      → IsBlanks post
      → parse_value limit on_entry
          ((blanks ++ key) ++ (b ∷ (sep ++ (value ++ (post ++ (0 ∷ back))))))
          (length blanks)
          (some (length (blanks ++ key)))
          ctx
        ≡ some (on_entry ctx key (some value))
  unfolding parse_value
  parse_value_lem post wk hb hs v hp =
      let (left, run) = trim_right-value (blanks ++ (key ++ (0 ∷ sep))) value post back v hp in
      rw found (rw cut (rw run (report_lem left wk v.text)))
    where
      behind : List ℕ
      behind = post ++ (0 ∷ back)

      place : length (blanks ++ key) + suc (length sep) ≡ length (blanks ++ (key ++ (0 ∷ sep)))
      place = omega (
        arith,
        length-append blanks key,
        length-append blanks (key ++ (0 ∷ sep)),
        length-append key (0 ∷ sep),
      )

      found :
          find_non_blank
            (drop
              (length (blanks ++ key))
              ((blanks ++ key) ++ (b ∷ (sep ++ (value ++ (post ++ (0 ∷ back)))))))
            (length (blanks ++ key))
          ≡ some (some (length (blanks ++ (key ++ (0 ∷ sep)))))
      found =
          ap (λ t. find_non_blank t (length (blanks ++ key)))
            (drop-append_self (blanks ++ key) (b ∷ (sep ++ (value ++ behind))))
          ∙ ap (λ t. find_non_blank ((b ∷ sep) ++ (t ++ behind)) (length (blanks ++ key))) v.begins
          ∙ find_non_blank-word (b ∷ sep) v.head (v.tail ++ behind) (length (blanks ++ key))
              (hb, hs) (subst IsText v.begins v.text).0 v.head_solid
          ∙ ap (λ t. some (some t)) place

      cut :
          set_elem
            ((blanks ++ key) ++ (b ∷ (sep ++ (value ++ (post ++ (0 ∷ back))))))
            (length (blanks ++ key))
            0
          ≡ (blanks ++ (key ++ (0 ∷ sep))) ++ (value ++ (post ++ (0 ∷ back)))
      cut = set-append_self (blanks ++ key) b 0 (sep ++ (value ++ behind)) ∙ simp append_assoc

pub parse_key_lem {ℓ} :
    {S : Type ℓ}
    → (limit : ℕ) (on_entry : S → List ℕ → Option (List ℕ) → MsResult × S)
    → (line : List ℕ) (key : ℕ) (sep : Option ℕ) (ctx : S) → (get_or line key 0 == hash) ≡ false
    → find_blank (drop key line) key ≡ some sep
    → parse_key limit on_entry line (some key) ctx ≡ parse_value limit on_entry line key sep ctx
unfolding parse_key
parse_key_lem limit on_entry line key sep ctx h e = rw (h, e) refl

-- A line of an entry as a user writes it: blanks, a key that does not begin with a hash sign, at least one
-- blank, a value that neither begins nor ends with a blank, and blanks, all shorter than the buffer. The
-- callback is called once, with exactly the key and the value, and its result is the line's.
pub parse_line-entry {ℓ} :
    {S : Type ℓ}
    → (limit : ℕ) (on_entry : S → List ℕ → Option (List ℕ) → MsResult × S)
    → (blanks : List ℕ) (k : ℕ) (ks : List ℕ) (b : ℕ) (sep value post back : List ℕ) (ctx : S)
    → IsBlanks blanks
    → IsWord (k ∷ ks)
    → k ≢ hash
    → IsBlanks (b ∷ sep)
    → IsValue value
    → IsBlanks post
    → length (blanks ++ ((k ∷ ks) ++ ((b ∷ sep) ++ (value ++ post)))) < limit
    → parse_line limit on_entry
        ((blanks ++ ((k ∷ ks) ++ ((b ∷ sep) ++ (value ++ post)))) ++ (0 ∷ back))
        ctx
      ≡ some (on_entry ctx (k ∷ ks) (some value))
unfolding parse_line
parse_line-entry limit on_entry blanks k ks b sep value post back ctx hb wk nh hs v hp short =
    rw copied (
      rw found (
        parse_key_lem limit on_entry (blanks ++ ((k ∷ ks) ++ (b ∷ behind))) (length blanks)
          (some (length (blanks ++ (k ∷ ks)))) ctx (ap (λ t. t == hash) key_char ∙ no_hash)
          separated
        ∙ ap
            (λ t.
              parse_value limit on_entry t (length blanks) (some (length (blanks ++ (k ∷ ks)))) ctx)
            line
        ∙ parse_value_lem limit on_entry blanks (k ∷ ks) b sep value zeros ctx post wk hs.0 hs.1 v
            hp))
  where
    text : List ℕ
    text = blanks ++ ((k ∷ ks) ++ ((b ∷ sep) ++ (value ++ post)))

    zeros : List ℕ
    zeros = replicate (limit - length text - 1) 0

    behind : List ℕ
    behind = sep ++ (value ++ (post ++ (0 ∷ zeros)))

    copied : string_copy limit (text ++ (0 ∷ back)) ≡ some (blanks ++ ((k ∷ ks) ++ (b ∷ behind)))
    copied = string_copy-text limit text back text_lem short ∙ ap some (simp append_assoc)
      where
        text_lem : IsText text
        text_lem =
            IsText-append blanks ((k ∷ ks) ++ ((b ∷ sep) ++ (value ++ post)))
              (IsBlanks-IsText blanks hb)
              (IsText-append (k ∷ ks) ((b ∷ sep) ++ (value ++ post)) (IsWord-IsText (k ∷ ks) wk) (
                IsText-append (b ∷ sep) (value ++ post) (IsBlanks-IsText (b ∷ sep) hs)
                  (IsText-append value post v.text (IsBlanks-IsText post hp))))

    found : find_non_blank (blanks ++ ((k ∷ ks) ++ (b ∷ behind))) 0 ≡ some (some (length blanks))
    found =
        find_non_blank-word blanks k (ks ++ (b ∷ behind)) 0 hb wk.0 wk.1
        ∙ ap (λ t. some (some t)) (omega arith)

    key_char : get_or (blanks ++ ((k ∷ ks) ++ (b ∷ behind))) (length blanks) 0 ≡ k
    key_char = get_or-append_self blanks k (ks ++ (b ∷ behind)) 0

    no_hash : (k == hash) ≡ false
    no_hash = ground (arith, nh)

    separated :
        find_blank (drop (length blanks) (blanks ++ ((k ∷ ks) ++ (b ∷ behind)))) (length blanks)
        ≡ some (some (length (blanks ++ (k ∷ ks))))
    separated =
        ap (λ t. find_blank t (length blanks)) (drop-append_self blanks ((k ∷ ks) ++ (b ∷ behind)))
        ∙ find_blank-word (k ∷ ks) b behind (length blanks) wk hs.0
        ∙ ap (λ t. some (some t)) (sym (length-append blanks (k ∷ ks)))

    line : blanks ++ ((k ∷ ks) ++ (b ∷ behind)) ≡ (blanks ++ (k ∷ ks)) ++ (b ∷ behind)
    line = sym (append_assoc blanks (k ∷ ks) (b ∷ behind))
