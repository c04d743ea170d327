-- ===== src/Config/Trim.antt =====
-- Cutting the blanks behind a value off, in the line buffer of src/config.c.
use mathlib.Core.List.{append_assoc}
use moonsugar.Prelude.{
  ℕ, zero, suc, ◌+◌, ◌≡◌, refl, ap, ap₂, subst, ◌∙◌, sym, arith, true, false, some, List, [], ◌∷◌,
  ◌++◌, length, length-append, ◌>>=◌,
}
use moonsugar.Config.{string_length, is_blank, trim_from, trim_right}
use moonsugar.Config.Text.{
  IsText, IsBlanks, IsText-append, IsBlanks-IsText, string_length-text, drop-append_self,
  set-append_self, get_or-append_self,
}

last_split :
    (c : ℕ) (cs : List ℕ)
    → (init : List ℕ) × (w : ℕ) × (c ∷ cs ≡ init ++ (w ∷ [])) × (length init ≡ length cs)
last_split c [] = ([], c, refl, refl)
last_split c (d ∷ cs) =
    let (init, w, e, l) = last_split d cs in (c ∷ init, w, ap (◌∷◌ c) e, ap suc l)

IsBlanks-split :
    (xs : List ℕ) (w : ℕ) → IsBlanks (xs ++ (w ∷ [])) → IsBlanks xs × (is_blank w ≡ true)
IsBlanks-split [] w (h, t) = (tt, h)
IsBlanks-split (x ∷ xs) w (h, t) = let (front, last) = IsBlanks-split xs w t in ((h, front), last)

-- One blank behind the first `n` characters is overwritten.
trim_one :
    (front : List ℕ) (w : ℕ) (back : List ℕ) (s n : ℕ)
    → length front ≡ s + n
    → is_blank w ≡ true
    → trim_from (front ++ (w ∷ back)) s (suc n) ≡ trim_from (front ++ (0 ∷ back)) s n
unfolding trim_from
trim_one front w back s n e h =
    rw (← e) (rw (get_or-append_self front w back 0, h, set-append_self front w 0 back) refl)

trim_blanks :
    (m : ℕ) (blanks front back : List ℕ) (s n : ℕ)
    → length blanks ≡ m
    → length front ≡ s + n
    → IsBlanks blanks
    → (left : List ℕ) × (trim_from (front ++ (blanks ++ (0 ∷ back))) s (n + m)
        ≡ trim_from (front ++ (0 ∷ left)) s n)
trim_blanks zero [] front back s n l e h =
    (back, ap (trim_from (front ++ (0 ∷ back)) s) (omega arith))
trim_blanks zero (b ∷ blanks) front back s n l e h = absurd (omega (arith, l))
trim_blanks (suc m) [] front back s n l e h = absurd (omega (arith, l))
trim_blanks (suc m) (b ∷ blanks) front back s n l e h =
    let (init, w, split, len) = last_split b blanks in
    let (all, last) = IsBlanks-split init w (subst IsBlanks split h) in
    let (left, run) = trim_blanks m init front (0 ∷ back) s n (omega (arith, len, l)) e all in
    (
      left,
      ap₂ (λ xs k. trim_from (front ++ (xs ++ (0 ∷ back))) s k) split (more n m)
          ∙ ap (λ xs. trim_from xs s (suc (n + m))) (regroup front init w (0 ∷ back))
          ∙ trim_one (front ++ init) w (0 ∷ back) s (n + m)
              (omega (arith, length-append front init, e, len, l)) last
          ∙ ap (λ xs. trim_from xs s (n + m)) (append_assoc front init (0 ∷ 0 ∷ back))
          ∙ run,
    )
  where
    more : (n m : ℕ) → n + suc m ≡ suc (n + m)
    more n m = omega arith

    regroup :
        (front init : List ℕ) (w : ℕ) (back : List ℕ)
        → front ++ ((init ++ (w ∷ [])) ++ back) ≡ (front ++ init) ++ (w ∷ back)
    regroup front init w back = simp append_assoc

-- A value neither begins nor ends with a blank.
pub record IsValue (value : List ℕ) : Type 0 where
  pub text : IsText value
  pub head : ℕ
  pub tail : List ℕ
  pub begins : value ≡ head ∷ tail
  pub head_solid : is_blank head ≡ false
  pub init : List ℕ
  pub last : ℕ
  pub ends : value ≡ init ++ (last ∷ [])
  pub last_solid : is_blank last ≡ false

trim_stops :
    (front init : List ℕ) (w : ℕ) (back : List ℕ)
    → is_blank w ≡ false
    → trim_from (front ++ ((init ++ (w ∷ [])) ++ back)) (length front) (length (init ++ (w ∷ [])))
      ≡ front ++ ((init ++ (w ∷ [])) ++ back)
unfolding trim_from
trim_stops front init w back h =
    rw (count, regroup)
      (rw (← length-append front init) (rw (get_or-append_self (front ++ init) w back 0, h) refl))
  where
    count : length (init ++ (w ∷ [])) ≡ suc (length init)
    count = omega (arith, length-append init (w ∷ []))

    regroup : front ++ ((init ++ (w ∷ [])) ++ back) ≡ (front ++ init) ++ (w ∷ back)
    regroup = simp append_assoc

-- The blanks behind a value are cut off.
pub trim_right-value :
    (front value blanks back : List ℕ)
    → IsValue value
    → IsBlanks blanks
    → (left : List ℕ) × (trim_right (front ++ (value ++ (blanks ++ (0 ∷ back)))) (length front)
        ≡ some (front ++ (value ++ (0 ∷ left))))
unfolding trim_right
trim_right-value front value blanks back v h =
    let (left, run) =
      trim_blanks (length blanks) blanks (front ++ value) back (length front) (length value) refl
        (length-append front value) h in
    (
      left,
      ap (λ t. string_length t >>= λ n. some (trim_from line (length front) n))
            (drop-append_self front rest)
          ∙ ap (λ t. t >>= λ n. some (trim_from line (length front) n)) sized
          ∙ ap some (
              ap (λ t. trim_from t (length front) (length value + length blanks))
                (sym (append_assoc front value (blanks ++ (0 ∷ back))))
              ∙ run
              ∙ stops left),
    )
  where
    rest : List ℕ
    rest = value ++ (blanks ++ (0 ∷ back))

    line : List ℕ
    line = front ++ (value ++ (blanks ++ (0 ∷ back)))

    sized : string_length rest ≡ some (length value + length blanks)
    sized =
        ap string_length (sym (append_assoc value blanks (0 ∷ back)))
        ∙ string_length-text (value ++ blanks) back
            (IsText-append value blanks v.text (IsBlanks-IsText blanks h))
        ∙ ap some (length-append value blanks)

    stops :
        (left : List ℕ)
        → trim_from ((front ++ value) ++ (0 ∷ left)) (length front) (length value)
          ≡ front ++ (value ++ (0 ∷ left))
    stops left =
        ap (λ t. trim_from t (length front) (length value)) (append_assoc front value (0 ∷ left))
        ∙ ap (λ t. trim_from (front ++ (t ++ (0 ∷ left))) (length front) (length t)) v.ends
        ∙ trim_stops front v.init v.last (0 ∷ left) v.last_solid
        ∙ ap (λ t. front ++ (t ++ (0 ∷ left))) (sym v.ends)
