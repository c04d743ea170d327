-- ===== src/Path/Names.antt =====
-- What the operations on paths write: the converted slashes, and the name of a file.
use mathlib.Core.List.{append_assoc}
use moonsugar.Prelude.{
  ℕ, zero, suc, ◌+◌, ◌-◌, ◌^◌, ◌≤◌, ◌<◌, ◌≡◌, ◌≢◌, refl, ap, ◌∙◌, arith, true, false, Option, some,
  List, [], ◌∷◌, ◌++◌, length, length-append, length-set, length-drop, length-replicate, get_or,
  get_or-append, get_or-replicate, u32, get_or-set, set as set_elem, take, drop, replicate, sub32,
  ltb, leb, lt→ltb, dec_lt, ℕ_discrete, ◌==◌, if◌then◌else◌,
}
use moonsugar.Api.{success}
use moonsugar.Path.{
  path_sep, path_win32_sep, convert_from, convert_slashes, filename_from, get_filename, copy_padded,
}

-- A slash instead of a backslash.
abbrev pub slashed : ℕ → ℕ
slashed c = if c == path_win32_sep then path_sep else c

-- The buffer with the string converted from offset `i` on, and a NUL behind it.
pub record Converted (s : List ℕ) (i : ℕ) (buff : List ℕ) (out : Option (List ℕ)) : Type 0 where
  pub after : List ℕ
  pub run : out ≡ some after
  pub same_length : length after ≡ length buff
  pub chars :
      (j : ℕ)
      → get_or after j 0 ≡ (
          if ltb j i
          then get_or buff j 0
          else if ltb j (i + length s)
          then slashed (get_or s (j - i) 0)
          else if j == i + length s
          then 0
          else get_or buff j 0)

convert_from-Converted :
    (s : List ℕ) (i : ℕ) (buff : List ℕ)
    → i + length s < length buff
    → Converted s i buff (convert_from s i buff)
unfolding convert_from
convert_from-Converted [] i buff room = record {
  after = set_elem buff i 0;
  run = rw (lt→ltb i (length buff) (omega arith)) refl;
  same_length = length-set buff i 0;
  chars = λ j. ground (arith, get_or-set buff i j 0 0 (omega arith));
}
convert_from-Converted (c ∷ cs) i buff room =
    let r = convert_from-Converted cs (i + 1) next (omega (arith, length-set buff i (slashed c))) in
    record {
      after = r.after;
      run = rw (lt→ltb i (length buff) (omega arith)) r.run;
      same_length = r.same_length ∙ length-set buff i (slashed c);
      chars = λ j. r.chars j ∙ shifted j;
    }
  where
    next : List ℕ
    next = set_elem buff i (slashed c)

    here : (j : ℕ) → j ≡ i → get_or (c ∷ cs) (j - i) 0 ≡ c
    here j e = ap (λ k. get_or (c ∷ cs) k 0) (zero_ahead j e)
      where
        zero_ahead : (j : ℕ) → j ≡ i → j - i ≡ 0
        zero_ahead j e = omega arith

    later : (j : ℕ) → i < j → get_or (c ∷ cs) (j - i) 0 ≡ get_or cs (j - (i + 1)) 0
    later j h = ap (λ k. get_or (c ∷ cs) k 0) (one_ahead j h)
      where
        one_ahead : (j : ℕ) → i < j → j - i ≡ suc (j - (i + 1))
        one_ahead j h = omega arith

    shifted :
        (j : ℕ)
        → (if ltb j (i + 1)
            then get_or next j 0
            else if ltb j (i + 1 + length cs)
            then slashed (get_or cs (j - (i + 1)) 0)
            else if j == i + 1 + length cs
            then 0
            else get_or next j 0)
          ≡ (if ltb j i
              then get_or buff j 0
              else if ltb j (i + suc (length cs))
              then slashed (get_or (c ∷ cs) (j - i) 0)
              else if j == i + suc (length cs)
              then 0
              else get_or buff j 0)
    shifted j = elim (ℕ_discrete j i) [
      | yes e ↦
          ground (arith, get_or-set buff i j (slashed c) 0 (omega arith), ap slashed (here j e))
      | no ne ↦ elim (dec_lt i j) [
        | yes h ↦
            ground
              (arith, ne, get_or-set buff i j (slashed c) 0 (omega arith), ap slashed (later j h))
        | no g ↦ ground (arith, ne, g, get_or-set buff i j (slashed c) 0 (omega arith))
      ]
    ]

-- `ms_path_convert_slashes` into a buffer with room for the string stays inside it: it writes the string
-- with a slash for every backslash, and a NUL behind it, and leaves the rest of the buffer.
pub convert_slashes-Converted :
    (s buff : List ℕ) → length s < length buff → Converted s 0 buff (convert_slashes s buff)
unfolding convert_slashes
convert_slashes-Converted s buff room = convert_from-Converted s 0 buff (omega arith)

-- A name holds no separator.
unfoldable pub IsName : List ℕ → Type 0
IsName [] = Unit
IsName (c ∷ cs) = (c ≢ path_sep) × IsName cs

filename_from-name :
    (name : List ℕ) (p offset : ℕ) → IsName name → filename_from name p offset ≡ offset
unfolding filename_from IsName
filename_from-name [] p offset n = refl
filename_from-name (c ∷ cs) p offset (ne, n) =
    ap (filename_from cs (p + 1)) (kept c ne) ∙ filename_from-name cs (p + 1) offset n
  where
    kept : (c : ℕ) → c ≢ path_sep → (if c == path_sep then u32 (p + 1) else offset) ≡ offset
    kept c ne = ground (arith, ne)

filename_from-append :
    (dir name : List ℕ) (p offset : ℕ)
    → IsName name
    → p + length dir + 1 < 2 ^ 32
    → filename_from (dir ++ (path_sep ∷ name)) p offset ≡ p + length dir + 1
unfolding filename_from
filename_from-append [] name p offset n word =
    filename_from-name name (p + 1) (u32 (p + 1)) n ∙ omega arith
filename_from-append (c ∷ cs) name p offset n word =
    filename_from-append cs name (p + 1) (if c == path_sep then u32 (p + 1) else offset) n
      (omega arith)
    ∙ omega arith

-- The length, as the clauses of `take` and `drop` count.
suc-add : (n m : ℕ) → suc n + m ≡ suc (n + m)
suc-add n m = omega arith

drop-behind : (xs ys : List ℕ) (y : ℕ) → drop (length xs + 1) (xs ++ (y ∷ ys)) ≡ ys
drop-behind [] ys y = refl
drop-behind (x ∷ xs) ys y =
    ap (λ n. drop n (x ∷ (xs ++ (y ∷ ys)))) (suc-add (length xs) 1) ∙ drop-behind xs ys y

take-replicate : (m n : ℕ) → m ≤ n → take m (replicate {A = ℕ} n 0) ≡ replicate m 0
take-replicate zero n h = refl
take-replicate (suc m) zero h = absurd (omega (arith, h))
take-replicate (suc m) (suc n) h = ap (◌∷◌ 0) (take-replicate m n (omega arith))

take-padded :
    (xs : List ℕ) (n m : ℕ)
    → m ≤ n
    → take (length xs + m) (xs ++ replicate n 0) ≡ xs ++ replicate m 0
take-padded [] n m h = ap (λ k. take k (replicate n 0)) (zero_add m) ∙ take-replicate m n h
  where
    zero_add : (m : ℕ) → 0 + m ≡ m
    zero_add m = omega arith
take-padded (x ∷ xs) n m h =
    ap (λ k. take k (x ∷ (xs ++ replicate n 0))) (suc-add (length xs) m)
    ∙ ap (◌∷◌ x) (take-padded xs n m h)

module _ (dir name buff : List ℕ) (buff_len : ℕ) (n : IsName name) where
  -- `ms_path_get_filename` of a path that ends in a separator and a name, into a buffer with room for the
  -- name and its NUL, succeeds: the name stands at the beginning of the buffer, followed by NULs up to
  -- the length given, and the rest of the buffer stays. The
  -- lengths are 32-bit numbers.
  pub get_filename_lem :
      length name < buff_len
      → buff_len ≤ length buff
      → buff_len < 2 ^ 32
      → length dir + 1 < 2 ^ 32
      → get_filename (dir ++ (path_sep ∷ name)) buff buff_len
        ≡ some (success, name ++ (replicate (buff_len - length name) 0 ++ drop buff_len buff))
  unfolding get_filename
  get_filename_lem room inside word word' = rw (offset, padded, last, within, ends) refl
    where
      rest : ℕ
      rest = buff_len - length name

      out : List ℕ
      out = name ++ (replicate rest 0 ++ drop buff_len buff)

      offset : drop (filename_from (dir ++ (path_sep ∷ name)) 0 0) (dir ++ (path_sep ∷ name)) ≡ name
      offset =
          ap (λ k. drop k (dir ++ (path_sep ∷ name)))
            (filename_from-append dir name 0 0 n (omega arith) ∙ omega arith)
          ∙ drop-behind dir name path_sep

      to_rest : buff_len ≡ length name + rest
      to_rest = omega arith

      written : take buff_len (name ++ replicate buff_len 0) ≡ name ++ replicate rest 0
      written =
          ap (λ k. take k (name ++ replicate buff_len 0)) to_rest
          ∙ take-padded name buff_len rest (omega arith)

      written_length : 0 + length (name ++ replicate rest 0) ≡ buff_len
      written_length =
          omega (arith, length-append name (replicate rest 0), length-replicate {A = ℕ} rest 0)

      fits : leb buff_len (length buff) ≡ true
      fits = ground arith

      padded : copy_padded buff name buff_len ≡ some out
      padded =
          rw (written, written_length, fits)
            (ap some (append_assoc name (replicate rest 0) (drop buff_len buff)))

      last : sub32 buff_len 1 ≡ buff_len - 1
      last = omega arith

      within : leb (length out) (buff_len - 1) ≡ false
      within = ground (
        arith,
        length-append name (replicate rest 0 ++ drop buff_len buff),
        length-append (replicate rest 0) (drop buff_len buff),
        length-replicate {A = ℕ} rest 0,
        length-drop buff_len buff,
      )

      ends : get_or out (buff_len - 1) 0 ≡ 0
      ends = ground (
        arith,
        get_or-append name (replicate rest 0 ++ drop buff_len buff) (buff_len - 1) 0,
        get_or-append (replicate rest 0) (drop buff_len buff) (buff_len - 1 - length name) 0,
        length-replicate {A = ℕ} rest 0,
        get_or-replicate {A = ℕ} rest (buff_len - 1 - length name) 0,
      )
