-- ===== src/Uri/Bare.antt =====
-- URIs with a host and neither a path nor a query.
use mathlib.Core.List.{append_assoc}
use moonsugar.Prelude.{
  ℕ, suc, ◌+◌, ◌<◌, ◌≡◌, refl, ap, ap₂, ◌∙◌, sym, arith, none, some, List, [], ◌∷◌, ◌++◌, length,
  length-append, get_or, set as set_elem, drop,
}
use moonsugar.Config.Text.{IsText-append, set-append_self, get_or-append_self}
use moonsugar.Uri.{
  Uri, no_port, find_from, find, strcpy, read_hierarchy, read_authority, read_user, read_port,
  read_tail, uri_decode,
}
use moonsugar.Uri.Scan.{Lacks, Lacks-IsText, find_from-hit, cut-miss, strcpy_lem}

module _ (atoi : List ℕ → ℕ) (front host back : List ℕ) (old : Uri) where
  -- Where the host holds no delimiter, the search for the query begins at the authority again, and finds none.
  read_authority-bare :
      Lacks b'@' host
      → Lacks b':' host
      → Lacks b'/' host
      → read_authority atoi (front ++ (host ++ (0 ∷ back))) (length front) old
        ≡ some (
          front ++ (host ++ (0 ∷ back)),
          length front,
          record old {
            user = none;
            password = none;
            host = some (length front);
            port = no_port;
            path = none;
          },
        )
  unfolding read_authority read_user read_port
  read_authority-bare at colon slash =
      rw
        (
          cut-miss front host back b'@' at,
          cut-miss front host back b':' colon,
          cut-miss front host back b'/' slash,
        )
        refl

  read_tail-bare :
      Lacks b'?' host
      → old.path ≡ none
      → read_tail atoi (front ++ (host ++ (0 ∷ back))) (length front) old ≡ none
  unfolding read_tail
  read_tail-bare query no_path = rw (cut-miss front host back b'?' query, no_path) refl

uri_decode-stops :
    (atoi : List ℕ → ℕ) (buff text out_buff : List ℕ) (old : Uri) {o1 o2 : List ℕ} {d next : ℕ}
    {found : Uri}
    → strcpy out_buff text ≡ some o1
    → find o1 0 b':' ≡ some (some (suc d))
    → read_hierarchy atoi (set_elem o1 (suc d) 0) (d + 2) (record old { scheme = some 0 })
      ≡ some (o2, next, found)
    → read_tail atoi o2 next found ≡ none
    → uri_decode atoi buff text out_buff old ≡ none
unfolding uri_decode
uri_decode-stops atoi buff text out_buff old copied delim hierarchy tail =
    rw (copied, delim, hierarchy, tail) refl

read_hierarchy-authority :
    (atoi : List ℕ → ℕ) (front rest : List ℕ) (n : ℕ) (old : Uri)
    → n ≡ length front
    → read_hierarchy atoi (front ++ (b'/' ∷ b'/' ∷ rest)) n old
      ≡ read_authority atoi (front ++ (b'/' ∷ b'/' ∷ rest)) (n + 2) old
unfolding read_hierarchy
read_hierarchy-authority atoi front rest n old here =
    let one =
      ap (λ n. get_or (front ++ (b'/' ∷ b'/' ∷ rest)) n 0) here
      ∙ get_or-append_self front b'/' (b'/' ∷ rest) 0 in
    let two : get_or (front ++ (b'/' ∷ b'/' ∷ rest)) (n + 1) 0 ≡ b'/' =
      ap₂ (λ o n. get_or o n 0) (sym (append_assoc front (b'/' ∷ []) (b'/' ∷ rest)))
        (omega (arith, length-append front (b'/' ∷ [])))
      ∙ get_or-append_self (front ++ (b'/' ∷ [])) b'/' rest 0 in
    rw (one, two) refl

-- A URI of a scheme and a host, where the host holds no delimiter, is not decoded: with neither a path nor a
-- query, `ms_uri_decode` searches for the fragment through NULL.
pub uri_decode_null :
    (atoi : List ℕ → ℕ) (s : ℕ) (ss host back buff out_buff : List ℕ) (old : Uri)
    → Lacks b':' (s ∷ ss)
    → Lacks b'@' host
    → Lacks b':' host
    → Lacks b'/' host
    → Lacks b'?' host
    → length (s ∷ ss) + length host + 3 < length out_buff
    → uri_decode atoi buff ((s ∷ ss) ++ (b':' ∷ b'/' ∷ b'/' ∷ (host ++ (0 ∷ back)))) out_buff old
      ≡ none
uri_decode_null atoi s ss host back buff out_buff old lacks at colon slash query room =
    let scheme = s ∷ ss in
    let text = scheme ++ (b':' ∷ b'/' ∷ b'/' ∷ host) in
    let tail = drop (length text + 1) out_buff in
    let rest = b'/' ∷ b'/' ∷ (host ++ (0 ∷ tail)) in
    let start = scheme ++ (0 ∷ []) in
    let front = start ++ (b'/' ∷ b'/' ∷ []) in
    let sized = length-append scheme (b':' ∷ b'/' ∷ b'/' ∷ host) in
    let copied =
      ap (strcpy out_buff) (sym (append_assoc scheme (b':' ∷ b'/' ∷ b'/' ∷ host) (0 ∷ back)))
      ∙ strcpy_lem out_buff text back
          (IsText-append scheme _ (Lacks-IsText b':' scheme lacks)
            (omega arith, (omega arith, (omega arith, Lacks-IsText b':' host colon))))
          (omega (arith, sized, room))
      ∙ ap some (append_assoc scheme (b':' ∷ b'/' ∷ b'/' ∷ host) (0 ∷ tail)) in
    let delim : find_from (scheme ++ (b':' ∷ rest)) 0 b':' ≡ some (some (suc (length ss))) =
      find_from-hit scheme rest 0 b':' lacks (omega arith)
      ∙ ap (λ n. some (some n)) (omega arith) in
    let cut_off : set_elem (scheme ++ (b':' ∷ rest)) (length scheme) 0 ≡ start ++ rest =
      set-append_self scheme b':' 0 rest ∙ sym (append_assoc scheme (0 ∷ []) rest) in
    let hier : length ss + 2 ≡ length start = omega (arith, length-append scheme (0 ∷ [])) in
    let authority : length ss + 2 + 2 ≡ length front =
      omega (arith, hier, length-append start (b'/' ∷ b'/' ∷ [])) in
    uri_decode-stops atoi buff _ out_buff old copied delim
      (ap (λ o. read_hierarchy atoi o (length ss + 2) (record old { scheme = some 0 })) cut_off
        ∙ read_hierarchy-authority atoi start (host ++ (0 ∷ tail)) (length ss + 2)
            (record old { scheme = some 0 }) hier
        ∙ ap₂ (λ o n. read_authority atoi o n (record old { scheme = some 0 }))
            (sym (append_assoc start (b'/' ∷ b'/' ∷ []) (host ++ (0 ∷ tail)))) authority
        ∙ read_authority-bare atoi front host tail (record old { scheme = some 0 }) at colon slash)
      (read_tail-bare atoi front host tail _ query refl)
