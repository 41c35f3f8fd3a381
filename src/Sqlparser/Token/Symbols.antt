-- ===== src/Sqlparser/Token/Symbols.antt =====
-- sqlparser/token.go: what a token of the reader leaves, case by case.
use cm.Common.{
  ℕ, ◌+◌, ◌≤◌, ◌≡◌, refl, List, [], ◌∷◌, length, codes, ◌==◌, if◌then◌else◌, Bool, true, false,
  ◌||◌, arith,
}
use cm.Sqlparser.Token.{Tokenizer, Scanned, next, eofchar, string}
use cm.Sqlparser.Token.Words.{is_letter, is_digit, scan_comment_type2, scan_identifier}
use cm.Sqlparser.Token.Scan.{
  scan_reader, scan_word, scan_symbol, scan_slash, scan_less, skip_from, skip_blank, at_token,
  unread, is_single,
}
use cm.Sqlparser.Token.Progress.{
  remaining, next-remaining, next-le, left, scan_identifier-left, scan_identifier-next,
  scan_literal_identifier-left, scan_bind_var-left, scan_number-left, scan_number-point,
  scan_comment_type1-left, comment_loop-left,
}
use cm.Sqlparser.Token.Ends.{Ends, Ends-le, scan_string-Ends, scan_hex_value-Ends}

Ends-if :
    (n : ℕ) (b : Bool) (x y : Scanned)
    → (b ≡ true → Ends n x)
    → (b ≡ false → Ends n y)
    → Ends n (if b then x else y)
Ends-if n true x y h k = h refl
Ends-if n false x y h k = k refl

-- The byte that comes again at the end is a letter, and it is taken with the identifier.
unread-left :
    (ch n : ℕ) (s : List ℕ) (u : Tokenizer)
    → (ch == b'x') ≡ true
    → remaining (left (scan_identifier (unread ch s u))) ≤ length s
unfolding unread
unread-left ch n [] u h =
    unfold next in
    scan_identifier-next (record u { stream = ch ∷ []; last_char = ch })
      (unfold is_letter is_digit in ground arith)
unread-left ch n (c ∷ cs) u h = scan_identifier-left (record u { stream = c ∷ cs; last_char = ch })

scan_word-Ends : (t : Tokenizer) → Ends (length t.stream) (scan_word t)
unfolding scan_word
scan_word-Ends t =
    let n = length t.stream in
    Ends-if n (t.last_char == b'x') _ _
      (λ x.
        Ends-if n ((next t).last_char == 39) _ _
          (λ q.
            Ends-le (length (next t).stream) n _ (scan_hex_value-Ends (next t))
              (omega (arith, next-remaining t)))
          (λ q. unread-left t.last_char 0 t.stream (next t) x))
      (λ x. scan_identifier-left t)

scan_slash-Ends : (t : Tokenizer) → Ends (remaining t) (scan_slash t)
unfolding scan_slash
scan_slash-Ends t =
    let u = next t in
    Ends-if (remaining t) (t.last_char == b'/') _ _
      (λ a. omega (arith, scan_comment_type1-left (codes "//") u, next-le t))
      (λ a.
        Ends-if (remaining t) (t.last_char == b'*') _ _
          (λ b.
            unfold scan_comment_type2 in
            omega
              (arith, comment_loop-left (codes "/*") u.position u.last_char u.stream, next-le t))
          (λ b. omega arith))

scan_less-Ends : (t : Tokenizer) → Ends (remaining t) (scan_less t)
unfolding scan_less
scan_less-Ends t =
    let n = remaining t in
    let u = next t in
    Ends-if n (t.last_char == b'>') _ _ (λ a. next-le t)
      (λ a.
        Ends-if n (t.last_char == b'=') _ _
          (λ b.
            Ends-if n (u.last_char == b'>') _ _ (λ c. omega (arith, next-le t, next-le u))
              (λ c. next-le t))
          (λ b. omega arith))

scan_symbol-Ends : (ch : ℕ) (t : Tokenizer) → Ends (remaining t) (scan_symbol ch t)
unfolding scan_symbol
scan_symbol-Ends ch t =
    let n = remaining t in
    let kept : remaining t ≤ n = omega arith in
    let if_ : (b : Bool) (x y : Scanned)
        → (b ≡ true → Ends n x)
        → (b ≡ false → Ends n y)
        → Ends n (if b then x else y) =
      Ends-if n in
    if_ (ch == eofchar) _ _ (λ _. kept)
      (λ _.
        if_ (is_single ch) _ _ (λ _. kept)
          (λ _.
            if_ (ch == b'.') _ _
              (λ _. if_ (is_digit t.last_char) _ _ (λ _. scan_number-point t) (λ _. kept))
              (λ _.
                if_ (ch == b'/') _ _ (λ _. scan_slash-Ends t)
                  (λ _.
                    if_ (ch == b'-') _ _
                      (λ _.
                        if_ (t.last_char == b'-') _ _
                          (λ _.
                            omega (arith, scan_comment_type1-left (codes "--") (next t), next-le t))
                          (λ _. kept))
                      (λ _.
                        if_ (ch == b'<') _ _ (λ _. scan_less-Ends t)
                          (λ _.
                            if_ (ch == b'>') _ _
                              (λ _. if_ (t.last_char == b'=') _ _ (λ _. next-le t) (λ _. kept))
                              (λ _.
                                if_ (ch == b'!') _ _
                                  (λ _. if_ (t.last_char == b'=') _ _ (λ _. next-le t) (λ _. kept))
                                  (λ _.
                                    if_ (ch == 39 || ch == 34) _ _
                                      (λ q. scan_string-Ends ch string t (ground arith))
                                      (λ _.
                                        if_ (ch == b'`') _ _ (λ _. scan_literal_identifier-left t)
                                          (λ _. kept))))))))))

skip_from-remaining :
    (n ch : ℕ) (s : List ℕ)
    → remaining (skip_from n ch s) ≤ length s + (if ch == eofchar then 0 else 1)
unfolding skip_from
skip_from-remaining n ch [] = ground arith
skip_from-remaining n ch (d ∷ ds) = ground (arith, skip_from-remaining (n + 1) d ds)

pub at_token-remaining : (t : Tokenizer) → remaining (at_token t) ≤ remaining t
unfolding at_token skip_blank
at_token-remaining t = ground (
  arith,
  skip_from-remaining (next t).position (next t).last_char (next t).stream,
  skip_from-remaining t.position t.last_char t.stream,
  next-le t,
)

-- A token of a reader that is not at the end takes a character.
pub scan_reader-Ends : (t : Tokenizer) → Ends (length t.stream) (scan_reader t)
unfolding scan_reader
scan_reader-Ends t =
    let n = length t.stream in
    Ends-if n (is_letter t.last_char) _ _ (λ _. scan_word-Ends t)
      (λ _.
        Ends-if n (is_digit t.last_char) _ _ (λ d. scan_number-left t d)
          (λ _.
            Ends-if n (t.last_char == b':') _ _ (λ _. scan_bind_var-left t)
              (λ _.
                Ends-le (remaining (next t)) n _ (scan_symbol-Ends t.last_char (next t))
                  (next-remaining t))))
