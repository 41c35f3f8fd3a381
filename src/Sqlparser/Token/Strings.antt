-- ===== src/Sqlparser/Token/Strings.antt =====
-- sqlparser/token.go and sqltypes/sqltypes.go: a literal that `encodeSql` wrote is scanned back.
use cm.Common.{
  ℕ, zero, suc, ◌+◌, ◌%◌, ◌<◌, ◌≡◌, ◌≢◌, ◌≤◌, refl, ap, ◌∙◌, sym, some, List, [], ◌∷◌, ◌++◌, length,
  length-append, ◌==◌, false, All, IsByte, arith, Bool-cases, inl, inr,
}
use mathlib.Core.List.{append_assoc, append-nil}
use cm.Sqltypes.Escape.{sql_encode_map, dont_escape, escape, encode_sql, inverts-byte}
use cm.Sqlparser.Token.{
  Tokenizer, next, string_round, string_loop, scan_string, eofchar, char, finished,
}

-- The tokenizer that reads `text` from its first character on.
abbrev pub at_text : List ℕ → ℕ → Tokenizer
at_text [] n = record { stream = []; last_char = eofchar; position = n }
at_text (c ∷ cs) n = record { stream = cs; last_char = c; position = n }

next-at_text : (c : ℕ) (cs : List ℕ) (n : ℕ) → next (at_text (c ∷ cs) n) ≡ at_text cs (n + 1)
unfolding next
next-at_text c [] n = refl
next-at_text c (d ∷ cs) n = refl

-- One escaped byte is one round, which gives it back.
round-escape :
    (c : ℕ) (text : List ℕ) (n : ℕ)
    → IsByte c
    → string_round 39 (at_text (escape (c ∷ []) ++ text) n)
      ≡ char c (at_text text (n + length (escape (c ∷ []))))
unfolding string_round escape
round-escape c text n h =
    let fact = inverts-byte c h in
    elim (Bool-cases (sql_encode_map c == dont_escape)) [
      | inl e ↦ rw e (rw next-at_text (ground (arith, fact)))
      | inr e ↦ rw e (rw (next-at_text 92 _ n, next-at_text _ text (n + 1)) (ground (arith, fact)))
    ]

-- The character behind a literal.
abbrev pub first : List ℕ → ℕ
first text = (at_text text 0).last_char

first-at_text : (text : List ℕ) (n : ℕ) → (at_text text n).last_char ≡ first text
first-at_text [] n = refl
first-at_text (c ∷ text) n = refl

round-quote :
    (rest : List ℕ) (n : ℕ)
    → first rest ≢ 39
    → string_round 39 (at_text (39 ∷ rest) n) ≡ finished (at_text rest (n + 1))
unfolding string_round
round-quote rest n h = ground (arith, next-at_text 39 rest n, first-at_text rest (n + 1))

escape-cons :
    (c : ℕ) (cs text : List ℕ) → escape (c ∷ cs) ++ text ≡ escape (c ∷ []) ++ (escape cs ++ text)
unfolding escape
escape-cons c cs text = ground arith

string_loop-char :
    (fuel delim typ ch : ℕ) (buffer : List ℕ) (t t' : Tokenizer)
    → IsByte ch
    → string_round delim t ≡ char ch t'
    → string_loop (suc fuel) delim typ buffer t
      ≡ string_loop fuel delim typ (buffer ++ (ch ∷ [])) t'
unfolding string_loop
string_loop-char fuel delim typ ch buffer t t' b e =
    let bound : (ch == eofchar) ≡ false = ground arith in
    let same : ch % 256 ≡ ch = omega arith in rw (e, string_loop, bound, same)

string_loop-escape :
    (fuel typ n : ℕ) (buffer s rest : List ℕ)
    → length s < fuel
    → All IsByte s
    → first rest ≢ 39
    → string_loop fuel 39 typ buffer (at_text (escape s ++ 39 ∷ rest) n)
      ≡ some (typ, buffer ++ s, at_text rest (n + length (escape s) + 1))
string_loop-escape zero typ n buffer s rest f b h = absurd (omega arith)
string_loop-escape (suc fuel) typ n buffer [] rest f b h =
    unfold string_loop escape in ground (arith, round-quote rest n h, append-nil buffer)
string_loop-escape (suc fuel) typ n buffer (c ∷ s) rest f b h =
    let text = escape s ++ 39 ∷ rest in
    let m = n + length (escape (c ∷ [])) in
    let size : length (escape (c ∷ s)) ≡ length (escape (c ∷ [])) + length (escape s) =
      ap length (
        sym (append-nil (escape (c ∷ s)))
        ∙ escape-cons c s []
        ∙ ap (◌++◌ (escape (c ∷ []))) (append-nil (escape s)))
      ∙ length-append (escape (c ∷ [])) (escape s) in
    rw (escape-cons c s (39 ∷ rest)) (
      string_loop-char fuel 39 typ c buffer _ (at_text text m) b.0 (round-escape c text n b.0)
      ∙ string_loop-escape fuel typ m (buffer ++ (c ∷ [])) s rest (omega arith) b.1 h
      ∙ ground (arith, append_assoc buffer (c ∷ []) s, size))

length-le-escape : (s : List ℕ) → length s ≤ length (escape s)
unfolding escape
length-le-escape [] = omega arith
length-le-escape (c ∷ s) = ground (arith, length-le-escape s)

length-stream : (text : List ℕ) (n : ℕ) → length text ≤ length (at_text text n).stream + 1
length-stream [] n = omega arith
length-stream (c ∷ text) n = omega arith

-- The literal that `encodeSql` writes for a string of bytes, followed by anything but a quote, is
-- scanned as that string by `scanString` once the opening quote is read: the scanner stops behind
-- the closing quote, and it stops there whatever the string holds.
pub scan_string-encode_sql :
    (typ n : ℕ) (s rest : List ℕ)
    → All IsByte s
    → first rest ≢ 39
    → scan_string 39 typ (next (at_text (encode_sql s ++ rest) n))
      ≡ some (typ, s, at_text rest (n + length (encode_sql s)))
unfolding scan_string encode_sql
scan_string-encode_sql typ n s rest b h =
    let text = escape s ++ 39 ∷ rest in
    rw (append_assoc (escape s) (39 ∷ []) rest, next-at_text 39 text n)
      (string_loop-escape _ typ (n + 1) [] s rest
          (omega (
            arith,
            length-stream text (n + 1),
            length-append (escape s) (39 ∷ rest),
            length-le-escape s,
          ))
          b h
        ∙ ground (arith, length-append (escape s) (39 ∷ [])))
