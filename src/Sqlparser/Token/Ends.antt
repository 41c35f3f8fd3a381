-- ===== src/Sqlparser/Token/Ends.antt =====
-- sqlparser/token.go: the scanners of strings have fuel enough.
use cm.Common.{
  ℕ, zero, suc, ◌+◌, ◌%◌, ◌≤◌, ◌<◌, ◌≡◌, refl, none, some, List, [], ◌∷◌, ◌++◌, length, codes, ◌==◌,
  if◌then◌else◌, Bool, true, false, arith,
}
use cm.Sqltypes.Escape.{sql_decode_map, dont_escape}
use cm.Sqlparser.Token.{
  Tokenizer, Scanned, Round, finished, broken, char, next, eofchar, lex_error, string, scan_string,
  string_loop, string_round,
}
use cm.Sqlparser.Token.Words.{hex_round, hex_loop, scan_hex_value, written}
use cm.Sqlparser.Token.Progress.{remaining, next-remaining, next-le, left}

-- A token is answered, and it leaves at most `n` characters.
abbrev pub Ends : ℕ → Scanned → Type 0
Ends n none = ⊥
Ends n (some x) = remaining (left x) ≤ n

pub Ends-le : (m n : ℕ) (x : Scanned) → Ends m x → m ≤ n → Ends n x
Ends-le m n none h k = h
Ends-le m n (some x) h k = omega arith

-- What a round leaves: a character that is not the end has been read.
abbrev Reads : Tokenizer → Round → Type 0
Reads t (finished u) = remaining u ≤ remaining t
Reads t (broken u) = remaining u ≤ remaining t
Reads t (char ch u) = remaining u + (if ch == eofchar then 0 else 1) ≤ remaining t

Reads-if :
    (t : Tokenizer) (b : Bool) (x y : Round)
    → (b ≡ true → Reads t x)
    → (b ≡ false → Reads t y)
    → Reads t (if b then x else y)
Reads-if t true x y h k = h refl
Reads-if t false x y h k = k refl

string_round-Reads :
    (delim : ℕ) (t : Tokenizer) → (delim == eofchar) ≡ false → Reads t (string_round delim t)
unfolding string_round
string_round-Reads delim t h =
    let u = next t in
    let decoded = sql_decode_map (u.last_char % 256) in
    let step = next-remaining t in
    let again = next-le u in
    Reads-if t (t.last_char == delim) _ _
      (λ a.
        Reads-if t (u.last_char == delim) (char t.last_char (next u)) (finished u)
          (λ b. ground arith) (λ b. omega arith))
      (λ a.
        Reads-if t (t.last_char == 92) _ _
          (λ b.
            Reads-if t (u.last_char == eofchar) (broken u)
              (char (if decoded == dont_escape then u.last_char else decoded) (next u))
              (λ c. omega arith) (λ c. ground arith))
          (λ b. ground arith))

hex_round-Reads :
    (delim : ℕ) (t : Tokenizer) → (delim == eofchar) ≡ false → Reads t (hex_round delim t)
unfolding hex_round
hex_round-Reads delim t h =
    let u = next t in
    let decoded = sql_decode_map (u.last_char % 256) in
    let step = next-remaining t in
    let again = next-le u in
    Reads-if t (t.last_char == delim) _ _
      (λ a.
        Reads-if t (u.last_char == delim) (char t.last_char (next u)) (finished u)
          (λ b. ground arith) (λ b. omega arith))
      (λ a.
        Reads-if t (t.last_char == 39) _ _
          (λ b.
            Reads-if t (u.last_char == eofchar) (broken u)
              (char (if decoded == dont_escape then u.last_char else decoded) (next u))
              (λ c. omega arith) (λ c. ground arith))
          (λ b. ground arith))

string_loop-Ends :
    (fuel delim typ : ℕ) (buffer : List ℕ) (t : Tokenizer)
    → (delim == eofchar) ≡ false
    → remaining t < fuel
    → Ends (remaining t) (string_loop fuel delim typ buffer t)
unfolding string_loop
string_loop-Ends zero delim typ buffer t h k = absurd (omega arith)
string_loop-Ends (suc fuel) delim typ buffer t h k =
    by_round (string_round delim t) (string_round-Reads delim t h)
      (λ b u. string_loop-Ends fuel delim typ b u h)
  where
    by_char :
        (b : Bool) (ch : ℕ) (u : Tokenizer)
        → (ch == eofchar) ≡ b
        → Reads t (char ch u)
        → ((b : List ℕ) (u : Tokenizer)
            → remaining u < fuel
            → Ends (remaining u) (string_loop fuel delim typ b u))
        → Ends (remaining t) (elim b [
          | true ↦ some (lex_error, buffer, u)
          | false ↦ string_loop fuel delim typ (buffer ++ (ch % 256 ∷ [])) u
        ])
    by_char true ch u e r rec = ground arith
    by_char false ch u e r rec = Ends-le (remaining u) _ _ (rec _ u (ground arith)) (ground arith)

    by_round :
        (r : Round)
        → Reads t r
        → ((b : List ℕ) (u : Tokenizer)
            → remaining u < fuel
            → Ends (remaining u) (string_loop fuel delim typ b u))
        → Ends (remaining t) (elim r [
          | finished t' ↦ some (typ, buffer, t')
          | broken t' ↦ some (lex_error, buffer, t')
          | char ch t' ↦ elim (ch == eofchar) [
            | true ↦ some (lex_error, buffer, t')
            | false ↦ string_loop fuel delim typ (buffer ++ (ch % 256 ∷ [])) t'
          ]
        ])
    by_round (finished u) r rec = r
    by_round (broken u) r rec = r
    by_round (char ch u) r rec = by_char (ch == eofchar) ch u refl r rec

hex_loop-Ends :
    (fuel delim typ : ℕ) (buffer : List ℕ) (t : Tokenizer)
    → (delim == eofchar) ≡ false
    → remaining t < fuel
    → Ends (remaining t) (hex_loop fuel delim typ buffer t)
unfolding hex_loop
hex_loop-Ends zero delim typ buffer t h k = absurd (omega arith)
hex_loop-Ends (suc fuel) delim typ buffer t h k =
    by_round (hex_round delim t) (hex_round-Reads delim t h)
      (λ b u. hex_loop-Ends fuel delim typ b u h)
  where
    by_char :
        (b : Bool) (ch : ℕ) (u : Tokenizer)
        → (ch == eofchar) ≡ b
        → Reads t (char ch u)
        → ((b : List ℕ) (u : Tokenizer)
            → remaining u < fuel
            → Ends (remaining u) (hex_loop fuel delim typ b u))
        → Ends (remaining t) (
            if b
            then some (lex_error, buffer, u)
            else hex_loop fuel delim typ (written buffer ch) u)
    by_char true ch u e r rec = ground arith
    by_char false ch u e r rec = Ends-le (remaining u) _ _ (rec _ u (ground arith)) (ground arith)

    by_round :
        (r : Round)
        → Reads t r
        → ((b : List ℕ) (u : Tokenizer)
            → remaining u < fuel
            → Ends (remaining u) (hex_loop fuel delim typ b u))
        → Ends (remaining t) (elim r [
          | finished t' ↦ some (typ, written buffer delim, t')
          | broken t' ↦ some (lex_error, buffer, t')
          | char ch t' ↦
              let rest = hex_loop fuel delim typ (written buffer ch) t' in
              if ch == eofchar then some (lex_error, buffer, t') else rest
        ])
    by_round (finished u) r rec = r
    by_round (broken u) r rec = r
    by_round (char ch u) r rec = by_char (ch == eofchar) ch u refl r rec

pub scan_string-Ends :
    (delim typ : ℕ) (t : Tokenizer)
    → (delim == eofchar) ≡ false
    → Ends (remaining t) (scan_string delim typ t)
unfolding scan_string
scan_string-Ends delim typ t h =
    string_loop-Ends (length t.stream + 2) delim typ [] t h (ground arith)

pub scan_hex_value-Ends : (t : Tokenizer) → Ends (length t.stream) (scan_hex_value 39 string t)
unfolding scan_hex_value
scan_hex_value-Ends t =
    Ends-le (remaining (next t)) (length t.stream) _
      (hex_loop-Ends (length (next t).stream + 2) 39 string (codes "x'") (next t) refl
        (ground arith))
      (next-remaining t)
