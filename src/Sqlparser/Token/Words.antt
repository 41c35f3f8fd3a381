-- ===== src/Sqlparser/Token/Words.antt =====
-- sqlparser/token.go: identifiers, bind variables, numbers, comments and hexadecimal strings. A scanner
-- answers a token's number, its text and the tokenizer that it leaves. `ConsumeNext` panics at the end
-- of the input, where no test of a loop holds.
use cm.Common.{
  ℕ, zero, suc, ◌+◌, ◌-◌, ◌%◌, Option, none, some, List, [], ◌∷◌, ◌++◌, length, codes, ltb, leb,
  ◌==◌, if◌then◌else◌, Bool, true, false, not, ◌&&◌, ◌||◌,
}
use cm.Sqltypes.Escape.{sql_decode_map, dont_escape}
use cm.Sqlparser.Keywords.Numbers.{keyword_id}
use cm.Sqlparser.Token.{
  Tokenizer, Round, finished, broken, char, next, eofchar, lex_error, id, comment,
}

abbrev pub number : ℕ
number = 57385

abbrev pub value_arg : ℕ
value_arg = 57386

abbrev pub list_arg : ℕ
list_arg = 57387

abbrev pub Token : Type 0
Token = ℕ × List ℕ × Tokenizer

unfoldable pub is_letter : ℕ → Bool
is_letter ch = leb b'a' ch && leb ch b'z' || leb b'A' ch && leb ch b'Z' || ch == b'_' || ch == b'@'

unfoldable pub is_digit : ℕ → Bool
is_digit ch = leb b'0' ch && leb ch b'9'

unfoldable pub digit_val : ℕ → ℕ
digit_val ch =
    if leb b'0' ch && leb ch b'9'
    then ch - b'0'
    else if leb b'a' ch && leb ch b'f'
    then ch - b'a' + 10
    else if leb b'A' ch && leb ch b'F'
    then ch - b'A' + 10
    else 16

-- `buffer.WriteByte(byte(tkn.lastChar))`
abbrev pub written : List ℕ → ℕ → List ℕ
written buffer ch = buffer ++ ch % 256 ∷ []

-- A loop that takes characters while a test holds of the last one. No test holds of `eofchar`.
unfoldable pub take_while : (ℕ → Bool) → List ℕ → ℕ → ℕ → List ℕ → List ℕ × Tokenizer
take_while p buffer n ch [] =
    if p ch
    then (written buffer ch, record { stream = []; last_char = eofchar; position = n + 1 })
    else (buffer, record { stream = []; last_char = ch; position = n })
take_while p buffer n ch (d ∷ ds) =
    let rest = take_while p (written buffer ch) (n + 1) d ds in
    if p ch then rest else (buffer, record { stream = d ∷ ds; last_char = ch; position = n })

unfoldable pub taken : (ℕ → Bool) → List ℕ → Tokenizer → List ℕ × Tokenizer
taken p buffer t = take_while p buffer t.position t.last_char t.stream

abbrev pub in_word : ℕ → Bool
in_word ch = is_letter ch || is_digit ch

unfoldable pub scan_identifier : Tokenizer → Token
scan_identifier t =
    let (buffer, t') = taken in_word (written [] t.last_char) (next t) in
    elim (keyword_id buffer) [ none ↦ (id, buffer, t') | some k ↦ (k, buffer, t') ]

unfoldable pub scan_literal_identifier : Tokenizer → Token
scan_literal_identifier t =
    let (buffer, t') = taken in_word (written [] t.last_char) (next t) in
    if not (is_letter t.last_char)
    then (lex_error, written [] t.last_char, t)
    else if not (t'.last_char == b'`')
    then (lex_error, buffer, t')
    else (id, buffer, next t')

-- Behind the colons.
unfoldable pub bind_var_name : ℕ → List ℕ → Tokenizer → Token
bind_var_name token buffer t =
    let (name, t') = taken (λ ch. in_word ch || ch == b'.') buffer t in
    if not (is_letter t.last_char) then (lex_error, buffer, t) else (token, name, t')

unfoldable pub scan_bind_var : Tokenizer → Token
scan_bind_var t =
    let buffer = written [] t.last_char in
    let t' = next t in
    if t'.last_char == b':'
    then bind_var_name list_arg (written buffer t'.last_char) (next t')
    else bind_var_name value_arg buffer t'

unfoldable pub scan_mantissa : ℕ → List ℕ → Tokenizer → List ℕ × Tokenizer
scan_mantissa base buffer t = taken (λ ch. ltb (digit_val ch) base) buffer t

abbrev is_exponent : ℕ → Bool
is_exponent ch = ch == b'e' || ch == b'E'

-- The label `exponent`, up to the end.
unfoldable pub scan_exponent : List ℕ → Tokenizer → Token
scan_exponent buffer t =
    let t' = next t in
    let buffer' = written buffer t.last_char in
    let (digits, t'') =
      if t'.last_char == b'+' || t'.last_char == b'-'
      then scan_mantissa 10 (written buffer' t'.last_char) (next t')
      else scan_mantissa 10 buffer' t' in
    if is_exponent t.last_char then (number, digits, t'') else (number, buffer, t)

-- The label `fraction`.
unfoldable pub scan_fraction : List ℕ → Tokenizer → Token
scan_fraction buffer t =
    let (digits, t') = scan_mantissa 10 (written buffer t.last_char) (next t) in
    if t.last_char == b'.' then scan_exponent digits t' else scan_exponent buffer t

-- Behind octal digits and, where `decimal` says so, further digits.
unfoldable pub octal_end : Bool → List ℕ → Tokenizer → Token
octal_end decimal buffer t =
    if t.last_char == b'.' || is_exponent t.last_char
    then scan_fraction buffer t
    else if decimal
    then (lex_error, buffer, t)
    else (number, buffer, t)

-- Behind a 0.
unfoldable pub scan_octal : List ℕ → Tokenizer → Token
scan_octal buffer t =
    let (octal, t') = scan_mantissa 8 buffer t in
    let (all, t'') = scan_mantissa 10 octal t' in
    if t'.last_char == b'8' || t'.last_char == b'9'
    then octal_end true all t''
    else octal_end false octal t'

unfoldable pub scan_number : Bool → Tokenizer → Token
scan_number true t = let (buffer, t') = scan_mantissa 10 (b'.' ∷ []) t in scan_exponent buffer t'
scan_number false t =
    let t' = next t in
    let buffer = written [] t.last_char in
    let (hex, t'') = scan_mantissa 16 (written buffer t'.last_char) (next t') in
    let (decimal, u) = scan_mantissa 10 [] t in
    if t.last_char == b'0'
    then if t'.last_char == b'x' || t'.last_char == b'X'
      then (number, hex, t'')
      else scan_octal buffer t'
    else scan_fraction decimal u

-- The loop takes the line's end with the comment.
unfoldable pub scan_comment_type1 : List ℕ → Tokenizer → Token
scan_comment_type1 prefix t =
    let (line, t') = taken (λ ch. not (ch == eofchar) && not (ch == 10)) prefix t in
    if t'.last_char == 10
    then (comment, written line t'.last_char, next t')
    else (comment, line, t')

unfoldable pub comment_loop : List ℕ → ℕ → ℕ → List ℕ → Token
comment_loop buffer n ch [] =
    if ch == eofchar
    then (lex_error, buffer, record { stream = []; last_char = ch; position = n })
    else (
      lex_error,
      written buffer ch,
      record { stream = []; last_char = eofchar; position = n + 1 },
    )
comment_loop buffer n ch (d ∷ ds) =
    let rest = comment_loop (written buffer ch) (n + 1) d ds in
    if ch == b'*' && d == b'/'
    then (
      comment,
      written (written buffer ch) d,
      next (record { stream = ds; last_char = d; position = n + 1 }),
    )
    else if ch == eofchar
    then (lex_error, buffer, record { stream = d ∷ ds; last_char = ch; position = n })
    else rest

unfoldable pub scan_comment_type2 : Tokenizer → Token
scan_comment_type2 t = comment_loop (codes "/*") t.position t.last_char t.stream

-- A round of `scanHexValue`: only a delimiter that is no quote could make the second test hold.
unfoldable pub hex_round : ℕ → Tokenizer → Round
hex_round delim t =
    let ch = t.last_char in
    let t' = next t in
    let decoded = sql_decode_map (t'.last_char % 256) in
    if ch == delim
    then if t'.last_char == delim then char ch (next t') else finished t'
    else if ch == 39
    then if t'.last_char == eofchar
      then broken t'
      else char (if decoded == dont_escape then t'.last_char else decoded) (next t')
    else char ch t'

-- `none` means that the fuel ran out.
unfoldable pub hex_loop : ℕ → ℕ → ℕ → List ℕ → Tokenizer → Option Token
hex_loop zero delim typ buffer t = none
hex_loop (suc fuel) delim typ buffer t = elim (hex_round delim t) [
  | finished t' ↦ some (typ, written buffer delim, t')
  | broken t' ↦ some (lex_error, buffer, t')
  | char ch t' ↦
      let rest = hex_loop fuel delim typ (written buffer ch) t' in
      if ch == eofchar then some (lex_error, buffer, t') else rest
]

-- Each round reads a character at least, and none goes on behind the last.
unfoldable pub scan_hex_value : ℕ → ℕ → Tokenizer → Option Token
scan_hex_value delim typ t =
    let t' = next t in hex_loop (length t'.stream + 2) delim typ (codes "x'") t'
