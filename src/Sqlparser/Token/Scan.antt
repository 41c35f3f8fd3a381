-- ===== src/Sqlparser/Token/Scan.antt =====
-- sqlparser/token.go: `Scan` and `Lex`, the tokens of a statement.
use cm.Common.{
  ℕ, zero, suc, ◌+◌, ◌%◌, Option, none, some, List, [], ◌∷◌, ◌++◌, codes, ◌==◌, if◌then◌else◌, Bool,
  true, false, not, ◌&&◌, ◌||◌,
}
use cm.Sqlparser.Query.{append_int}
use cm.Sqlparser.Token.{Tokenizer, Scanned, next, eofchar, lex_error, string, comment, scan_string}
use cm.Sqlparser.Token.Words.{
  is_letter, is_digit, scan_identifier, scan_literal_identifier, scan_bind_var, scan_number,
  scan_comment_type1, scan_comment_type2, scan_hex_value, value_arg,
}

abbrev pub ne : ℕ
ne = 57391

abbrev pub le : ℕ
le = 57389

abbrev pub ge : ℕ
ge = 57390

abbrev pub null_safe_equal : ℕ
null_safe_equal = 57392

-- The reader, and the fields of the tokenizer that it does not use.
pub record Lexer : Type 0 where
  pub reader : Tokenizer
  pub allow_comments : Bool
  pub force_eof : Bool
  pub pos_var_index : ℕ

unfoldable pub is_blank : ℕ → Bool
is_blank ch = ch == b' ' || ch == 10 || ch == 13 || ch == 9

-- The loop of `skipBlank`, from a last character, at a position, with what the stream has left.
unfoldable pub skip_from : ℕ → ℕ → List ℕ → Tokenizer
skip_from n ch [] =
    if is_blank ch
    then record { stream = []; last_char = eofchar; position = n + 1 }
    else record { stream = []; last_char = ch; position = n }
skip_from n ch (d ∷ ds) =
    let rest = skip_from (n + 1) d ds in
    if is_blank ch then rest else record { stream = d ∷ ds; last_char = ch; position = n }

unfoldable pub skip_blank : Tokenizer → Tokenizer
skip_blank t = skip_from t.position t.last_char t.stream

-- `unReadByte` after a read, which steps back even where the read found the end: the last byte comes
-- again then. It is the last character, which is put back too.
unfoldable pub unread : ℕ → List ℕ → Tokenizer → Tokenizer
unread ch [] t = record t { stream = ch ∷ []; last_char = ch }
unread ch (c ∷ cs) t = record t { stream = c ∷ cs; last_char = ch }

-- The case of a letter.
unfoldable pub scan_word : Tokenizer → Scanned
scan_word t =
    let t' = next t in
    if t.last_char == b'x'
    then if t'.last_char == 39
      then scan_hex_value 39 string t'
      else some (scan_identifier (unread t.last_char t.stream t'))
    else some (scan_identifier t)

-- `=`, `,`, `;`, `(`, `)`, `+`, `*`, `%`, `&`, `|`, `^` and `~`.
unfoldable pub is_single : ℕ → Bool
is_single ch =
    ch == b'='
    || ch == b','
    || ch == b';'
    || ch == b'('
    || ch == b')'
    || ch == b'+'
    || ch == b'*'
    || ch == b'%'
    || ch == b'&'
    || ch == b'|'
    || ch == b'^'
    || ch == b'~'

-- A token without a text.
abbrev bare : ℕ → Tokenizer → Scanned
bare typ t = some (typ, [], t)

-- Behind `/`.
unfoldable pub scan_slash : Tokenizer → Scanned
scan_slash t =
    if t.last_char == b'/'
    then some (scan_comment_type1 (codes "//") (next t))
    else if t.last_char == b'*'
    then some (scan_comment_type2 (next t))
    else bare b'/' t

-- Behind `<`.
unfoldable pub scan_less : Tokenizer → Scanned
scan_less t =
    let t' = next t in
    if t.last_char == b'>'
    then bare ne t'
    else if t.last_char == b'='
    then if t'.last_char == b'>' then bare null_safe_equal (next t') else bare le t'
    else bare b'<' t

-- The character `ch` has been read; `t` is the tokenizer behind it.
unfoldable pub scan_symbol : ℕ → Tokenizer → Scanned
scan_symbol ch t =
    if ch == eofchar
    then bare 0 t
    else if is_single ch
    then bare ch t
    else if ch == b'.'
    then if is_digit t.last_char then some (scan_number true t) else bare ch t
    else if ch == b'/'
    then scan_slash t
    else if ch == b'-'
    then if t.last_char == b'-' then some (scan_comment_type1 (codes "--") (next t)) else bare ch t
    else if ch == b'<'
    then scan_less t
    else if ch == b'>'
    then if t.last_char == b'=' then bare ge (next t) else bare ch t
    else if ch == b'!'
    then if t.last_char == b'=' then bare ne (next t) else some (lex_error, b'!' ∷ [], t)
    else if ch == 39 || ch == 34
    then scan_string ch string t
    else if ch == b'`'
    then some (scan_literal_identifier t)
    else some (lex_error, ch % 256 ∷ [], t)

-- The first read, and the blanks.
unfoldable pub at_token : Tokenizer → Tokenizer
at_token t = skip_blank (if t.last_char == 0 then next t else t)

-- A token of the reader, but for `?`.
unfoldable pub scan_reader : Tokenizer → Scanned
scan_reader t =
    if is_letter t.last_char
    then scan_word t
    else if is_digit t.last_char
    then some (scan_number false t)
    else if t.last_char == b':'
    then some (scan_bind_var t)
    else scan_symbol t.last_char (next t)

abbrev pub read_by : Lexer → Scanned → Option (ℕ × List ℕ × Lexer)
read_by l none = none
read_by l (some (typ, val, t)) = some (typ, val, record l { reader = t })

-- `Scan`. A nil text is empty. The fuel of a string is in `scan_string`.
unfoldable pub scan : Lexer → Option (ℕ × List ℕ × Lexer)
scan l =
    let t = at_token l.reader in
    let n = l.pos_var_index + 1 in
    if l.force_eof
    then some (0, [], l)
    else if t.last_char == b'?'
    then some
        (value_arg, codes ":v" ++ append_int n, record l { reader = next t; pos_var_index = n })
    else read_by l (scan_reader t)

-- `Lex`, whose loop passes over comments; `none` where the fuel ran out.
unfoldable pub lex : ℕ → Lexer → Option (ℕ × List ℕ × Lexer)
lex zero l = none
lex (suc fuel) l = elim (scan l) [
  | none ↦ none
  | some (typ, val, l') ↦
      let rest = lex fuel l' in
      if typ == comment && not l.allow_comments then rest else some (typ, val, l')
]
