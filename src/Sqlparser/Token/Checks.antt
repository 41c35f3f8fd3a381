-- ===== src/Sqlparser/Token/Checks.antt =====
-- Runs of the string scanner, and the theorems at concrete inputs.
use cm.Common.{
  ℕ, ◌≡◌, ◌+◌, refl, List, [], ◌∷◌, ◌++◌, length, some, arith, codes, ◌=?◌, false, ◌<◌, ◌⊎◌,
}
use cm.Sqlparser.Keywords.Numbers.{keyword_id, number_of}
use cm.Sqlparser.Token.{eofchar, id}
use cm.Sqlparser.Token.Words.{
  number, is_letter, is_digit, digit_val, taken, take_while, scan_identifier, scan_number,
  scan_octal, octal_end, scan_fraction, scan_exponent, scan_mantissa,
}
use cm.Sqlparser.Token.Scan.{
  Lexer, is_blank, scan, lex, at_token, skip_blank, skip_from, scan_reader, scan_word, unread,
}
use cm.Sqlparser.Token.Progress.{remaining}
use cm.Sqlparser.Token.Total.{scan_total, lex_total}
use cm.Sqltypes.Escape.{encode_sql, escape, sql_encode_map, sql_decode_map}
use cm.Sqlparser.Token.{next, scan_string, string, string_loop, string_round}
use cm.Sqlparser.Token.Strings.{at_text, scan_string-encode_sql}

-- it's\
abbrev hostile : List ℕ
hostile = b'i' ∷ b't' ∷ 39 ∷ b's' ∷ 92 ∷ []

scan_string-encode_sql_example :
    scan_string 39 string (next (at_text (encode_sql hostile ++ 41 ∷ []) 1))
    ≡ some (string, hostile, at_text (41 ∷ []) (1 + length (encode_sql hostile)))
scan_string-encode_sql_example =
    scan_string-encode_sql string 1 hostile (41 ∷ []) (omega arith) (omega arith)

escaped : escape hostile ≡ b'i' ∷ b't' ∷ 92 ∷ 39 ∷ b's' ∷ 92 ∷ 92 ∷ []
unfolding escape sql_encode_map
escaped = refl

-- A doubled quote is one quote: 'a''b' behind its first quote.
doubled_quote :
    scan_string 39 string (at_text (b'a' ∷ 39 ∷ 39 ∷ b'b' ∷ 39 ∷ []) 1)
    ≡ some (string, b'a' ∷ 39 ∷ b'b' ∷ [], at_text [] 6)
unfolding scan_string string_loop string_round next sql_decode_map
doubled_quote = refl

-- The tokenizer that is new over a text.
abbrev new_lexer : List ℕ → Lexer
new_lexer text = record {
  reader = record { stream = text; last_char = 0; position = 0 };
  allow_comments = false;
  force_eof = false;
  pos_var_index = 0;
}

abbrev with_reader : List ℕ → ℕ → ℕ → Lexer
with_reader stream ch n = record (new_lexer []) {
  reader = record { stream = stream; last_char = ch; position = n };
}

-- An x at the end comes twice, as the byte that is put back is the x itself.
last_x : scan (new_lexer (codes " x")) ≡ some (id, codes "xx", with_reader [] eofchar 5)
unfolding scan at_token skip_blank skip_from next scan_reader is_letter scan_word unread
    scan_identifier taken take_while is_digit keyword_id number_of is_blank ◌=?◌
last_x = refl

inner_x : scan (new_lexer (codes "xa,")) ≡ some (id, codes "xa", with_reader [] b',' 4)
unfolding scan at_token skip_blank skip_from next scan_reader is_letter scan_word unread
    scan_identifier taken take_while is_digit keyword_id number_of is_blank ◌=?◌
inner_x = refl

a_number :
    scan (new_lexer (codes "089.5e-3 ")) ≡ some (number, codes "089.5e-3", with_reader [] b' ' 9)
unfolding scan at_token skip_blank skip_from next scan_reader is_letter is_digit scan_number
    scan_octal octal_end scan_fraction scan_exponent scan_mantissa digit_val taken take_while
    scan_identifier keyword_id number_of is_blank
a_number = refl

scan_total_example :
    (typ : ℕ) × (val : List ℕ) × (l' : Lexer) × (scan (new_lexer (codes "/* a */ x"))
      ≡ some (typ, val, l'))
    × ((typ ≡ 0) ⊎ (remaining l'.reader < remaining (new_lexer (codes "/* a */ x")).reader))
scan_total_example = scan_total (new_lexer (codes "/* a */ x"))

lex_total_example :
    (typ : ℕ) × (val : List ℕ) × (l' : Lexer) × (lex 11 (new_lexer (codes "/* a */ x"))
      ≡ some (typ, val, l'))
lex_total_example = lex_total 11 (new_lexer (codes "/* a */ x")) (omega arith)
