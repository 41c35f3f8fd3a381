-- ===== src/Sqlparser/Token.antt =====
-- sqlparser/token.go: the tokenizer's reader and its string literals.
-- A character is a byte, or `eofchar` behind the last one. The scanners' buffers come empty from the
-- arena. A scanner answers a token's number, its text and the tokenizer that it leaves.
pub mod Strings
pub mod Words
pub mod Scan
pub mod Progress
pub mod Ends
pub mod Symbols
pub mod Total
mod Checks
use cm.Common.{
  ℕ, zero, suc, ◌+◌, ◌%◌, Option, none, some, List, [], ◌∷◌, ◌++◌, length, ◌==◌, leb, if◌then◌else◌,
  Bool, true, false, ◌&&◌, ◌||◌,
}
use cm.Sqltypes.Escape.{sql_decode_map, dont_escape}

abbrev pub eofchar : ℕ
eofchar = 0x100

-- The numbers that goyacc gave the tokens, in sql.go.
abbrev pub lex_error : ℕ
lex_error = 57346

abbrev pub id : ℕ
id = 57383

abbrev pub string : ℕ
string = 57384

abbrev pub comment : ℕ
comment = 57388

-- `stream` is what `InStream` has left.
pub record Tokenizer : Type 0 where
  pub stream : List ℕ
  pub last_char : ℕ
  pub position : ℕ

unfoldable pub next : Tokenizer → Tokenizer
next t = elim t.stream [
  | [] ↦ record t { last_char = eofchar; position = t.position + 1 }
  | c ∷ cs ↦ record { stream = cs; last_char = c; position = t.position + 1 }
]

-- `none` means that the fuel ran out.
abbrev pub Scanned : Type 0
Scanned = Option (ℕ × List ℕ × Tokenizer)

-- One round of `scanString`: the literal ends, or is broken, or has one more character.
pub data Round : Type 0 where
  finished broken : Tokenizer → Round
  char : ℕ → Tokenizer → Round

unfoldable pub string_round : ℕ → Tokenizer → Round
string_round delim t =
    let ch = t.last_char in
    let t' = next t in
    let decoded = sql_decode_map (t'.last_char % 256) in
    if ch == delim
    then if t'.last_char == delim then char ch (next t') else finished t'
    else if ch == 92
    then if t'.last_char == eofchar
      then broken t'
      else char (if decoded == dont_escape then t'.last_char else decoded) (next t')
    else char ch t'

unfoldable pub string_loop : ℕ → ℕ → ℕ → List ℕ → Tokenizer → Scanned
string_loop zero delim typ buffer t = none
string_loop (suc fuel) delim typ buffer t = elim (string_round delim t) [
  | finished t' ↦ some (typ, buffer, t')
  | broken t' ↦ some (lex_error, buffer, t')
  | char ch t' ↦ elim (ch == eofchar) [
    | true ↦ some (lex_error, buffer, t')
    | false ↦ string_loop fuel delim typ (buffer ++ (ch % 256 ∷ [])) t'
  ]
]

-- Each round reads a character at least, and none goes on behind the last.
unfoldable pub scan_string : ℕ → ℕ → Tokenizer → Scanned
scan_string delim typ t = string_loop (length t.stream + 2) delim typ [] t
