-- ===== src/Mysql/Resultset.antt =====
-- mysql/resultset.go: the values of a row, their text and binary forms, and a set of results.
-- An int64 is its 64-bit pattern and a float64 its bits; what is done to floating-point numbers is
-- the argument `Floats`. The name of a numeric type of the protocol is its number.
pub mod Decimal
pub mod Binary
pub mod Sort
mod Checks
use cm.Common.{
  ℕ, suc, ◌+◌, ◌*◌, ◌/◌, ◌%◌, ◌^◌, List, [], ◌∷◌, ◌++◌, length, Bool, true, false, ◌&&◌, ◌||◌,
  Option, none, some, leb, ◌==◌, ltb, if◌then◌else◌, Error, malform_packet, unsupported_type,
  bad_number, no_rows, column_count, column_not_found, Result, ok, err, panic, ◌>>=◌, index_at,
  slice, slice_from, ◌=?◌,
}
use cm.Sqlparser.Query.{append_uint, append_int}
use cm.Mysql.LenEnc.{
  little_endian, length_encoded_int, length_enoded_string, put_length_encoded_string,
}
use cm.Mysql.BinaryTime.{format_binary_date, format_binary_date_time, format_binary_time}
use cm.Mysql.Field.{Field, bytes_of}
use cm.Mysql.Resultset.Decimal.{parse_uint, parse_int}

-- What a `Value` may hold.
pub data Value : Type 0 where
  null : Value
  int64 uint64 float64 : ℕ → Value
  string bytes : List ℕ → Value

abbrev pub RowValue : Type 0
RowValue = List Value

-- `strconv.FormatFloat(v, 'f', 16, 64)` and with precision -1, `strconv.ParseFloat`, the conversions
-- between the numbers, and `<`.
pub record Floats : Type 0 where
  pub format : ℕ → List ℕ
  pub shortest : ℕ → List ℕ
  pub parse : List ℕ → Result ℕ
  pub from_float32 : ℕ → ℕ
  pub of_int : ℕ → ℕ
  pub of_uint : ℕ → ℕ
  pub to_uint : ℕ → ℕ
  pub less : ℕ → ℕ → Bool

-- How a numeric type of the protocol is written: as an integer, as a floating-point number, as a text
-- that may be a string, or as bytes.
pub data Kind : Type 0 where
  integer floating varchar other : Kind

unfoldable pub kind_of : ℕ → Kind
kind_of t =
    if t == 1 || t == 2 || t == 9 || t == 3 || t == 8 || t == 13
    then integer
    else if t == 4 || t == 5
    then floating
    else if t == 15
    then varchar
    else other

-- A type assertion that does not hold panics.
unfoldable pub raw_integer : Value → Bool → Result (List ℕ)
raw_integer (uint64 n) true = ok (append_uint n)
raw_integer (int64 n) false = ok (append_int n)
raw_integer v unsigned = panic

unfoldable pub raw_float : Floats → Value → Result (List ℕ)
raw_float F (float64 x) = ok (F.format x)
raw_float F v = panic

-- What is no slice of bytes is logged, and nil is answered.
unfoldable pub raw_bytes : Value → List ℕ
raw_bytes (bytes s) = s
raw_bytes v = []

unfoldable pub raw_varchar : Value → List ℕ
raw_varchar (string s) = s
raw_varchar v = raw_bytes v

unfoldable pub raw_as : Floats → Kind → Value → Bool → Result (List ℕ)
raw_as F integer v unsigned = raw_integer v unsigned
raw_as F floating v unsigned = raw_float F v
raw_as F varchar v unsigned = ok (raw_varchar v)
raw_as F other v unsigned = ok (raw_bytes v)

unfoldable pub raw : Floats → ℕ → Value → Bool → Result (List ℕ)
raw F t null unsigned = ok []
raw F t (int64 n) unsigned = raw_as F (kind_of t) (int64 n) unsigned
raw F t (uint64 n) unsigned = raw_as F (kind_of t) (uint64 n) unsigned
raw F t (float64 x) unsigned = raw_as F (kind_of t) (float64 x) unsigned
raw F t (string s) unsigned = raw_as F (kind_of t) (string s) unsigned
raw F t (bytes s) unsigned = raw_as F (kind_of t) (bytes s) unsigned

-- `Flag&UNSIGNED_FLAG > 0`
unfoldable pub has_unsigned_flag : Field → Bool
has_unsigned_flag f = f.flag / 32 % 2 == 1

unfoldable pub text_value : Floats → Kind → Bool → List ℕ → Result Value
text_value F integer true s = parse_uint s >>= λ n. ok (uint64 n)
text_value F integer false s = parse_int s >>= λ n. ok (int64 n)
text_value F floating unsigned s = F.parse s >>= λ x. ok (float64 x)
text_value F varchar unsigned s = ok (bytes s)
text_value F other unsigned s = ok (bytes s)

-- The loop of `ParseText` over the fields that are left.
unfoldable pub parse_text_loop : Floats → List ℕ → ℕ → List Field → Result RowValue
parse_text_loop F p pos [] = ok []
parse_text_loop F p pos (f ∷ fs) = do
  rest ← slice_from p pos
  s ← length_enoded_string rest
  v ←
      if s.is_null
      then ok null
      else text_value F (kind_of f.type) (has_unsigned_flag f || f.is_unsigned) (bytes_of s.str)
  vs ← parse_text_loop F p (pos + s.n) fs
  ok (v ∷ vs)

unfoldable pub parse_text : Floats → List ℕ → List Field → Result RowValue
parse_text F p fs = parse_text_loop F p 0 fs

-- A map of names to columns is a list of pairs, of which the first with a name counts. A field is a
-- pointer that may be nil.
pub record Resultset : Type 0 where
  pub fields : List (Option Field)
  pub field_names : List (List ℕ × ℕ)
  pub values : List RowValue
  pub row_datas : List (List ℕ)

row_number : Resultset → ℕ
row_number r = length r.values

column_number : Resultset → ℕ
column_number r = length r.fields

abbrev pub column_named : List ℕ → List (List ℕ × ℕ) → Option ℕ
column_named name [] = none
column_named name ((n, i) ∷ ns) = if n =? name then some i else column_named name ns

-- The row or the column is a Go `int`; one that is negative is none of these numbers.
get_value : Resultset → ℕ → ℕ → Result Value
get_value r row column =
    if leb (length r.values) row
    then err no_rows
    else if leb (length r.fields) column
    then err column_count
    else (do vs ← index_at r.values row; index_at vs column)

name_index : Resultset → List ℕ → Result ℕ
name_index r name = elim (column_named name r.field_names) [
  | none ↦ err column_not_found
  | some i ↦ ok i
]

get_value_by_name : Resultset → ℕ → List ℕ → Result Value
get_value_by_name r row name = do column ← name_index r name; get_value r row column

is_null_value : Value → Bool
is_null_value null = true
is_null_value (int64 n) = false
is_null_value (uint64 n) = false
is_null_value (float64 x) = false
is_null_value (string s) = false
is_null_value (bytes s) = false

pub is_null : Resultset → ℕ → ℕ → Result Bool
is_null r row column = do v ← get_value r row column; ok (is_null_value v)

is_null_by_name : Resultset → ℕ → List ℕ → Result Bool
is_null_by_name r row name = do column ← name_index r name; is_null r row column

-- `uint64(v)` of an int64 keeps its pattern.
uint_of : Floats → Value → Result ℕ
uint_of F null = ok 0
uint_of F (int64 n) = ok n
uint_of F (uint64 n) = ok n
uint_of F (float64 x) = ok (F.to_uint x)
uint_of F (string s) = parse_uint s
uint_of F (bytes s) = parse_uint s

get_uint : Floats → Resultset → ℕ → ℕ → Result ℕ
get_uint F r row column = do v ← get_value r row column; uint_of F v

get_uint_by_name : Floats → Resultset → ℕ → List ℕ → Result ℕ
get_uint_by_name F r row name = do column ← name_index r name; get_uint F r row column

-- `int64(v)` keeps the pattern as well.
get_int : Floats → Resultset → ℕ → ℕ → Result ℕ
get_int F r row column = get_uint F r row column

get_int_by_name : Floats → Resultset → ℕ → List ℕ → Result ℕ
get_int_by_name F r row name = get_uint_by_name F r row name

-- The bits of 0.0 are 0.
float_of : Floats → Value → Result ℕ
float_of F null = ok 0
float_of F (int64 n) = ok (F.of_int n)
float_of F (uint64 n) = ok (F.of_uint n)
float_of F (float64 x) = ok x
float_of F (string s) = F.parse s
float_of F (bytes s) = F.parse s

get_float : Floats → Resultset → ℕ → ℕ → Result ℕ
get_float F r row column = do v ← get_value r row column; float_of F v

get_float_by_name : Floats → Resultset → ℕ → List ℕ → Result ℕ
get_float_by_name F r row name = do column ← name_index r name; get_float F r row column

string_of : Floats → Value → List ℕ
string_of F null = []
string_of F (int64 n) = append_int n
string_of F (uint64 n) = append_uint n
string_of F (float64 x) = F.shortest x
string_of F (string s) = s
string_of F (bytes s) = s

get_string : Floats → Resultset → ℕ → ℕ → Result (List ℕ)
get_string F r row column = do v ← get_value r row column; ok (string_of F v)

get_string_by_name : Floats → Resultset → ℕ → List ℕ → Result (List ℕ)
get_string_by_name F r row name = do column ← name_index r name; get_string F r row column
