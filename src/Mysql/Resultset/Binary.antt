-- ===== src/Mysql/Resultset/Binary.antt =====
-- mysql/resultset.go: the rows of the binary protocol, `ParseBinary`. `p[i:i+k]` panics where reading
-- its `k` bytes does, since the position is inside of the row.
use cm.Common.{
  ℕ, suc, ◌+◌, ◌/◌, ◌%◌, ◌^◌, List, [], ◌∷◌, length, Bool, true, false, ◌&&◌, ◌||◌, leb, ◌==◌,
  if◌then◌else◌, malform_packet, unknown_type, Result, ok, err, ◌>>=◌, index_at, slice, slice_from,
}
use cm.Mysql.LenEnc.{little_endian, length_encoded_int, length_enoded_string}
use cm.Mysql.BinaryTime.{format_binary_date, format_binary_date_time, format_binary_time}
use cm.Mysql.Field.{Field, bytes_of}
use cm.Mysql.Resultset.{
  Value, RowValue, Floats, null, int64, uint64, float64, bytes, has_unsigned_flag,
}

-- How a value of a type of the protocol is laid out.
pub data Layout : Type 0 where
  nothing float32 double text date date_time clock unknown : Layout
  -- An integer of as many bytes.
  fixed : ℕ → Layout

unfoldable pub layout_of : ℕ → Layout
layout_of t =
    if t == 6
    then nothing
    else if t == 1
    then fixed 1
    else if t == 2 || t == 13
    then fixed 2
    else if t == 9 || t == 3
    then fixed 4
    else if t == 8
    then fixed 8
    else if t == 4
    then float32
    else if t == 5
    then double
    else if t == 0 || t == 15 || t == 16 || (leb 246 t && leb t 255)
    then text
    else if t == 10 || t == 14
    then date
    else if t == 7 || t == 12
    then date_time
    else if t == 11
    then clock
    else unknown

-- An integer without its sign: `uint64(x)` and `int64(x)` of an unsigned `x` are both `x`.
integer_value : Bool → ℕ → Value
integer_value true n = uint64 n
integer_value false n = int64 n

text_at : List ℕ → ℕ → Result (Value × ℕ)
text_at p pos = do
  rest ← slice_from p pos
  s ← length_enoded_string rest
  ok (if s.is_null then null else bytes (bytes_of s.str), pos + s.n)

-- The three formats differ in the function that prints the bytes.
time_at : (ℕ → List ℕ → Result (List ℕ)) → List ℕ → ℕ → Result (Value × ℕ)
time_at format p pos = do
  rest ← slice_from p pos
  i ← length_encoded_int rest
  let pos = pos + i.n
  if i.is_null
      then ok (null, pos)
      else (do rest ← slice_from p pos; s ← format i.num rest; ok (bytes s, (pos + i.num) % 2 ^ 64))

-- The value at `pos`, and the position behind it.
pub value_at : Floats → Layout → Bool → List ℕ → ℕ → Result (Value × ℕ)
value_at F nothing unsigned p pos = ok (null, pos)
value_at F (fixed k) unsigned p pos = do
  n ← little_endian k p pos
  ok (integer_value unsigned n, pos + k)
value_at F float32 unsigned p pos = do
  n ← little_endian 4 p pos
  ok (float64 (F.from_float32 n), pos + 4)
value_at F double unsigned p pos = do n ← little_endian 8 p pos; ok (float64 n, pos + 8)
value_at F text unsigned p pos = text_at p pos
value_at F date unsigned p pos = time_at format_binary_date p pos
value_at F date_time unsigned p pos = time_at format_binary_date_time p pos
value_at F clock unsigned p pos = time_at format_binary_time p pos
value_at F unknown unsigned p pos = err unknown_type

-- `nullBitmap[(i+2)/8] & (1 << ((i+2)%8)) > 0`
null_bit : List ℕ → ℕ → Result Bool
null_bit bitmap i = do b ← index_at bitmap ((i + 2) / 8); ok (b / 2 ^ ((i + 2) % 8) % 2 == 1)

-- The loop over the fields from the `i`-th on.
parse_binary_loop : Floats → List ℕ → List ℕ → ℕ → ℕ → List Field → Result RowValue
parse_binary_loop F p bitmap i pos [] = ok []
parse_binary_loop F p bitmap i pos (f ∷ fs) = do
  is_null ← null_bit bitmap i
  (v, pos') ←
      if is_null then ok (null, pos) else value_at F (layout_of f.type) (has_unsigned_flag f) p pos
  vs ← parse_binary_loop F p bitmap (suc i) pos' fs
  ok (v ∷ vs)

-- `OK_HEADER` is 0.
pub parse_binary : Floats → List ℕ → List Field → Result RowValue
parse_binary F p fs = do
  head ← index_at p 0
  let pos = 1 + (length fs + 7 + 2) / 8
  if head == 0
      then (do bitmap ← slice p 1 pos; parse_binary_loop F p bitmap 0 pos fs)
      else err malform_packet
