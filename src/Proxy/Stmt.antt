-- ===== src/Proxy/Stmt.antt =====
-- proxy/conn_stmt.go: the arguments of a prepared statement. `paramValues[pos:pos+k]` is inside of the
-- values where their length has been tested. An integer is kept as the pattern of its bytes.
mod Checks
use cm.Common.{
  ℕ, zero, suc, ◌+◌, ◌*◌, ◌/◌, ◌%◌, ◌^◌, List, [], ◌∷◌, length, Bool, true, false, ltb, ◌==◌,
  if◌then◌else◌, malform_packet, unknown_type, Result, ok, err, ◌>>=◌, index_at, slice_from,
}
use cm.Mysql.LenEnc.{little_endian, length_enoded_string}
use cm.Mysql.Field.{bytes_of}
use cm.Mysql.Resultset.Binary.{
  Layout, fixed, nothing, float32, double, text, date, date_time, clock, unknown, layout_of,
}

-- An argument: the bytes of an integer and its pattern, the bits of a number, or a text.
data Arg : Type 0 where
  null : Arg
  unsigned signed : ℕ → ℕ → Arg
  floating : ℕ → ℕ → Arg
  bytes : List ℕ → Arg

integer_arg : Bool → ℕ → ℕ → Arg
integer_arg true k n = unsigned k n
integer_arg false k n = signed k n

-- As many bytes as the values have from `pos` on, or an error.
number_at : (ℕ → Arg) → ℕ → List ℕ → ℕ → Result (Arg × ℕ)
number_at make k values pos =
    if ltb (length values) (pos + k)
    then err malform_packet
    else little_endian k values pos >>= λ n. ok (make n, pos + k)

text_arg : List ℕ → ℕ → Result (Arg × ℕ)
text_arg values pos = if ltb (length values) (pos + 1) then err malform_packet else (do
  rest ← slice_from values pos
  s ← length_enoded_string rest
  ok (if s.is_null then null else bytes (bytes_of s.str), pos + s.n))

-- Dates and times are texts here.
arg_at : Layout → Bool → List ℕ → ℕ → Result (Arg × ℕ)
arg_at nothing sign values pos = ok (null, pos)
arg_at (fixed k) sign values pos = number_at (integer_arg sign k) k values pos
arg_at float32 sign values pos = number_at (floating 4) 4 values pos
arg_at double sign values pos = number_at (floating 8) 8 values pos
arg_at text sign values pos = text_arg values pos
arg_at date sign values pos = text_arg values pos
arg_at date_time sign values pos = text_arg values pos
arg_at clock sign values pos = text_arg values pos
arg_at unknown sign values pos = err unknown_type

-- `nullBitmap[i>>3]&(1<<(uint(i)%8)) > 0`
null_param : List ℕ → ℕ → Result Bool
null_param bitmap i = do b ← index_at bitmap (i / 8); ok (b / 2 ^ (i % 8) % 2 == 1)

-- The argument of the `i`-th parameter, and the position behind it.
param_at : List ℕ → List ℕ → List ℕ → ℕ → ℕ → Result (Arg × ℕ)
param_at bitmap types values i pos = do
  is_null ← null_param bitmap i
  if is_null then ok (null, pos) else (do
    tp ← index_at types (2 * i)
    sign ← index_at types (2 * i + 1)
    arg_at (layout_of tp) (sign / 128 % 2 == 1) values pos)

-- The loop over as many parameters as are left, of which the first is the `i`-th.
bind_loop : ℕ → List ℕ → List ℕ → List ℕ → ℕ → ℕ → Result (List Arg)
bind_loop zero bitmap types values i pos = ok []
bind_loop (suc left) bitmap types values i pos = do
  (a, pos') ← param_at bitmap types values i pos
  rest ← bind_loop left bitmap types values (suc i) pos'
  ok (a ∷ rest)

bind_stmt_args : ℕ → List ℕ → List ℕ → List ℕ → Result (List Arg)
bind_stmt_args params bitmap types values = bind_loop params bitmap types values 0 0
