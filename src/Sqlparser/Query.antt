-- ===== src/Sqlparser/Query.antt =====
-- sqlparser/parsed_query.go, and `BuildValue` of sqltypes/sqltypes.go: the query text with the bind
-- variables put in. An integer is its 64-bit pattern; a float64 is the text that `strconv.AppendFloat`
-- gives and a time.Time the text that its `Format` gives.
pub mod Splice
mod Checks
use cm.Common.{
  ℕ, zero, suc, ◌+◌, ◌-◌, ◌/◌, ◌%◌, ◌^◌, String, List, [], ◌∷◌, ◌++◌, length, Bool, true, false,
  Option, none, some, codes, ltb, leb, ◌==◌, if◌then◌else◌, not, ◌&&◌, Error, missing_bind_var,
  unexpected_list, empty_list, unexpected_arg, unsupported_type, no_rows, column_count, Result, ok,
  err, panic, ◌>>=◌, index_at, slice, slice_from,
}
use cm.Sqltypes.Escape.{encode_sql}
use cm.Sqlparser.Tracked.{BindLocation, ParsedQuery}

-- `sqltypes.Value`
pub data SqlValue : Type 0 where
  null : SqlValue
  numeric fractional string : List ℕ → SqlValue

unfoldable pub encode_sql_value : SqlValue → List ℕ
encode_sql_value null = codes "null"
encode_sql_value (numeric s) = s
encode_sql_value (fractional s) = s
encode_sql_value (string s) = encode_sql s

-- The dynamic type of a bind variable, and its value.
mutual
  pub data BindValue : Type 0 where
    nil : BindValue
    int64 uint64 : ℕ → BindValue
    float64 bytes time : List ℕ → BindValue
    value : SqlValue → BindValue
    sql_values : List SqlValue → BindValue
    sql_rows : List (List SqlValue) → BindValue
    list : BindValues → BindValue
    tuple_equality : List (List ℕ) → List (List SqlValue) → BindValue
    unsupported : BindValue

  pub data BindValues : Type 0 where
    no_values : BindValues
    values : BindValue → BindValues → BindValues

-- The digits of a number in front of `s`: `fuel` is more than the number has.
unfoldable pub decimal_loop : ℕ → ℕ → List ℕ → List ℕ
decimal_loop zero n s = s
decimal_loop (suc fuel) n s =
    let s' = (b'0' + n % 10) ∷ s in
    let rest = decimal_loop fuel (n / 10) s' in if ltb n 10 then s' else rest

-- `strconv.AppendUint(nil, n, 10)`: a uint64 has 20 digits at most.
unfoldable pub append_uint : ℕ → List ℕ
append_uint n = decimal_loop 20 n []

-- `strconv.AppendInt(nil, n, 10)`
unfoldable pub append_int : ℕ → List ℕ
append_int n = if leb (2 ^ 63) n then b'-' ∷ append_uint (2 ^ 64 - n) else append_uint n

pub build_value : BindValue → Result SqlValue
build_value nil = ok null
build_value (int64 n) = ok (numeric (append_int n))
build_value (uint64 n) = ok (numeric (append_uint n))
build_value (float64 s) = ok (fractional s)
build_value (bytes s) = ok (string s)
build_value (time s) = ok (string s)
build_value (value v) = ok v
build_value (sql_values vs) = err unsupported_type
build_value (sql_rows rs) = err unsupported_type
build_value (list vs) = err unsupported_type
build_value (tuple_equality cs rs) = err unsupported_type
build_value unsupported = err unsupported_type

-- The loop of `EncodeValue` over `[]sqltypes.Value`.
encode_row : String → List SqlValue → List ℕ
encode_row prefix [] = []
encode_row prefix (v ∷ vs) = codes prefix ++ encode_sql_value v ++ encode_row ", " vs

encode_rows : String → List (List SqlValue) → List ℕ
encode_rows prefix [] = []
encode_rows prefix (r ∷ rs) =
    codes prefix ++ codes "(" ++ encode_row "" r ++ codes ")" ++ encode_rows ", " rs

-- The rows of `encodeAsIN`.
encode_as_in : String → List (List SqlValue) → Result (List ℕ)
encode_as_in prefix [] = ok []
encode_as_in prefix ([] ∷ rs) = err column_count
encode_as_in prefix ((v ∷ []) ∷ rs) = do
  rest ← encode_as_in ", " rs
  ok (codes prefix ++ encode_sql_value v ++ rest)
encode_as_in prefix ((v ∷ w ∷ r) ∷ rs) = err column_count

-- The columns of one row of `encodeAsEquality`: `r[j]` panics behind the row's end.
encode_equalities : String → List (List ℕ) → List SqlValue → Result (List ℕ)
encode_equalities prefix [] r = ok []
encode_equalities prefix (c ∷ cs) [] = panic
encode_equalities prefix (c ∷ cs) (v ∷ r) = do
  rest ← encode_equalities " and " cs r
  ok (codes prefix ++ c ++ codes " = " ++ encode_sql_value v ++ rest)

encode_as_equality : String → List (List ℕ) → List (List SqlValue) → Result (List ℕ)
encode_as_equality prefix cs [] = ok []
encode_as_equality prefix cs (r ∷ rs) = do
  row ← encode_equalities "" cs r
  rest ← encode_as_equality " or " cs rs
  ok (codes prefix ++ codes "(" ++ row ++ codes ")" ++ rest)

-- `TupleEqualityList.Encode`
encode_tuples : List (List ℕ) → List (List SqlValue) → Result (List ℕ)
encode_tuples cs [] = err no_rows
encode_tuples (c ∷ []) (r ∷ rs) = do
  rest ← encode_as_in "" (r ∷ rs)
  ok (c ++ codes " in (" ++ rest ++ codes ")")
encode_tuples [] (r ∷ rs) = encode_as_equality "" [] (r ∷ rs)
encode_tuples (c ∷ d ∷ cs) (r ∷ rs) = encode_as_equality "" (c ∷ d ∷ cs) (r ∷ rs)

abbrev built : BindValue → Result (List ℕ)
built v = do b ← build_value v; ok (encode_sql_value b)

mutual
  pub encode_value : BindValue → Result (List ℕ)
  encode_value nil = ok (codes "null")
  encode_value (sql_values vs) = ok (encode_row "" vs)
  encode_value (sql_rows rs) = ok (encode_rows "" rs)
  encode_value (list vs) = do s ← encode_values "" vs; ok (codes "(" ++ s ++ codes ")")
  encode_value (tuple_equality cs rs) = encode_tuples cs rs
  encode_value (int64 n) = built (int64 n)
  encode_value (uint64 n) = built (uint64 n)
  encode_value (float64 s) = built (float64 s)
  encode_value (bytes s) = built (bytes s)
  encode_value (time s) = built (time s)
  encode_value (value v) = built (value v)
  encode_value unsupported = built unsupported

  pub encode_values : String → BindValues → Result (List ℕ)
  encode_values prefix no_values = ok []
  encode_values prefix (values v vs) = do
    s ← encode_value v
    rest ← encode_values ", " vs
    ok (codes prefix ++ s ++ rest)

abbrev pub BindVars : Type 0
BindVars = List ℕ → Option BindValue

-- What is supplied for a name, where a list is wanted and where it is not.
pub fetch_list : Option BindValue → Result BindValue
fetch_list none = err missing_bind_var
fetch_list (some (list no_values)) = err empty_list
fetch_list (some (list (values v vs))) = ok (list (values v vs))
fetch_list (some v) = err unexpected_list

pub fetch_plain : Option BindValue → Result BindValue
fetch_plain none = err missing_bind_var
fetch_plain (some (list vs)) = err unexpected_arg
fetch_plain (some v) = ok v

-- The name has one colon in front, or two for a list; one that is too short is sliced out of range.
pub fetch_bind_var : List ℕ → BindVars → Result BindValue
fetch_bind_var [] vars = panic
fetch_bind_var (c ∷ []) vars = panic
fetch_bind_var (c ∷ d ∷ name) vars =
    if d == b':' then fetch_list (vars name) else fetch_plain (vars (d ∷ name))

pub generate_loop : List ℕ → BindVars → ℕ → List BindLocation → Result (List ℕ)
generate_loop query vars current [] = slice_from query current
generate_loop query vars current (loc ∷ locs) = do
  before ← slice query current loc.offset
  name ← slice query loc.offset (loc.offset + loc.len)
  supplied ← fetch_bind_var name vars
  s ← encode_value supplied
  rest ← generate_loop query vars (loc.offset + loc.len) locs
  ok (before ++ s ++ rest)

pub generate_query : ParsedQuery → BindVars → Result (List ℕ)
generate_query pq vars =
    if length pq.bind_locations == 0
    then ok pq.query
    else generate_loop pq.query vars 0 pq.bind_locations
