-- ===== src/Proxy/Cache/Keys.antt =====
-- proxy/conn_query.go: the keys of the row cache, and the query that fills it. `log.Fatal` and a type
-- assertion that fails end the statement: a panic.
pub mod Unique
use cm.Common.{
  ℕ, zero, suc, ◌+◌, ◌-◌, ◌%◌, List, [], ◌∷◌, ◌++◌, length, Bool, true, false, not, codes, ltb,
  ◌==◌, if◌then◌else◌, column_count, Result, ok, err, panic, ◌>>=◌, index_at,
}
use cm.Sqlparser.Query.{SqlValue, null, numeric, fractional, string, encode_sql_value}
use cm.Sqlparser.Analyzer.{
  PlanValue, PlanValues, sql_value, value_list, no_value, bind_var, int64, float64, default_value,
  no_values, values,
}
use cm.Vt.Schema.{Table, TableColumn}

-- `Value.String`
unfoldable pub value_string : SqlValue → List ℕ
value_string null = []
value_string (numeric s) = s
value_string (fractional s) = s
value_string (string s) = s

-- `strings.Replace(s, " ", "_", -1)`
unfoldable pub underscored : List ℕ → List ℕ
underscored [] = []
underscored (c ∷ cs) = (if c == b' ' then b'_' else c) ∷ underscored cs

-- A value's part of a key.
unfoldable pub key_part : SqlValue → List ℕ
key_part v = value_string v ++ codes "--"

-- The parts of a list of values.
unfoldable pub list_parts : PlanValues → Result (List ℕ)
list_parts no_values = ok []
list_parts (values (sql_value v) vs) = do rest ← list_parts vs; ok (key_part v ++ rest)
list_parts (values v vs) = panic

-- What the `i`-th value adds to the key.
unfoldable pub parts_of : PlanValue → Result (List ℕ)
parts_of (sql_value v) = ok (key_part v)
parts_of (value_list vs) = list_parts vs
parts_of no_value = panic
parts_of (bind_var s) = panic
parts_of (int64 n) = panic
parts_of (float64 s) = panic
parts_of (default_value s) = panic

-- The loop over the values from the `i`-th on, where `acc` is the key so far: each value that ends a
-- primary key of `n` columns closes it.
unfoldable pub keys_loop : ℕ → ℕ → List ℕ → List PlanValue → Result (List (List ℕ))
keys_loop n i acc [] = ok []
keys_loop n i acc (v ∷ vs) = do
  part ← parts_of v
  let key = acc ++ part
  let closes = i % n == n - 1
  if n == 0 then panic else (do
    rest ← keys_loop n (suc i) (if closes then [] else key) vs
    ok (if closes then underscored key ∷ rest else rest))

unfoldable pub pk_values_to_strings : List ℕ → List PlanValue → Result (List (List ℕ))
pk_values_to_strings pk_columns vs = keys_loop (length pk_columns) 0 [] vs

-- `plan.PKValues[i].(sqltypes.Value)`
unfoldable pub as_sql_value : PlanValue → Result SqlValue
as_sql_value (sql_value v) = ok v
as_sql_value (value_list vs) = panic
as_sql_value no_value = panic
as_sql_value (bind_var s) = panic
as_sql_value (int64 n) = panic
as_sql_value (float64 s) = panic
as_sql_value (default_value s) = panic

unfoldable pub pk_conditions : List ℕ → List TableColumn → List PlanValue → Result (List ℕ)
pk_conditions [] columns vs = ok []
pk_conditions (i ∷ is) columns [] = panic
pk_conditions (i ∷ is) columns (v ∷ vs) = do
  c ← index_at columns i
  value ← as_sql_value v
  rest ← pk_conditions is columns vs
  ok (
      c.name
      ++ codes "="
      ++ encode_sql_value value
      ++ (if ltb 0 (length is) then codes " and " else [])
      ++ rest)

unfoldable pub generate_select_sql : Table → List PlanValue → Result (List ℕ)
generate_select_sql ta vs =
    if not (length ta.pk_columns == length vs) then err column_count else (do
      conditions ← pk_conditions ta.pk_columns ta.columns vs
      ok (codes "select * from " ++ ta.name ++ codes " where " ++ conditions ++ codes ";"))
