-- ===== src/Sqlparser/Analyzer.antt =====
-- sqlparser/analyzer.go, `Limit.Limits` of sqlparser/ast.go and `BuildNumeric` of sqltypes/sqltypes.go.
-- A condition list or name that the code answers nil or "" for is empty.
use cm.Common.{
  ℕ, ◌+◌, ◌-◌, ◌*◌, ◌%◌, ◌^◌, String, List, [], ◌∷◌, ◌++◌, length, Bool, true, false, ◌&&◌, ◌||◌,
  none, some, codes, ltb, leb, ◌==◌, ◌=?◌, if◌then◌else◌, bad_number, unexpected_node,
  negative_limit, Result, ok, err, panic, ◌>>=◌, to_lower,
}
use cm.Sqlparser.Ast.{
  Expr, BoolExpr, ValExpr, ValExprs, SimpleTableExpr, Limit, TableName, val_expr, comparison_expr,
  str_val, num_val, val_arg, list_arg, null_val, col_name, val_tuple, subquery, binary_expr,
  unary_expr, func_expr, case_expr, no_vals, vals, nil_val, a_val, table_name, table_subquery,
  nil_limit, a_limit,
}
use cm.Sqlparser.Query.{SqlValue, numeric, string, append_int, append_uint}

-- A `TableName` by itself, as statements other than selects have it.
unfoldable pub name_of_table : TableName → List ℕ
name_of_table t = elim t.qualifier [
  | none ↦ t.name
  | some q ↦ if ltb 0 (length q) then q ++ codes "." ++ t.name else t.name
]

unfoldable pub get_table_name : SimpleTableExpr → List ℕ
get_table_name (table_name t) = name_of_table t
get_table_name (table_subquery s) = []

unfoldable pub get_col_name : Expr → List ℕ
get_col_name (val_expr (col_name c)) = to_lower c.name
get_col_name e = []

unfoldable pub is_col_name : ValExpr → Bool
is_col_name (col_name c) = true
is_col_name e = false

unfoldable pub is_value : ValExpr → Bool
is_value (str_val s) = true
is_value (num_val s) = true
is_value (val_arg s) = true
is_value e = false

unfoldable pub string_in : List ℕ → List String → Bool
string_in s [] = false
string_in s (v ∷ vs) = s =? codes v || string_in s vs

-- `AST_IN`
abbrev pub ast_in : List ℕ
ast_in = codes "in"

unfoldable pub is_in_clause : BoolExpr → Bool
is_in_clause (comparison_expr op l r) = op =? ast_in
is_in_clause e = false

unfoldable pub has_in_clause : List BoolExpr → Bool
has_in_clause [] = false
has_in_clause (e ∷ es) = is_in_clause e || has_in_clause es

unfoldable pub all_values : ValExprs → Bool
all_values no_vals = true
all_values (vals e es) = is_value e && all_values es

unfoldable pub is_simple_tuple : ValExpr → Bool
is_simple_tuple (val_tuple es) = all_values es
is_simple_tuple (list_arg s) = true
is_simple_tuple e = false

unfoldable pub digit_val : ℕ → ℕ
digit_val c =
    if leb b'0' c && leb c b'9'
    then c - b'0'
    else if leb b'a' c && leb c b'z'
    then c - b'a' + 10
    else if leb b'A' c && leb c b'Z'
    then c - b'A' + 10
    else 36

unfoldable pub digits_in : ℕ → ℕ → List ℕ → Result ℕ
digits_in base acc [] = ok acc
digits_in base acc (c ∷ cs) =
    let rest = digits_in base (acc * base + digit_val c) cs in
    if ltb (digit_val c) base then rest else err bad_number

-- The base is read off the front: `0x` for 16, another `0` for 8.
unfoldable pub any_base : List ℕ → Result ℕ
any_base [] = err bad_number
any_base (c ∷ []) = digits_in 10 0 (c ∷ [])
any_base (c ∷ d ∷ []) = digits_in (if c == b'0' then 8 else 10) 0 (c ∷ d ∷ [])
any_base (c ∷ d ∷ e ∷ cs) =
    if c == b'0' && (d == b'x' || d == b'X')
    then digits_in 16 0 (e ∷ cs)
    else digits_in (if c == b'0' then 8 else 10) 0 (c ∷ d ∷ e ∷ cs)

-- `strconv.ParseUint(s, 0, 64)`
unfoldable pub parse_uint : List ℕ → Result ℕ
parse_uint s = do n ← any_base s; if ltb n (2 ^ 64) then ok n else err bad_number

pub as_positive : Result ℕ → Result ℕ
as_positive r = do n ← r; if ltb n (2 ^ 63) then ok n else err bad_number

-- The pattern of a negative int64.
pub as_negative : Result ℕ → Result ℕ
as_negative r = do n ← r; if leb n (2 ^ 63) then ok ((2 ^ 64 - n) % 2 ^ 64) else err bad_number

-- `strconv.ParseInt(s, 0, 64)`
unfoldable pub parse_int : List ℕ → Result ℕ
parse_int [] = err bad_number
parse_int (c ∷ cs) =
    if c == b'-'
    then as_negative (parse_uint cs)
    else if c == b'+'
    then as_positive (parse_uint cs)
    else as_positive (parse_uint (c ∷ cs))

abbrev appended : (ℕ → List ℕ) → Result ℕ → Result SqlValue
appended append r = do n ← r; ok (numeric (append n))

unfoldable pub build_numeric : List ℕ → Result SqlValue
build_numeric [] = panic
build_numeric (c ∷ cs) =
    if c == b'-' || c == b'+'
    then appended append_int (parse_int (c ∷ cs))
    else appended append_uint (parse_uint (c ∷ cs))

-- What an interface of a plan holds: nothing, a bind variable's name, a value of the query, a list of
-- these, an int64, a float64 by its text, or the default of a column.
mutual
  pub data PlanValue : Type 0 where
    no_value : PlanValue
    bind_var : List ℕ → PlanValue
    sql_value : SqlValue → PlanValue
    value_list : PlanValues → PlanValue
    int64 : ℕ → PlanValue
    float64 : List ℕ → PlanValue
    default_value : List ℕ → PlanValue

  pub data PlanValues : Type 0 where
    no_values : PlanValues
    values : PlanValue → PlanValues → PlanValues

abbrev number_value : Result SqlValue → Result PlanValue
number_value r = do v ← r; ok (sql_value v)

unfoldable mutual
  pub as_interface : ValExpr → Result PlanValue
  as_interface (val_tuple es) = do vs ← as_interfaces es; ok (value_list vs)
  as_interface (val_arg s) = ok (bind_var s)
  as_interface (list_arg s) = ok (bind_var s)
  as_interface (str_val s) = ok (sql_value (string s))
  as_interface (num_val s) = number_value (build_numeric s)
  as_interface null_val = ok no_value
  as_interface (col_name c) = err unexpected_node
  as_interface (subquery s) = err unexpected_node
  as_interface (binary_expr op l r) = err unexpected_node
  as_interface (unary_expr op e) = err unexpected_node
  as_interface (func_expr name distinct es) = err unexpected_node
  as_interface (case_expr e ws otherwise) = err unexpected_node

  pub as_interfaces : ValExprs → Result PlanValues
  as_interfaces no_vals = ok no_values
  as_interfaces (vals e es) = do v ← as_interface e; vs ← as_interfaces es; ok (values v vs)

-- The number of a LIMIT clause.
not_negative : Result ℕ → Result PlanValue
not_negative r = do n ← r; if leb (2 ^ 63) n then err negative_limit else ok (int64 n)

pub limit_value : ValExpr → Result PlanValue
limit_value (num_val s) = not_negative (parse_int s)
limit_value (val_arg s) = ok (bind_var s)
limit_value e = err unexpected_node

-- `Limits`: the offset and the row count.
unfoldable pub limits : Limit → Result (PlanValue × PlanValue)
limits nil_limit = ok (no_value, no_value)
limits (a_limit nil_val rowcount) = do rc ← limit_value rowcount; ok (no_value, rc)
limits (a_limit (a_val offset) rowcount) = do
  o ← limit_value offset
  rc ← limit_value rowcount
  ok (o, rc)
