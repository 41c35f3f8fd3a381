-- ===== src/Vt/Planbuilder/Insert/Checks.antt =====
-- Runs of the key of an INSERT, and the theorems at one of two rows.
use cm.Common.{
  ℕ, ◌≡◌, refl, false, String, List, [], ◌∷◌, Option, none, some, codes, ok, ◌=?◌, to_lower,
}
use cm.Sqlparser.Ast.{
  SelectExpr, SelectExprs, RowTuple, selects, no_selects, non_star_expr, val_expr, col_name,
  num_val, row_tuple, vals, no_vals,
}
use cm.Sqlparser.Query.{numeric, append_uint, decimal_loop}
use cm.Sqlparser.Analyzer.{
  PlanValue, sql_value, value_list, values, no_values, default_value, get_col_name, is_value,
  as_interface, build_numeric, parse_uint, any_base, digits_in, digit_val,
}
use cm.Vt.Schema.{Index, Table, TableColumn, cache_rw, find_column, position, get_pk_column}
use cm.Vt.Planbuilder.IndexAnalysis.{zeros, put_at}
use cm.Vt.Planbuilder.Insert.{
  get_insert_pk_columns, number_columns, place, get_insert_pk_values, key_value, values_of_rows,
  value_of_row, value_at, one_or_list, default_of,
}
use cm.Vt.Planbuilder.Insert.Numbers.{NumbersOf, get_insert_pk_columns-NumbersOf}
use cm.Vt.Planbuilder.Insert.Given.{KeysGiven, get_insert_pk_values-KeysGiven}

abbrev name_of : String → SelectExpr
name_of s = non_star_expr (val_expr (col_name (record { name = codes s; qualifier = none }))) none

-- (c, A)
abbrev rest_of_columns : SelectExprs
rest_of_columns = selects (name_of "A") no_selects

abbrev key : Index
key = record {
  name = codes "PRIMARY";
  columns = codes "a" ∷ codes "b" ∷ [];
  cardinality = 3 ∷ 5 ∷ [];
  data_columns = [];
}

abbrev column : String → Option (List ℕ) → TableColumn
column s default = record {
  name = codes s;
  sql_type = 3;
  is_auto = false;
  default_value = default;
  collation = [];
  is_unsigned = false;
}

abbrev table : Table
table = record {
  name = codes "t";
  columns = column "a" none ∷ column "b" (some (codes "0")) ∷ column "c" none ∷ [];
  indexes = key ∷ [];
  pk_columns = 0 ∷ 1 ∷ [];
  cache_type = cache_rw;
}

numbers_found :
    get_insert_pk_columns (selects (name_of "c") rest_of_columns) table key
    ≡ ok (some 1 ∷ none ∷ [])
unfolding get_insert_pk_columns number_columns place zeros put_at find_column position get_col_name
    to_lower ◌=?◌
numbers_found = refl

get_insert_pk_columns-NumbersOf_example :
    NumbersOf (selects (name_of "c") rest_of_columns) key 0 key.columns (some 1 ∷ none ∷ [])
get_insert_pk_columns-NumbersOf_example =
    get_insert_pk_columns-NumbersOf (name_of "c") rest_of_columns table key (some 1 ∷ none ∷ [])
      numbers_found

abbrev rows : List RowTuple
rows =
    row_tuple (vals (num_val (codes "9")) (vals (num_val (codes "1")) no_vals))
    ∷ row_tuple (vals (num_val (codes "9")) (vals (num_val (codes "2")) no_vals))
    ∷ []

abbrev one_and_two : PlanValue
one_and_two =
    value_list (
      values (sql_value (numeric (codes "1"))) (values (sql_value (numeric (codes "2"))) no_values))

values_found :
    get_insert_pk_values 0 (some 1 ∷ none ∷ []) rows table
    ≡ ok (some (one_and_two ∷ default_value (codes "0") ∷ []))
unfolding get_insert_pk_values key_value values_of_rows value_of_row value_at one_or_list default_of
    get_pk_column is_value as_interface build_numeric parse_uint any_base digits_in digit_val
    append_uint decimal_loop
values_found = refl

get_insert_pk_values-KeysGiven_example :
    KeysGiven table rows 0 (some 1 ∷ none ∷ []) (one_and_two ∷ default_value (codes "0") ∷ [])
get_insert_pk_values-KeysGiven_example =
    get_insert_pk_values-KeysGiven (some 1 ∷ none ∷ []) rows table
      (one_and_two ∷ default_value (codes "0") ∷ []) values_found
