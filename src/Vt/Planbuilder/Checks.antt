-- ===== src/Vt/Planbuilder/Checks.antt =====
-- Runs of the planner on a table with a key of two columns, and its theorems there.
use cm.Common.{
  subst, ℕ, ◌≡◌, ◌≤◌, refl, arith, String, List, [], ◌∷◌, get_elem?, Bool, true, false, not, none,
  some, codes, ◌=?◌, if◌then◌else◌, ok,
}
use cm.Sqlparser.Ast.{
  Delete, Update, UpdateExpr, delete, update, Select, BoolExpr, ValExpr, col_name, num_val,
  comparison_expr, and_expr, paren_bool_expr, star_expr, selects, no_selects, tables, no_tables,
  aliased_table_expr, table_name, a_where, nil_where, no_vals, no_orders, nil_limit, val_tuple,
  vals,
}
use cm.Sqlparser.Keywords.{is_keyword, listed}
use cm.Sqlparser.Format.{
  format_select, format_select_expr, format_table_name, format_qualified, format_name, format_as,
  format_hints,
}
use cm.Sqlparser.Tracked.{run}
use cm.Sqlparser.Query.{numeric, append_uint, decimal_loop}
use cm.Sqlparser.Analyzer.{
  PlanValue, sql_value, value_list, values, no_values, string_in, is_col_name, is_value,
  is_simple_tuple, all_values, has_in_clause, is_in_clause, as_interface, build_numeric, parse_uint,
  any_base, digits_in, digit_val, get_col_name, get_table_name, name_of_table, limits,
}
use cm.Vt.Schema.{Table, TableColumn, Index, cache_rw, find_column, position}
use cm.Vt.Planbuilder.{ExecPlan, TableGetter, plan_pk_in, plan_dml_pk, new_plan}
use cm.Vt.Planbuilder.Where.{analyze_boolean, analyze_comparison, join_conditions, analyze_where}
use cm.Vt.Planbuilder.Where.Meaning.{
  holds, all_hold, analyze_boolean-holds, in_clauses, in_clauses-analyze_boolean, is_column_test,
  analyze_boolean-is_column_test,
}
use cm.Vt.Planbuilder.IndexAnalysis.{
  get_pk_values, pk_loop, on_match, if_perfect, get_score, score_from, find_match, new_index_score,
  zeros, put_at, column_of,
}
use cm.Vt.Planbuilder.IndexAnalysis.PkValues.{GivesKey, Some, get_pk_values-GivesKey}
use cm.Vt.Planbuilder.QueryGen.{
  generate_field_query, generate_full_query, generate_delete_outer_query,
  generate_update_outer_query,
}
use cm.Vt.Planbuilder.Dml.{
  analyze_delete, analyze_update, analyze_update_expressions, dml_plan, with_dml_table, if_primary,
  primary_of, with_delete, with_update, by_key, key_of_where,
}
use cm.Vt.Planbuilder.Dml.Given.{KeyFrom, IsCounted}
use cm.Vt.Planbuilder.Dml.Keys.{analyze_delete-KeyFrom, analyze_update-KeyFrom}
use cm.Common.{to_lower}
use cm.Vt.Planbuilder.Select.{
  analyze_select, analyze_from, improve, with_columns, with_conditions, with_primary,
  with_pk_values, is_plain, is_cached, has_orders, has_vals, has_where, is_some, is_nil,
  analyze_select_exprs, onto_columns, counted,
}
use cm.Vt.Planbuilder.Select.PkIn.{Improved, analyze_select-pk_in}

abbrev named : String → ValExpr
named s = col_name (record { name = codes s; qualifier = none })

-- (a = 1) and b in (2)
abbrev a_is_1 : BoolExpr
a_is_1 = comparison_expr (codes "=") (named "a") (num_val (codes "1"))

abbrev b_in_2 : BoolExpr
b_in_2 = comparison_expr (codes "in") (named "b") (val_tuple (vals (num_val (codes "2")) no_vals))

abbrev both : BoolExpr
both = and_expr (paren_bool_expr a_is_1) b_in_2

abbrev primary : Index
primary = record {
  name = codes "PRIMARY";
  columns = codes "a" ∷ codes "b" ∷ [];
  cardinality = 3 ∷ 5 ∷ [];
  data_columns = [];
}

abbrev column : String → TableColumn
column s = record {
  name = codes s;
  sql_type = 3;
  is_auto = false;
  default_value = none;
  collation = [];
  is_unsigned = false;
}

abbrev cached : Table
cached = record {
  name = codes "t";
  columns = column "a" ∷ column "b" ∷ column "c" ∷ [];
  indexes = primary ∷ [];
  pk_columns = 0 ∷ 1 ∷ [];
  cache_type = cache_rw;
}

abbrev one_table : TableGetter
one_table name = if name =? codes "t" then some cached else none

abbrev by_both : Select
by_both = record {
  comments = [];
  distinct = [];
  select_exprs = selects (star_expr none) no_selects;
  from =
      tables
        (aliased_table_expr (table_name (record { name = codes "t"; qualifier = none })) none none)
        no_tables;
  where_clause = a_where (codes "where") both;
  group_by = no_vals;
  having = nil_where;
  order_by = no_orders;
  limit = nil_limit;
  lock = [];
}

conditions_of_both : analyze_boolean both ≡ a_is_1 ∷ b_in_2 ∷ []
unfolding analyze_boolean analyze_comparison join_conditions string_in is_col_name is_value
    is_simple_tuple all_values has_in_clause is_in_clause ◌=?◌
conditions_of_both = refl

-- A row with a = 1 and b = 3.
abbrev row : BoolExpr → Bool
row e = not (is_in_clause e)

analyze_boolean-holds_example : holds row both ≡ all_hold row (analyze_boolean both)
analyze_boolean-holds_example = analyze_boolean-holds row both (λ e. cc (e, conditions_of_both))

in_clauses-analyze_boolean_example : in_clauses (analyze_boolean both) ≤ 1
in_clauses-analyze_boolean_example = in_clauses-analyze_boolean both

analyze_boolean-is_column_test_example : all_hold is_column_test (analyze_boolean both) ≡ true
analyze_boolean-is_column_test_example = analyze_boolean-is_column_test both

abbrev one : PlanValue
one = sql_value (numeric (codes "1"))

abbrev two : PlanValue
two = value_list (values (sql_value (numeric (codes "2"))) no_values)

key_of_both : get_pk_values (a_is_1 ∷ b_in_2 ∷ []) primary ≡ ok (some (one ∷ two ∷ []))
unfolding get_pk_values pk_loop on_match if_perfect get_score score_from find_match new_index_score
    zeros put_at find_column position string_in column_of as_interface build_numeric parse_uint
    any_base digits_in digit_val append_uint decimal_loop ◌=?◌
key_of_both = refl

get_pk_values-GivesKey_example :
    (v : PlanValue) × (get_elem? (one ∷ two ∷ []) 1 ≡ some v)
    × Some (GivesKey primary 1 v) (a_is_1 ∷ b_in_2 ∷ [])
get_pk_values-GivesKey_example =
    get_pk_values-GivesKey (a_is_1 ∷ b_in_2 ∷ []) primary (one ∷ two ∷ []) 1
      (omega arith, (omega arith, tt)) (omega arith) key_of_both

abbrev key_plan : ExecPlan
key_plan = record (new_plan plan_pk_in) {
  table_name = codes "t";
  field_query = some (record { query = codes "select * from t where 1 != 1"; bind_locations = [] });
  index_used = codes "PRIMARY";
  column_numbers = some (0 ∷ 1 ∷ 2 ∷ []);
  pk_values = some (one ∷ two ∷ []);
}

planned : analyze_select by_both one_table ≡ ok key_plan
unfolding analyze_select analyze_from improve with_columns with_conditions with_primary
    with_pk_values is_plain is_cached has_orders has_vals has_where is_some is_nil
    analyze_select_exprs onto_columns counted get_table_name name_of_table generate_field_query run
    format_select format_select_expr format_table_name format_qualified format_name format_as
    format_hints is_keyword listed limits analyze_where analyze_boolean analyze_comparison
    join_conditions string_in is_col_name is_value is_simple_tuple all_values has_in_clause
    is_in_clause get_pk_values pk_loop on_match if_perfect get_score score_from find_match
    new_index_score zeros put_at find_column position column_of as_interface build_numeric
    parse_uint any_base digits_in digit_val append_uint decimal_loop ◌=?◌
planned = refl

analyze_select-pk_in_example :
    (name : List ℕ) × (has_hints : Bool) × (analyze_from by_both.from ≡ ok (name, has_hints))
    × ((ta : Table) × (one_table name ≡ some ta) × Improved by_both ta key_plan)
analyze_select-pk_in_example = analyze_select-pk_in by_both one_table key_plan planned refl

abbrev delete_both : Delete
delete_both = record {
  comments = [];
  table = record { name = codes "t"; qualifier = none };
  where_clause = a_where (codes "where") both;
  order_by = no_orders;
  limit = nil_limit;
}

abbrev set_c : UpdateExpr
set_c = record { name = record { name = codes "c"; qualifier = none }; expr = num_val (codes "9") }

abbrev update_both : Update
update_both = record {
  comments = [];
  table = record { name = codes "t"; qualifier = none };
  exprs = set_c ∷ [];
  where_clause = a_where (codes "where") both;
  order_by = no_orders;
  limit = nil_limit;
}

abbrev delete_plan : ExecPlan
delete_plan = record (new_plan plan_dml_pk) {
  table_name = codes "t";
  full_query = some (generate_full_query (delete delete_both));
  outer_query = some (generate_delete_outer_query delete_both);
  pk_values = some (one ∷ two ∷ []);
}

abbrev update_plan : ExecPlan
update_plan = record (new_plan plan_dml_pk) {
  table_name = codes "t";
  full_query = some (generate_full_query (update update_both));
  outer_query = some (generate_update_outer_query update_both);
  pk_values = some (one ∷ two ∷ []);
}

deletes : analyze_delete delete_both one_table ≡ ok delete_plan
unfolding analyze_delete dml_plan with_dml_table if_primary primary_of with_delete by_key
    key_of_where name_of_table analyze_where analyze_boolean analyze_comparison join_conditions
    string_in is_col_name is_value is_simple_tuple all_values has_in_clause is_in_clause
    get_pk_values pk_loop on_match if_perfect get_score score_from find_match new_index_score zeros
    put_at find_column position column_of as_interface build_numeric parse_uint any_base digits_in
    digit_val append_uint decimal_loop ◌=?◌
deletes = refl

updates : analyze_update update_both one_table ≡ ok update_plan
unfolding analyze_update dml_plan with_dml_table if_primary primary_of with_update by_key
    key_of_where analyze_update_expressions get_col_name to_lower name_of_table analyze_where
    analyze_boolean analyze_comparison join_conditions string_in is_col_name is_value
    is_simple_tuple all_values has_in_clause is_in_clause get_pk_values pk_loop on_match if_perfect
    get_score score_from find_match new_index_score zeros put_at find_column position column_of
    as_interface build_numeric parse_uint any_base digits_in digit_val append_uint decimal_loop ◌=?◌
updates = refl

one_table-IsCounted : (ta : Table) → one_table (codes "t") ≡ some ta → IsCounted ta
unfolding ◌=?◌
one_table-IsCounted ta e =
    let same : cached ≡ ta = cc e in subst IsCounted (same) ((omega arith, (omega arith, tt)), tt)

analyze_delete-KeyFrom_example :
    KeyFrom one_table (name_of_table delete_both.table) row delete_both.where_clause delete_plan
unfolding name_of_table
analyze_delete-KeyFrom_example =
    analyze_delete-KeyFrom delete_both one_table row delete_plan one_table-IsCounted deletes refl

analyze_update-KeyFrom_example :
    KeyFrom one_table (name_of_table update_both.table) row update_both.where_clause update_plan
unfolding name_of_table
analyze_update-KeyFrom_example =
    analyze_update-KeyFrom update_both one_table row update_plan one_table-IsCounted updates refl

-- a = 1 and a = 2: the last value stands for the column.
takes_last :
    get_pk_values
      (a_is_1 ∷ comparison_expr (codes "=") (named "a") (num_val (codes "2")) ∷ b_in_2 ∷ [])
      primary
    ≡ ok (some (sql_value (numeric (codes "2")) ∷ two ∷ []))
unfolding get_pk_values pk_loop on_match if_perfect get_score score_from find_match new_index_score
    zeros put_at find_column position string_in column_of as_interface build_numeric parse_uint
    any_base digits_in digit_val append_uint decimal_loop ◌=?◌
takes_last = refl
