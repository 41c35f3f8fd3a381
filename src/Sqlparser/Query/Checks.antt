-- ===== src/Sqlparser/Query/Checks.antt =====
-- Runs of the queries with bind variables, and their theorem at a select with two arguments.
use cm.Common.{◌≡◌, refl, List, [], false, none, some, codes, ◌=?◌, if◌then◌else◌, ok}
use cm.Sqlparser.Ast.{
  Select, select_node, col_name, val_arg, list_arg, comparison_expr, and_expr, non_star_expr,
  val_expr, selects, no_selects, tables, no_tables, aliased_table_expr, table_name, a_where,
  nil_where, no_vals, no_orders, nil_limit,
}
use cm.Sqlparser.Keywords.{is_keyword, listed}
use cm.Sqlparser.Format.{
  Write, format_select, format_name, format_col_name, format_table_name, format_qualified,
  format_as, format_comments, format_hints,
}
use cm.Sqlparser.Tracked.{query_of}
use cm.Sqlparser.Query.{
  BindVars, int64, bytes, list, values, no_values, fetch_bind_var, fetch_list, fetch_plain,
  encode_value, build_value, append_int, append_uint, decimal_loop, encode_sql_value,
  generate_query,
}
use cm.Sqlparser.Query.Splice.{substitute, generate_query-substitute}
use cm.Sqltypes.Escape.{encode_sql, escape, sql_encode_map}

-- select `key` from t where id in ::ids and name = :n
abbrev two_arguments : Select
two_arguments = record {
  comments = [];
  distinct = [];
  select_exprs =
      selects
        (non_star_expr (val_expr (col_name (record { name = codes "key"; qualifier = none }))) none)
        no_selects;
  from =
      tables
        (aliased_table_expr (table_name (record { name = codes "t"; qualifier = none })) none none)
        no_tables;
  where_clause = a_where (codes "where") (
      and_expr
        (comparison_expr (codes "in") (col_name (record { name = codes "id"; qualifier = none }))
          (list_arg (codes "::ids")))
        (comparison_expr (codes "=") (col_name (record { name = codes "n"; qualifier = none }))
          (val_arg (codes ":n"))));
  group_by = no_vals;
  having = nil_where;
  order_by = no_orders;
  limit = nil_limit;
  lock = [];
}

abbrev supplied : BindVars
supplied name =
    if name =? codes "ids"
    then some (list (values (int64 7) (values (int64 12) no_values)))
    else if name =? codes "n"
    then some (bytes (codes "x'y"))
    else none

abbrev writes : List Write
writes = format_select false (select_node two_arguments)

generate_query-substitute_example :
    generate_query (query_of writes) supplied ≡ substitute writes supplied
generate_query-substitute_example = generate_query-substitute writes supplied

substituted :
    substitute writes supplied
    ≡ ok (codes "select `key` from t where id in (7, 12) and n = 'x\\'y'")
unfolding substitute format_select fetch_bind_var fetch_list fetch_plain encode_value build_value
    append_int append_uint decimal_loop encode_sql_value encode_sql escape sql_encode_map
    format_name format_col_name format_table_name format_qualified format_as format_comments
    format_hints is_keyword listed ◌=?◌
substituted = refl
