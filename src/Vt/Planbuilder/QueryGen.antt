-- ===== src/Vt/Planbuilder/QueryGen.antt =====
-- vt/tabletserver/planbuilder/query_gen.go: the queries of the plans.
use cm.Common.{
  ℕ, String, List, [], ◌∷◌, ◌++◌, Bool, true, false, Option, none, some, codes, if◌then◌else◌,
  Result, ok, panic, ◌>>=◌,
}
use cm.Sqlparser.Ast.{
  TableExpr, TableExprs, Where, OrderBy, Limit, SelectStatement, Select, Insert, Update, Delete,
  Statement, aliased_table_expr, paren_table_expr, join_table_expr, no_tables, tables, table_name,
  nil_limit, a_limit, nil_val, val_arg, select, union, simple_select,
}
use cm.Sqlparser.Format.{
  Write, arg, write, print, format_comments, format_table, format_tables, format_table_name,
  format_where, format_orders, format_limit, format_select,
}
use cm.Sqlparser.Format.Statements.{format, format_columns, format_on_dup, format_updates}
use cm.Sqlparser.Tracked.{
  ParsedQuery, parsed_query, query_of, run, has_bind_vars, new_tracked_buffer,
}
use cm.Vt.Schema.{Table, column_names}

pub generate_full_query : Statement → ParsedQuery
generate_full_query s = query_of (format s)

-- The statement with impossible conditions; `none` where an argument is left in it.
unfoldable pub generate_field_query : SelectStatement → Option ParsedQuery
generate_field_query s =
    let b = run (format_select true s) new_tracked_buffer in
    if has_bind_vars b then none else some (parsed_query b)

abbrev exec_limit : Limit
exec_limit = a_limit nil_val (val_arg (codes ":#maxLimit"))

or_exec_limit : Limit → Limit
or_exec_limit nil_limit = exec_limit
or_exec_limit (a_limit o r) = a_limit o r

with_limit : SelectStatement → SelectStatement
with_limit (select cs d es f w g h o l lock) = select cs d es f w g h o (or_exec_limit l) lock
with_limit (union t l r) = union t l r
with_limit (simple_select cs d es) = simple_select cs d es

pub generate_select_limit_query : SelectStatement → ParsedQuery
generate_select_limit_query s = query_of (format_select false (with_limit s))

-- `writeColumnList`, which panics on an empty list.
write_names : List (List ℕ) → Result (List Write)
write_names [] = panic
write_names (c ∷ []) = ok (write c)
write_names (c ∷ d ∷ cs) = do rest ← write_names (d ∷ cs); ok (write c ++ print ", " ++ rest)

abbrev pk_arg : List Write
pk_arg = arg (codes ":#pk") ∷ []

pub generate_select_outer_query : Select → Table → Result ParsedQuery
generate_select_outer_query sel ta = do
  names ← write_names (column_names ta.columns)
  ok (
      query_of (
        print "select "
        ++ names
        ++ print " from "
        ++ format_tables false "" sel.from
        ++ print " where "
        ++ pk_arg))

-- `GenerateInsertOuterQuery` and `GenerateReplaceOuterQuery`
pub generate_insert_outer_query : String → Insert → ParsedQuery
generate_insert_outer_query word ins = query_of (
    print word
    ++ format_comments ins.comments
    ++ print "into "
    ++ format_table_name ins.table
    ++ format_columns ins.columns
    ++ print " values "
    ++ arg (codes ":#values") ∷ []
    ++ format_on_dup ins.on_dup)

pub generate_update_outer_query : Update → ParsedQuery
generate_update_outer_query upd = query_of (
    print "update "
    ++ format_comments upd.comments
    ++ format_table_name upd.table
    ++ print " set "
    ++ format_updates "" upd.exprs
    ++ print " where "
    ++ pk_arg)

pub generate_delete_outer_query : Delete → ParsedQuery
generate_delete_outer_query del = query_of (
    print "delete "
    ++ format_comments del.comments
    ++ print "from "
    ++ format_table_name del.table
    ++ print " where "
    ++ pk_arg)

generate_subquery : List (List ℕ) → TableExpr → Where → OrderBy → Limit → Bool → Result ParsedQuery
generate_subquery columns table w order limit for_update = do
  names ← write_names columns
  ok (
      query_of (
        print "select "
        ++ names
        ++ print " from "
        ++ format_table false table
        ++ format_where false w
        ++ format_orders false " order by " order
        ++ format_limit false (or_exec_limit limit)
        ++ (if for_update then print " for update" else [])))

-- The primary key is the first index of the table.
key_columns : Table → Result (List (List ℕ))
key_columns ta = elim ta.indexes [ [] ↦ panic | x ∷ xs ↦ ok x.columns ]

-- `sel.From[0]` under the hint to use the index.
hinted : TableExprs → List ℕ → Result TableExpr
hinted (tables (aliased_table_expr e as_name hints) ts) index =
    ok (aliased_table_expr e as_name (some (record { typ = codes "use"; indexes = index ∷ [] })))
hinted (tables (paren_table_expr e) ts) index = panic
hinted (tables (join_table_expr l j r on) ts) index = panic
hinted no_tables index = panic

pub generate_select_subquery : Select → Table → List ℕ → Result ParsedQuery
generate_select_subquery sel ta index = do
  table ← hinted sel.from index
  columns ← key_columns ta
  generate_subquery columns table sel.where_clause sel.order_by sel.limit false

pub generate_update_subquery : Update → Table → Result ParsedQuery
generate_update_subquery upd ta = do
  columns ← key_columns ta
  generate_subquery columns (aliased_table_expr (table_name upd.table) none none) upd.where_clause
      upd.order_by upd.limit true

pub generate_delete_subquery : Delete → Table → Result ParsedQuery
generate_delete_subquery del ta = do
  columns ← key_columns ta
  generate_subquery columns (aliased_table_expr (table_name del.table) none none) del.where_clause
      del.order_by del.limit true
