-- ===== src/Sqlparser/Format/Statements.antt =====
-- sqlparser/ast.go: `Format` of the statements that are not selects.
use cm.Common.{String, List, [], ◌∷◌, ◌++◌, false, Option, none, some, codes, ◌=?◌, if◌then◌else◌}
use cm.Sqlparser.Ast.{
  SelectExprs, no_selects, selects, RowTuple, row_tuple, row_subquery, InsertRows, select_rows,
  value_rows, UpdateExpr, Insert, Update, Delete, Ddl, Statement, select_statement, union_statement,
  insert, replace, update, delete, set, ddl, begin, commit, rollback, other, union, select_node,
}
use cm.Sqlparser.Format.{
  Write, write, print, format_comments, format_table_name, format_selects, format_vals,
  format_col_name, format_val, format_select, format_where, format_orders, format_limit,
}

pub format_columns : SelectExprs → List Write
format_columns no_selects = []
format_columns (selects e es) = print "(" ++ format_selects false "" (selects e es) ++ print ")"

format_row : RowTuple → List Write
format_row (row_tuple es) = print "(" ++ format_vals false "" es ++ print ")"
format_row (row_subquery s) = print "(" ++ format_select false s ++ print ")"

format_values : String → List RowTuple → List Write
format_values prefix [] = []
format_values prefix (r ∷ rs) = print prefix ++ format_row r ++ format_values ", " rs

format_rows : InsertRows → List Write
format_rows (select_rows s) = format_select false s
format_rows (value_rows rs) = format_values "values " rs

pub format_updates : String → List UpdateExpr → List Write
format_updates prefix [] = []
format_updates prefix (u ∷ us) =
    print prefix
    ++ format_col_name u.name
    ++ print " = "
    ++ format_val false u.expr
    ++ format_updates ", " us

pub format_on_dup : Option (List UpdateExpr) → List Write
format_on_dup none = []
format_on_dup (some us) = print " on duplicate key update " ++ format_updates "" us

-- `Insert` and `Replace` differ in their first word.
format_insert : String → Insert → List Write
format_insert word s =
    print word
    ++ format_comments s.comments
    ++ print "into "
    ++ format_table_name s.table
    ++ format_columns s.columns
    ++ print " "
    ++ format_rows s.rows
    ++ format_on_dup s.on_dup

format_update : Update → List Write
format_update s =
    print "update "
    ++ format_comments s.comments
    ++ format_table_name s.table
    ++ print " set "
    ++ format_updates "" s.exprs
    ++ format_where false s.where_clause
    ++ format_orders false " order by " s.order_by
    ++ format_limit false s.limit

format_delete : Delete → List Write
format_delete s =
    print "delete "
    ++ format_comments s.comments
    ++ print "from "
    ++ format_table_name s.table
    ++ format_where false s.where_clause
    ++ format_orders false " order by " s.order_by
    ++ format_limit false s.limit

format_ddl : Ddl → List Write
format_ddl d =
    write d.action
    ++ print " table "
    ++ (if d.action =? codes "create"
        then write d.new_name
        else if d.action =? codes "rename"
        then write d.table ++ print " " ++ write d.new_name
        else write d.table)

pub format : Statement → List Write
format (select_statement s) = format_select false (select_node s)
format (union_statement typ l r) = format_select false (union typ l r)
format (insert s) = format_insert "insert " s
format (replace s) = format_insert "replace " s
format (update s) = format_update s
format (delete s) = format_delete s
format (set s) = print "set " ++ format_comments s.comments ++ format_updates "" s.exprs
format (ddl d) = format_ddl d
format begin = print "begin"
format commit = print "commit"
format rollback = print "rollback"
format other = print "other"
