-- ===== src/Sqlparser/Format.antt =====
-- sqlparser/ast.go: the `Format` methods, as the writes that they make on a `TrackedBuffer`.
-- `Myprintf` writes the text between its verbs and formats a node for `%v` through the buffer's node
-- formatter: the first argument is true where that is `FormatImpossible` of
-- vt/tabletserver/planbuilder/query_gen.go, which changes selects and joins.
pub mod Statements
use cm.Common.{
  ℕ, String, List, [], ◌∷◌, ◌++◌, Bool, true, false, ◌||◌, Option, none, some, codes, ◌=?◌,
  if◌then◌else◌,
}
use cm.Sqltypes.Escape.{encode_sql}
use cm.Sqlparser.Ast.{
  Expr, BoolExpr, ValExpr, ValExprs, OptVal, Whens, SelectExpr, SelectExprs, SimpleTableExpr,
  OptBool, TableExpr, TableExprs, Where, OrderBy, Limit, SelectStatement, ColName, TableName,
  IndexHints, UpdateExpr, bool_expr, val_expr, and_expr, or_expr, not_expr, paren_bool_expr,
  comparison_expr, range_cond, null_check, exists_expr, str_val, num_val, val_arg, list_arg,
  null_val, col_name, val_tuple, subquery, binary_expr, unary_expr, func_expr, case_expr, no_vals,
  vals, nil_val, a_val, no_whens, whens, star_expr, non_star_expr, no_selects, selects, table_name,
  table_subquery, nil_bool, a_bool, aliased_table_expr, paren_table_expr, join_table_expr,
  no_tables, tables, nil_where, a_where, no_orders, orders, nil_limit, a_limit, select, union,
  simple_select,
}
use cm.Sqlparser.Keywords.{is_keyword}

-- A call of `Write` or `WriteString`, or one of `WriteArg`.
pub data Write : Type 0 where
  text arg : List ℕ → Write

abbrev pub write : List ℕ → List Write
write s = text s ∷ []

abbrev pub print : String → List Write
print s = text (codes s) ∷ []

-- `escape`
unfoldable pub format_name : List ℕ → List Write
format_name name = if is_keyword name then print "`" ++ write name ++ print "`" else write name

unfoldable pub format_qualified : Option (List ℕ) → List ℕ → List Write
format_qualified none name = format_name name
format_qualified (some q) name = format_name q ++ print "." ++ format_name name

unfoldable pub format_col_name : ColName → List Write
format_col_name c = format_qualified c.qualifier c.name

unfoldable pub format_table_name : TableName → List Write
format_table_name t = format_qualified t.qualifier t.name

unfoldable pub format_as : Option (List ℕ) → List Write
format_as none = []
format_as (some s) = print " as " ++ write s

unfoldable pub format_comments : List (List ℕ) → List Write
format_comments [] = []
format_comments (c ∷ cs) = write c ++ print " " ++ format_comments cs

pub format_indexes : String → List (List ℕ) → List Write
format_indexes prefix [] = []
format_indexes prefix (n ∷ ns) = print prefix ++ write n ++ format_indexes ", " ns

unfoldable pub format_hints : Option IndexHints → List Write
format_hints none = []
format_hints (some h) =
    print " " ++ write h.typ ++ print " index " ++ format_indexes "(" h.indexes ++ print ")"

-- `AST_LEFT_JOIN` or `AST_RIGHT_JOIN`
pub wants_on : List ℕ → Bool
wants_on join = join =? codes "left join" || join =? codes "right join"

abbrev distinct_text : Bool → List Write
distinct_text true = print "distinct "
distinct_text false = []

unfoldable mutual
  pub format_expr : Bool → Expr → List Write
  format_expr i (bool_expr e) = format_bool i e
  format_expr i (val_expr e) = format_val i e

  pub format_bool : Bool → BoolExpr → List Write
  format_bool i (and_expr l r) = format_bool i l ++ print " and " ++ format_bool i r
  format_bool i (or_expr l r) = format_bool i l ++ print " or " ++ format_bool i r
  format_bool i (not_expr e) = print "not " ++ format_bool i e
  format_bool i (paren_bool_expr e) = print "(" ++ format_bool i e ++ print ")"
  format_bool i (comparison_expr op l r) =
      format_val i l ++ print " " ++ write op ++ print " " ++ format_val i r
  format_bool i (range_cond op e from to) =
      format_val i e
      ++ print " "
      ++ write op
      ++ print " "
      ++ format_val i from
      ++ print " and "
      ++ format_val i to
  format_bool i (null_check op e) = format_val i e ++ print " " ++ write op
  format_bool i (exists_expr s) = print "exists " ++ print "(" ++ format_select i s ++ print ")"

  pub format_val : Bool → ValExpr → List Write
  format_val i (str_val s) = write (encode_sql s)
  format_val i (num_val s) = write s
  format_val i (val_arg s) = arg s ∷ []
  format_val i (list_arg s) = arg s ∷ []
  format_val i null_val = print "null"
  format_val i (col_name c) = format_col_name c
  format_val i (val_tuple es) = print "(" ++ format_vals i "" es ++ print ")"
  format_val i (subquery s) = print "(" ++ format_select i s ++ print ")"
  format_val i (binary_expr op l r) = format_expr i l ++ write (op ∷ []) ++ format_expr i r
  format_val i (unary_expr op e) = write (op ∷ []) ++ format_expr i e
  format_val i (func_expr name distinct es) =
      write name ++ print "(" ++ distinct_text distinct ++ format_selects i "" es ++ print ")"
  format_val i (case_expr e ws otherwise) =
      print "case "
      ++ format_opt_val i "" e " "
      ++ format_whens i ws
      ++ format_opt_val i "else " otherwise " "
      ++ print "end"

  -- A node that may be nil, with the text before and behind it.
  pub format_opt_val : Bool → String → OptVal → String → List Write
  format_opt_val i before nil_val behind = []
  format_opt_val i before (a_val e) behind = print before ++ format_val i e ++ print behind

  -- `Format` of the lists starts with a prefix and goes on with a comma.
  pub format_vals : Bool → String → ValExprs → List Write
  format_vals i prefix no_vals = []
  format_vals i prefix (vals e es) = print prefix ++ format_val i e ++ format_vals i ", " es

  pub format_whens : Bool → Whens → List Write
  format_whens i no_whens = []
  format_whens i (whens c e ws) =
      print "when "
      ++ format_bool i c
      ++ print " then "
      ++ format_val i e
      ++ print " "
      ++ format_whens i ws

  pub format_select_expr : Bool → SelectExpr → List Write
  format_select_expr i (star_expr none) = print "*"
  format_select_expr i (star_expr (some t)) = write t ++ print "." ++ print "*"
  format_select_expr i (non_star_expr e as_name) = format_expr i e ++ format_as as_name

  pub format_selects : Bool → String → SelectExprs → List Write
  format_selects i prefix no_selects = []
  format_selects i prefix (selects e es) =
      print prefix ++ format_select_expr i e ++ format_selects i ", " es

  pub format_simple_table : Bool → SimpleTableExpr → List Write
  format_simple_table i (table_name t) = format_table_name t
  format_simple_table i (table_subquery s) = print "(" ++ format_select i s ++ print ")"

  pub format_on : Bool → OptBool → List Write
  format_on i nil_bool = []
  format_on i (a_bool e) = print " on " ++ format_bool i e

  pub format_table : Bool → TableExpr → List Write
  format_table i (aliased_table_expr e as_name hints) =
      format_simple_table i e ++ format_as as_name ++ format_hints hints
  format_table i (paren_table_expr e) = print "(" ++ format_table i e ++ print ")"
  format_table true (join_table_expr l join r on) =
      format_table true l
      ++ print " "
      ++ write join
      ++ print " "
      ++ format_table true r
      ++ (if wants_on join then print " on 1 != 1" else [])
  format_table false (join_table_expr l join r on) =
      format_table false l
      ++ print " "
      ++ write join
      ++ print " "
      ++ format_table false r
      ++ format_on false on

  pub format_tables : Bool → String → TableExprs → List Write
  format_tables i prefix no_tables = []
  format_tables i prefix (tables e es) = print prefix ++ format_table i e ++ format_tables i ", " es

  pub format_where : Bool → Where → List Write
  format_where i nil_where = []
  format_where i (a_where typ e) = print " " ++ write typ ++ print " " ++ format_bool i e

  pub format_orders : Bool → String → OrderBy → List Write
  format_orders i prefix no_orders = []
  format_orders i prefix (orders e direction es) =
      print prefix ++ format_val i e ++ print " " ++ write direction ++ format_orders i ", " es

  pub format_limit : Bool → Limit → List Write
  format_limit i nil_limit = []
  format_limit i (a_limit offset rowcount) =
      print " limit " ++ format_opt_val i "" offset ", " ++ format_val i rowcount

  pub format_select : Bool → SelectStatement → List Write
  format_select true (select comments distinct es from w group having order limit lock) =
      print "select "
      ++ format_selects true "" es
      ++ print " from "
      ++ format_tables true "" from
      ++ print " where 1 != 1"
  format_select false (select comments distinct es from w group having order limit lock) =
      print "select "
      ++ format_comments comments
      ++ write distinct
      ++ format_selects false "" es
      ++ print " from "
      ++ format_tables false "" from
      ++ format_where false w
      ++ format_vals false " group by " group
      ++ format_where false having
      ++ format_orders false " order by " order
      ++ format_limit false limit
      ++ write lock
  format_select i (union typ l r) =
      format_select i l ++ print " " ++ write typ ++ print " " ++ format_select i r
  format_select i (simple_select comments distinct es) =
      print "select " ++ format_comments comments ++ write distinct ++ format_selects i "" es
