-- ===== src/Proxy/Rows/Empty.antt =====
-- proxy/conn_query.go: the set of results of a select that no server answers.
use cm.Common.{ℕ, List, [], ◌∷◌, codes, false, Option, none, some}
use cm.Sqlparser.Ast.{Expr, SelectExpr, SelectExprs, star_expr, non_star_expr, no_selects, selects}
use cm.Sqlparser.Format.{format_expr}
use cm.Sqlparser.Tracked.{query_of}
use cm.Mysql.Field.{Field}
use cm.Mysql.Resultset.{Resultset}
use cm.Proxy.Rows.{blank_field}

-- `nstring` of an expression.
expr_text : Expr → List ℕ
expr_text e = (query_of (format_expr false e)).query

-- `SELECT *` and `SELECT t.*` have the name `*`; an alias leaves the text as the original name.
empty_field : SelectExpr → Field
empty_field (star_expr t) = record blank_field { name = codes "*" }
empty_field (non_star_expr e none) = record blank_field { name = expr_text e }
empty_field (non_star_expr e (some as')) = record blank_field { name = as'; org_name = expr_text e }

empty_fields : SelectExprs → List (Option Field)
empty_fields no_selects = []
empty_fields (selects e es) = some (empty_field e) ∷ empty_fields es

pub new_empty_resultset : SelectExprs → Resultset
new_empty_resultset es = record {
  fields = empty_fields es;
  field_names = [];
  values = [];
  row_datas = [];
}
