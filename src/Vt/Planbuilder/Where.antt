-- ===== src/Vt/Planbuilder/Where.antt =====
-- vt/tabletserver/planbuilder/select.go: the conditions of a WHERE clause. No condition is nil.
pub mod Meaning
use cm.Common.{
  ℕ, String, List, [], ◌∷◌, ◌++◌, Bool, true, false, ◌&&◌, ◌||◌, codes, ◌=?◌, if◌then◌else◌,
}
use cm.Sqlparser.Ast.{
  BoolExpr, ValExpr, Where, and_expr, or_expr, not_expr, paren_bool_expr, comparison_expr,
  range_cond, null_check, exists_expr, nil_where, a_where,
}
use cm.Sqlparser.Analyzer.{is_col_name, is_value, is_simple_tuple, string_in, has_in_clause, ast_in}

abbrev pub simple_operators : List String
simple_operators = "=" ∷ "<" ∷ ">" ∷ "<=" ∷ ">=" ∷ "<=>" ∷ "like" ∷ []

unfoldable pub analyze_comparison : List ℕ → ValExpr → ValExpr → List BoolExpr
analyze_comparison op l r =
    let itself = comparison_expr op l r ∷ [] in
    if string_in op simple_operators
    then if is_col_name l && is_value r then itself else []
    else if op =? ast_in
    then if is_col_name l && is_simple_tuple r then itself else []
    else []

unfoldable pub join_conditions : List BoolExpr → List BoolExpr → List BoolExpr
join_conditions [] right = []
join_conditions (l ∷ ls) [] = []
join_conditions (l ∷ ls) (r ∷ rs) =
    if has_in_clause (l ∷ ls) && has_in_clause (r ∷ rs) then [] else (l ∷ ls) ++ (r ∷ rs)

unfoldable pub analyze_boolean : BoolExpr → List BoolExpr
analyze_boolean (and_expr l r) = join_conditions (analyze_boolean l) (analyze_boolean r)
analyze_boolean (paren_bool_expr e) = analyze_boolean e
analyze_boolean (comparison_expr op l r) = analyze_comparison op l r
analyze_boolean (range_cond op e from to) =
    if op =? codes "between"
    then if is_col_name e && is_value from && is_value to then range_cond op e from to ∷ [] else []
    else []
analyze_boolean (or_expr l r) = []
analyze_boolean (not_expr e) = []
analyze_boolean (null_check op e) = []
analyze_boolean (exists_expr s) = []

unfoldable pub analyze_where : Where → List BoolExpr
analyze_where nil_where = []
analyze_where (a_where typ e) = analyze_boolean e
