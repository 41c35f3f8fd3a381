-- ===== src/Vt/Planbuilder/Select.antt =====
-- vt/tabletserver/planbuilder/select.go: the plan of a SELECT.

pub mod Stages
pub mod PkIn
use cm.Common.{
  ℕ, suc, ◌+◌, List, [], ◌∷◌, ◌++◌, length, Bool, true, false, not, ◌&&◌, ◌||◌, Option, none, some,
  codes, ltb, ◌==◌, ◌=?◌, if◌then◌else◌, Error, column_not_found, Result, ok, err, panic, ◌>>=◌,
  index_at,
}
use cm.Sqlparser.Ast.{
  BoolExpr, SelectExpr, SelectExprs, TableExprs, Where, OrderBy, ValExprs, Select, star_expr,
  non_star_expr, no_selects, selects, no_tables, tables, aliased_table_expr, paren_table_expr,
  join_table_expr, nil_where, a_where, no_orders, orders, no_vals, vals, select_node,
}
use cm.Sqlparser.Analyzer.{PlanValue, no_value, get_col_name, get_table_name, limits}
use cm.Vt.Schema.{
  Table, Index, CacheType, cache_none, cache_rw, cache_w, find_table_column, find_data_column,
}
use cm.Vt.Planbuilder.{
  ExecPlan, TableGetter, plan_pass_select, plan_pk_in, plan_select_subquery, reason_table,
  reason_select_list, reason_select, reason_lock, reason_nocache, reason_where, reason_order,
  reason_limit, reason_has_hints, reason_noindex_match, reason_pkindex, reason_covering, new_plan,
  with_table, because,
}
use cm.Vt.Planbuilder.Where.{analyze_where}
use cm.Vt.Planbuilder.IndexAnalysis.{get_pk_values, get_index_match}
use cm.Vt.Planbuilder.QueryGen.{
  generate_field_query, generate_select_outer_query, generate_select_subquery,
}

-- `0, 1, …` for the columns of the table.
unfoldable pub counted {ℓ} : {A : Type ℓ} → ℕ → List A → List ℕ
counted i [] = []
counted i (x ∷ xs) = i ∷ counted (suc i) xs

abbrev pub ColumnNumbers : Type 0
ColumnNumbers = Result (Option (List ℕ))

unfoldable pub onto_columns : List ℕ → ColumnNumbers → ColumnNumbers
onto_columns cols more = do
  rest ← more
  ok (elim rest [ none ↦ none | some ns ↦ some (cols ++ ns) ])

-- A name that is not found is an error, one that is not simple ends the analysis.
unfoldable pub analyze_select_exprs : SelectExprs → Table → ColumnNumbers
analyze_select_exprs no_selects ta = ok (some [])
analyze_select_exprs (selects (star_expr t) es) ta =
    onto_columns (counted 0 ta.columns) (analyze_select_exprs es ta)
analyze_select_exprs (selects (non_star_expr e as_name) es) ta =
    let rest = analyze_select_exprs es ta in
    if get_col_name e =? [] then ok none else elim (find_table_column ta (get_col_name e)) [
      | none ↦ err column_not_found
      | some i ↦ onto_columns (i ∷ []) rest
    ]

unfoldable pub is_some {ℓ} : {A : Type ℓ} → Option A → Bool
is_some none = false
is_some (some a) = true

-- The table's name, and whether it has hints.
unfoldable pub analyze_from : TableExprs → Result (List ℕ × Bool)
analyze_from no_tables = panic
analyze_from (tables t (tables u ts)) = ok ([], false)
analyze_from (tables (aliased_table_expr e as_name hints) no_tables) =
    ok (get_table_name e, is_some hints)
analyze_from (tables (paren_table_expr e) no_tables) = ok ([], false)
analyze_from (tables (join_table_expr l j r on) no_tables) = ok ([], false)

-- Whether a column is missing in the index's data.
pub is_missing : List ℕ → Table → Index → Result Bool
is_missing [] ta index = ok false
is_missing (n ∷ ns) ta index = do
  c ← index_at ta.columns n
  let rest = is_missing ns ta index
  if is_some (find_data_column index c.name) then rest else ok true

pub with_index : Select → Table → ExecPlan → List ℕ → Index → Result ExecPlan
with_index sel ta plan cols index =
    let used = record plan { index_used = index.name } in
    if index.name =? codes "PRIMARY"
    then because reason_pkindex used
    else (is_missing cols ta index >>= λ missing.
        if not missing
        then because reason_covering used
        else (generate_select_outer_query sel ta >>= λ outer.
            generate_select_subquery sel ta index.name >>= λ inner. ok (record used {
              plan_id = plan_select_subquery;
              outer_query = some outer;
              sub_query = some inner;
            })))

pub choose_index : Select → Table → Bool → ExecPlan → List ℕ → List BoolExpr → Result ExecPlan
choose_index sel ta has_hints plan cols conditions =
    if has_hints
    then because reason_has_hints plan
    else (get_index_match conditions ta.indexes >>= λ found. elim found [
      | none ↦ because reason_noindex_match plan
      | some index ↦ with_index sel ta plan cols index
    ])

unfoldable pub is_nil : PlanValue → Bool
is_nil no_value = true
is_nil v = false

unfoldable pub with_pk_values : Select → ExecPlan → List PlanValue → Result ExecPlan
with_pk_values sel plan pks = do
  (offset, rowcount) ← limits sel.limit
  let used = record plan { index_used = codes "PRIMARY" }
  if not (is_nil offset)
      then because reason_limit used
      else ok (record used { limit = rowcount; plan_id = plan_pk_in; pk_values = some pks })

unfoldable pub has_orders : OrderBy → Bool
has_orders no_orders = false
has_orders (orders e d es) = true

unfoldable pub has_vals : ValExprs → Bool
has_vals no_vals = false
has_vals (vals e es) = true

unfoldable pub has_where : Where → Bool
has_where nil_where = false
has_where (a_where t e) = true

unfoldable pub with_primary :
    Select → Table → Bool → ExecPlan → List ℕ → List BoolExpr → Index → Result ExecPlan
with_primary sel ta has_hints plan cols conditions primary =
    get_pk_values conditions primary >>= λ found. elim found [
      | some pks ↦ with_pk_values sel plan pks
      | none ↦ choose_index sel ta has_hints plan cols conditions
    ]

-- A table that is cached has a primary key: the source panics on any other.
unfoldable pub with_conditions :
    Select → Table → Bool → ExecPlan → List ℕ → List BoolExpr → Result ExecPlan
with_conditions sel ta has_hints plan cols conditions =
    if length conditions == 0
    then because reason_where plan
    else if has_orders sel.order_by
    then because reason_order plan
    else elim ta.indexes [
      | [] ↦ panic
      | primary ∷ xs ↦
          if primary.name =? codes "PRIMARY"
          then with_primary sel ta has_hints plan cols conditions primary
          else panic
    ]

unfoldable pub with_columns : Select → Table → Bool → ExecPlan → Result ExecPlan
with_columns sel ta has_hints plan = analyze_select_exprs sel.select_exprs ta >>= λ found.
    elim found [
      | none ↦ because reason_select_list plan
      | some cols ↦
          with_conditions sel ta has_hints (record plan { column_numbers = some cols }) cols
            (analyze_where sel.where_clause)
    ]

unfoldable pub is_cached : CacheType → Bool
is_cached cache_none = false
is_cached cache_w = false
is_cached cache_rw = true

unfoldable pub is_plain : Select → Bool
is_plain sel = not (ltb 0 (length sel.distinct) || has_vals sel.group_by || has_where sel.having)

unfoldable pub improve : Select → Table → Bool → ExecPlan → Result ExecPlan
improve sel ta has_hints plan =
    if not (is_some plan.field_query)
    then because reason_select_list plan
    else if not (is_plain sel)
    then because reason_select plan
    else if ltb 0 (length sel.lock)
    then because reason_lock plan
    else if not (is_cached ta.cache_type)
    then because reason_nocache plan
    else with_columns sel ta has_hints plan

unfoldable pub analyze_select : Select → TableGetter → Result ExecPlan
analyze_select sel get_table = do
  let plan = record (new_plan plan_pass_select) {
    field_query = generate_field_query (select_node sel);
  }
  (name, has_hints) ← analyze_from sel.from
  if name =? []
      then because reason_table plan
      else with_table get_table name
          (λ ta. improve sel ta has_hints (record plan { table_name = ta.name }))
