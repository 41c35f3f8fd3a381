-- ===== src/Vt/Planbuilder/Insert.antt =====
-- vt/tabletserver/planbuilder/insert.go: the plans of INSERT and REPLACE, which differ in their word.
-- A column number of -1 is `none`.
pub mod Columns
pub mod Given
pub mod Numbers
pub mod Values
mod Checks
use cm.Common.{
  ℕ, zero, suc, String, List, [], ◌∷◌, map, true, false, Option, none, some, row_subquery,
  column_count, Result, ok, err, panic, ◌>>=◌,
}
use cm.Sqlparser.Ast.{
  ValExpr, ValExprs, Expr, SelectExprs, SelectStatement, RowTuple, Insert, Statement, insert,
  replace, row_tuple, select_rows, value_rows, star_expr, non_star_expr, no_selects, selects,
  no_vals, vals,
}
use cm.Sqlparser.Ast
use cm.Sqlparser.Analyzer.{
  PlanValue, PlanValues, no_value, default_value, value_list, no_values, values, get_col_name,
  name_of_table, is_value, as_interface,
}
use cm.Vt.Schema.{Table, Index, find_column, get_pk_column}
use cm.Vt.Planbuilder.{
  ExecPlan, TableGetter, plan_insert_pk, plan_insert_subquery, reason_upsert, because,
}
use cm.Vt.Planbuilder.IndexAnalysis.{put_at, zeros}
use cm.Vt.Planbuilder.QueryGen.{generate_insert_outer_query, generate_select_limit_query}
use cm.Vt.Planbuilder.Select.{analyze_select_exprs}
use cm.Vt.Planbuilder.Dml.{dml_plan, with_dml_table}

-- `pkColumnNumbers[index] = i`, unless the index is -1.
pub place : Option ℕ → ℕ → List (Option ℕ) → List (Option ℕ)
place none i numbers = numbers
place (some j) i numbers = put_at j (some i) numbers

-- The loop over the columns of the statement, the first of which is the `i`-th. A `*` panics.
pub number_columns : ℕ → SelectExprs → Index → List (Option ℕ) → Result (List (Option ℕ))
number_columns i no_selects pk numbers = ok numbers
number_columns i (selects (star_expr t) cs) pk numbers = panic
number_columns i (selects (non_star_expr e as_name) cs) pk numbers =
    number_columns (suc i) cs pk (place (find_column pk (get_col_name e)) i numbers)

pub get_insert_pk_columns : SelectExprs → Table → Index → Result (List (Option ℕ))
get_insert_pk_columns no_selects ta pk = ok (map some ta.pk_columns)
get_insert_pk_columns (selects c cs) ta pk =
    number_columns 0 (selects c cs) pk (zeros none pk.columns)

pub value_at : ℕ → ValExprs → Option ValExpr
value_at i no_vals = none
value_at zero (vals e es) = some e
value_at (suc i) (vals e es) = value_at i es

-- What one row has in a column: `none` where the expression is too complex.
abbrev OnRow : Type 0
OnRow = Result (Option PlanValue)

pub value_of_row : ℕ → RowTuple → OnRow
value_of_row column (Ast.row_subquery s) = err row_subquery
value_of_row column (row_tuple es) = elim (value_at column es) [
  | none ↦ err column_count
  | some e ↦ elim (is_value e) [ false ↦ ok none | true ↦ as_interface e >>= λ v. ok (some v) ]
]

pub values_of_rows : ℕ → List RowTuple → Result (Option PlanValues)
values_of_rows column [] = ok (some no_values)
values_of_rows column (r ∷ rs) = value_of_row column r >>= λ found. elim found [
  | none ↦ ok none
  | some v ↦ values_of_rows column rs >>= λ rest.
      ok (elim rest [ none ↦ none | some vs ↦ some (values v vs) ])
]

-- One row gives its value, any other number of rows the list of theirs.
pub one_or_list : PlanValues → PlanValue
one_or_list no_values = value_list no_values
one_or_list (values v no_values) = v
one_or_list (values v (values w vs)) = value_list (values v (values w vs))

pub default_of : Option (List ℕ) → PlanValue
default_of none = no_value
default_of (some s) = default_value s

pub key_value : ℕ → Option ℕ → List RowTuple → Table → OnRow
key_value i none rows ta = do c ← get_pk_column ta i; ok (some (default_of c.default_value))
key_value i (some column) rows ta = values_of_rows column rows >>= λ found.
    ok (elim found [ none ↦ none | some vs ↦ some (one_or_list vs) ])

-- The loop over the key's columns, of which the first is the `i`-th.
pub get_insert_pk_values :
    ℕ → List (Option ℕ) → List RowTuple → Table → Result (Option (List PlanValue))
get_insert_pk_values i [] rows ta = ok (some [])
get_insert_pk_values i (n ∷ ns) rows ta = key_value i n rows ta >>= λ found. elim found [
  | none ↦ ok none
  | some v ↦ get_insert_pk_values (suc i) ns rows ta >>= λ rest.
      ok (elim rest [ none ↦ none | some vs ↦ some (v ∷ vs) ])
]

-- Without a column list the subquery gives all columns: a `*` stands for them.
inserted_columns : SelectExprs → SelectExprs
inserted_columns no_selects = selects (star_expr none) no_selects
inserted_columns (selects c cs) = selects c cs

with_rows : String → Insert → Table → ExecPlan → List (Option ℕ) → Result ExecPlan
with_rows word ins ta plan numbers = elim ins.rows [
  | select_rows s ↦ analyze_select_exprs (inserted_columns ins.columns) ta >>= λ cols.
      ok (record plan {
        plan_id = plan_insert_subquery;
        outer_query = some (generate_insert_outer_query word ins);
        sub_query = some (generate_select_limit_query s);
        column_numbers = cols;
        subquery_pk_columns = numbers;
      })
  | value_rows rows ↦ get_insert_pk_values 0 numbers rows ta >>= λ found. ok (elim found [
    | none ↦ plan
    | some pks ↦ record plan {
      plan_id = plan_insert_pk;
      outer_query = plan.full_query;
      pk_values = some pks;
    }
  ])
]

with_insert : String → Insert → Table → ExecPlan → Index → Result ExecPlan
with_insert word ins ta plan primary = get_insert_pk_columns ins.columns ta primary >>= λ numbers.
    elim ins.on_dup [
      | some us ↦ because reason_upsert plan
      | none ↦ with_rows word ins ta plan numbers
    ]

pub analyze_insert : Insert → TableGetter → Result ExecPlan
analyze_insert ins get_table =
    with_dml_table get_table (name_of_table ins.table) (dml_plan (insert ins))
      (with_insert "insert " ins)

pub analyze_replace : Insert → TableGetter → Result ExecPlan
analyze_replace ins get_table =
    with_dml_table get_table (name_of_table ins.table) (dml_plan (replace ins))
      (with_insert "replace " ins)
