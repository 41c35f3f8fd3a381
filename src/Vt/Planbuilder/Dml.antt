-- ===== src/Vt/Planbuilder/Dml.antt =====
-- vt/tabletserver/planbuilder/dml.go: the plans of UPDATE, DELETE and SET.
pub mod Given
pub mod Keys
use cm.Common.{
  ℕ, List, [], ◌∷◌, length, true, false, Option, none, some, codes, ltb, ◌==◌, ◌=?◌, if◌then◌else◌,
  too_complex, Result, ok, err, panic, ◌>>=◌,
}
use cm.Sqlparser.Ast.{
  ValExpr, Where, UpdateExpr, Update, Delete, SetStatement, Statement, update, delete, set,
  val_expr, col_name, num_val,
}
use cm.Sqlparser.Tracked.{ParsedQuery}
use cm.Sqlparser.Analyzer.{
  PlanValue, no_value, int64, float64, get_col_name, name_of_table, is_value, as_interface,
  parse_int,
}
use cm.Vt.Schema.{Table, Index, find_column}
use cm.Vt.Planbuilder.{
  ExecPlan, TableGetter, plan_pass_dml, plan_dml_pk, plan_dml_subquery, plan_set, reason_table,
  reason_table_noindex, reason_pk_change, new_plan, with_table, because,
}
use cm.Vt.Planbuilder.Where.{analyze_where}
use cm.Vt.Planbuilder.IndexAnalysis.{get_pk_values, put_at, zeros}
use cm.Vt.Planbuilder.QueryGen.{
  generate_full_query, generate_update_outer_query, generate_delete_outer_query,
  generate_update_subquery, generate_delete_subquery,
}

-- The values that the SET clause gives to columns of the key: `none` where it gives none.
abbrev pub KeyValues : Type 0
KeyValues = Option (List PlanValue)

pub or_zeros : Index → KeyValues → List PlanValue
or_zeros index none = zeros no_value index.columns
or_zeros index (some pks) = pks

unfoldable pub analyze_update_expressions : List UpdateExpr → Index → KeyValues → Result KeyValues
analyze_update_expressions [] index pks = ok pks
analyze_update_expressions (u ∷ us) index pks =
    elim (find_column index (get_col_name (val_expr (col_name u.name)))) [
      | none ↦ analyze_update_expressions us index pks
      | some i ↦ elim (is_value u.expr) [
        | false ↦ err too_complex
        | true ↦ as_interface u.expr >>= λ v.
            analyze_update_expressions us index (some (put_at i v (or_zeros index pks)))
      ]
    ]

-- The first index, where it is the primary key.
unfoldable pub primary_of : Table → Option Index
primary_of ta = elim ta.indexes [
  | [] ↦ none
  | x ∷ xs ↦ if x.name =? codes "PRIMARY" then some x else none
]

-- Nil conditions give no values.
unfoldable pub key_of_where : Where → Index → Result KeyValues
key_of_where w primary =
    if length (analyze_where w) == 0 then ok none else get_pk_values (analyze_where w) primary

-- The end of both analyses: by key, or by a subquery that finds the keys.
unfoldable pub by_key : Where → Index → ExecPlan → Result ParsedQuery → Result ExecPlan
by_key w primary plan inner = key_of_where w primary >>= λ found. elim found [
  | some pks ↦ ok (record plan { plan_id = plan_dml_pk; pk_values = some pks })
  | none ↦ inner >>= λ q. ok (record plan { plan_id = plan_dml_subquery; sub_query = some q })
]

unfoldable pub with_update : Update → Table → ExecPlan → Index → Result ExecPlan
with_update upd ta plan primary = elim (analyze_update_expressions upd.exprs primary none) [
  | panic ↦ panic
  | err too_complex ↦ because reason_pk_change plan
  | err e ↦ err e
  | ok changed ↦
      by_key upd.where_clause primary
        (record plan {
          secondary_pk_values = changed;
          outer_query = some (generate_update_outer_query upd);
        })
        (generate_update_subquery upd ta)
]

-- The plan where the table has a primary key.
unfoldable pub if_primary : Table → ExecPlan → (Index → Result ExecPlan) → Result ExecPlan
if_primary ta plan next = elim (primary_of ta) [
  | none ↦ because reason_table_noindex plan
  | some primary ↦ next primary
]

unfoldable pub with_dml_table :
    TableGetter → List ℕ → ExecPlan → (Table → ExecPlan → Index → Result ExecPlan) → Result ExecPlan
with_dml_table get_table name plan next =
    if name =? []
    then because reason_table plan
    else with_table get_table name (λ ta.
      let plan' = record plan { table_name = ta.name } in if_primary ta plan' (next ta plan'))

unfoldable pub dml_plan : Statement → ExecPlan
dml_plan s = record (new_plan plan_pass_dml) { full_query = some (generate_full_query s) }

unfoldable pub analyze_update : Update → TableGetter → Result ExecPlan
analyze_update upd get_table =
    with_dml_table get_table (name_of_table upd.table) (dml_plan (update upd)) (with_update upd)

unfoldable pub with_delete : Delete → Table → ExecPlan → Index → Result ExecPlan
with_delete del ta plan primary =
    by_key del.where_clause primary
      (record plan { outer_query = some (generate_delete_outer_query del) })
      (generate_delete_subquery del ta)

unfoldable pub analyze_delete : Delete → TableGetter → Result ExecPlan
analyze_delete del get_table =
    with_dml_table get_table (name_of_table del.table) (dml_plan (delete del)) (with_delete del)

-- A number that is no int64 is read by `strconv.ParseFloat`: `parse_float` answers the text of the
-- float64, as floating point is not modelled.
set_number : (List ℕ → Option (List ℕ)) → List ℕ → PlanValue
set_number parse_float s = elim (parse_int s) [
  | ok n ↦ int64 n
  | err e ↦ elim (parse_float s) [ none ↦ no_value | some f ↦ float64 f ]
  | panic ↦ no_value
]

set_value_of : (List ℕ → Option (List ℕ)) → ValExpr → PlanValue
set_value_of parse_float (num_val s) = set_number parse_float s
set_value_of parse_float e = no_value

-- An empty list of expressions panics.
pub analyze_set : (List ℕ → Option (List ℕ)) → SetStatement → Result ExecPlan
analyze_set parse_float s =
    let plan = record (new_plan plan_set) { full_query = some (generate_full_query (set s)) } in
    elim s.exprs [
      | [] ↦ panic
      | u ∷ us ↦
          if ltb 0 (length us)
          then ok plan
          else ok
              (record plan { set_key = u.name.name; set_value = set_value_of parse_float u.expr })
    ]
