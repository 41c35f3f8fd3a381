-- ===== src/Vt/Planbuilder.antt =====
-- vt/tabletserver/planbuilder/: plan_type.go, and the plan of plan.go.
pub mod Where
pub mod IndexAnalysis
pub mod QueryGen
pub mod Select
pub mod Dml
pub mod Insert
pub mod Plan
pub mod Kinds
mod Checks
use cm.Common.{
  ℕ, suc, String, List, [], ◌∷◌, Bool, true, false, Option, none, some, codes, ◌=?◌, if◌then◌else◌,
  Result, ok, err, panic, table_not_found,
}
use cm.Sqlparser.Tracked.{ParsedQuery}
use cm.Sqlparser.Analyzer.{PlanValue, no_value}
use cm.Vt.Schema.{Table}

pub data PlanType : Type 0 where
  plan_pass_select plan_pass_dml plan_pk_equal plan_pk_in plan_select_subquery : PlanType
  plan_dml_pk plan_dml_subquery plan_insert_pk plan_insert_subquery plan_set : PlanType
  plan_ddl plan_select_stream plan_other num_plans : PlanType

pub data ReasonType : Type 0 where
  reason_default reason_select reason_table reason_nocache reason_select_list : ReasonType
  reason_lock reason_where reason_order reason_limit reason_pkindex : ReasonType
  reason_covering reason_noindex_match reason_table_noindex reason_pk_change : ReasonType
  reason_has_hints reason_upsert : ReasonType

-- `planName[pt]`; what is no plan has no name.
pub plan_type_string : PlanType → List ℕ
plan_type_string plan_pass_select = codes "PASS_SELECT"
plan_type_string plan_pass_dml = codes "PASS_DML"
plan_type_string plan_pk_equal = codes "PK_EQUAL"
plan_type_string plan_pk_in = codes "PK_IN"
plan_type_string plan_select_subquery = codes "SELECT_SUBQUERY"
plan_type_string plan_dml_pk = codes "DML_PK"
plan_type_string plan_dml_subquery = codes "DML_SUBQUERY"
plan_type_string plan_insert_pk = codes "INSERT_PK"
plan_type_string plan_insert_subquery = codes "INSERT_SUBQUERY"
plan_type_string plan_set = codes "SET"
plan_type_string plan_ddl = codes "DDL"
plan_type_string plan_select_stream = codes "SELECT_STREAM"
plan_type_string plan_other = codes "OTHER"
plan_type_string num_plans = []

abbrev all_plans : List PlanType
all_plans =
    plan_pass_select ∷ plan_pass_dml ∷ plan_pk_equal ∷ plan_pk_in ∷ plan_select_subquery
    ∷ plan_dml_pk ∷ plan_dml_subquery ∷ plan_insert_pk ∷ plan_insert_subquery ∷ plan_set ∷ plan_ddl
    ∷ plan_select_stream ∷ plan_other ∷ []

pub plan_named : List ℕ → List PlanType → PlanType × Bool
plan_named s [] = (num_plans, false)
plan_named s (p ∷ ps) = if plan_type_string p =? s then (p, true) else plan_named s ps

pub plan_by_name : List ℕ → PlanType × Bool
plan_by_name s = plan_named s all_plans

is_select : PlanType → Bool
is_select plan_pass_select = true
is_select plan_pk_in = true
is_select plan_select_subquery = true
is_select plan_select_stream = true
is_select p = false

-- A slice of values is `none` where it is nil. `set_value` is the text of the number.
pub record ExecPlan : Type 0 where
  pub plan_id : PlanType
  pub reason : ReasonType
  pub table_name : List ℕ
  pub field_query : Option ParsedQuery
  pub full_query : Option ParsedQuery
  pub outer_query : Option ParsedQuery
  pub sub_query : Option ParsedQuery
  pub index_used : List ℕ
  pub column_numbers : Option (List ℕ)
  pub pk_values : Option (List PlanValue)
  pub limit : PlanValue
  pub secondary_pk_values : Option (List PlanValue)
  pub subquery_pk_columns : List (Option ℕ)
  pub set_key : List ℕ
  pub set_value : PlanValue

-- `&ExecPlan{PlanId: id}`
abbrev pub new_plan : PlanType → ExecPlan
new_plan id = record {
  plan_id = id;
  reason = reason_default;
  table_name = [];
  field_query = none;
  full_query = none;
  outer_query = none;
  sub_query = none;
  index_used = [];
  column_numbers = none;
  pk_values = none;
  limit = no_value;
  secondary_pk_values = none;
  subquery_pk_columns = [];
  set_key = [];
  set_value = no_value;
}

abbrev pub TableGetter : Type 0
TableGetter = List ℕ → Option Table

-- `setTableInfo`, and the rest of the analysis with the table.
abbrev pub with_table : TableGetter → List ℕ → (Table → Result ExecPlan) → Result ExecPlan
with_table get_table name next = elim (get_table name) [
  | none ↦ err table_not_found
  | some ta ↦ next ta
]

abbrev pub because : ReasonType → ExecPlan → Result ExecPlan
because r plan = ok (record plan { reason = r })
