-- ===== src/Vt/Planbuilder/Plan.antt =====
-- vt/tabletserver/planbuilder/plan.go and ddl.go: the plan of any statement.
use cm.Common.{ℕ, List, [], Option, none, some, ◌=?◌, if◌then◌else◌, invalid_sql, Result, ok, err}
use cm.Sqlparser.Ast.{
  Statement, Ddl, select_statement, union_statement, insert, replace, update, delete, set, ddl,
  begin, commit, rollback, other, union,
}
use cm.Vt.Planbuilder.{
  ExecPlan, TableGetter, plan_pass_select, plan_ddl, plan_other, reason_select, new_plan,
}
use cm.Vt.Planbuilder.QueryGen.{generate_full_query, generate_field_query}
use cm.Vt.Planbuilder.Select.{analyze_select}
use cm.Vt.Planbuilder.Dml.{analyze_update, analyze_delete, analyze_set}
use cm.Vt.Planbuilder.Insert.{analyze_insert, analyze_replace}

-- A table that is empty or unknown is left out.
analyze_ddl : Ddl → TableGetter → ExecPlan
analyze_ddl d get_table = if d.table =? [] then new_plan plan_ddl else elim (get_table d.table) [
  | none ↦ new_plan plan_ddl
  | some ta ↦ record (new_plan plan_ddl) { table_name = ta.name }
]

pub analyze_sql : (List ℕ → Option (List ℕ)) → Statement → TableGetter → Result ExecPlan
analyze_sql parse_float (select_statement s) get_table = analyze_select s get_table
analyze_sql parse_float (union_statement typ l r) get_table =
    ok (record (new_plan plan_pass_select) {
      field_query = generate_field_query (union typ l r);
      full_query = some (generate_full_query (union_statement typ l r));
      reason = reason_select;
    })
analyze_sql parse_float (insert s) get_table = analyze_insert s get_table
analyze_sql parse_float (replace s) get_table = analyze_replace s get_table
analyze_sql parse_float (update s) get_table = analyze_update s get_table
analyze_sql parse_float (delete s) get_table = analyze_delete s get_table
analyze_sql parse_float (set s) get_table = analyze_set parse_float s
analyze_sql parse_float (ddl d) get_table = ok (analyze_ddl d get_table)
analyze_sql parse_float other get_table = ok (new_plan plan_other)
analyze_sql parse_float begin get_table = err invalid_sql
analyze_sql parse_float commit get_table = err invalid_sql
analyze_sql parse_float rollback get_table = err invalid_sql
