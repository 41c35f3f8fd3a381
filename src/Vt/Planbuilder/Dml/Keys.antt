-- ===== src/Vt/Planbuilder/Dml/Keys.antt =====
-- vt/tabletserver/planbuilder/dml.go: where the values of an UPDATE or DELETE by key come from.
use cm.Common.{
  ℕ, Bool, List, [], length, none, some, ◌=?◌, ◌==◌, too_complex, Result, ok, err, panic, ◌>>=◌,
  ◌≡◌, ◌≢◌, refl, ap, arith, ok-injective, inl, inr,
}
use cm.Sqlparser.Ast.{BoolExpr, Where, Update, Delete, update, delete}
use cm.Sqlparser.Tracked.{ParsedQuery}
use cm.Sqlparser.Analyzer.{PlanValue, name_of_table}
use cm.Vt.Schema.{Table, Index}
use cm.Vt.Planbuilder.{
  ExecPlan, TableGetter, ReasonType, reason_table, reason_table_noindex, reason_pk_change,
  plan_pass_dml, plan_dml_pk, plan_dml_subquery, because,
}
use cm.Vt.Planbuilder.Select.Stages.{if-ok}
use cm.Vt.Planbuilder.Where.{analyze_where}
use cm.Vt.Planbuilder.IndexAnalysis.{get_pk_values}
use cm.Common.{Answers, Answers-bind, Answers-if, Answers-option, Answers-ok}
use cm.Vt.Planbuilder.QueryGen.{
  generate_delete_outer_query, generate_delete_subquery, generate_update_outer_query,
  generate_update_subquery,
}
use cm.Vt.Planbuilder.Dml.Given.{IsCounted, Keyed, KeyFrom, Keyed-KeyFrom}
use cm.Vt.Planbuilder.Dml.{
  key_of_where, by_key, primary_of, if_primary, with_dml_table, with_delete, with_update, dml_plan,
  analyze_delete, analyze_update, analyze_update_expressions, KeyValues,
}

abbrev IsKeyed : TableGetter → List ℕ → Where → ExecPlan → Type 0
IsKeyed get_table name w out = out.plan_id ≡ plan_dml_pk → Keyed get_table name w out

key_of_where-some :
    (w : Where) (primary : Index) (pks : List PlanValue)
    → key_of_where w primary ≡ ok (some pks)
    → (analyze_where w ≢ []) × (get_pk_values (analyze_where w) primary ≡ ok (some pks))
unfolding key_of_where
key_of_where-some w primary pks e = elim (if-ok (length (analyze_where w) == 0) _ _ (some pks) e) [
  | inl (_, e1) ↦ absurd (cc (ok-injective e1))
  | inr (n, e1) ↦ (λ z. ground (arith, n, ap length z), e1)
]

by_key-IsKeyed :
    (get_table : TableGetter) (name : List ℕ) (w : Where) (ta : Table) (primary : Index)
    (plan : ExecPlan) (inner : Result ParsedQuery)
    → get_table name ≡ some ta
    → primary_of ta ≡ some primary
    → Answers (IsKeyed get_table name w) (by_key w primary plan inner)
unfolding by_key
by_key-IsKeyed get_table name w ta primary plan inner g p =
    Answers-bind P (key_of_where w primary) _ by_found
  where
    P : ExecPlan → Type 0
    P = IsKeyed get_table name w

    by_found :
        (found : KeyValues)
        → key_of_where w primary ≡ ok found
        → Answers P (elim found [
          | some pks ↦ ok (record plan { plan_id = plan_dml_pk; pk_values = some pks })
          | none ↦
              inner >>= λ q. ok (record plan { plan_id = plan_dml_subquery; sub_query = some q })
        ])
    by_found none got = Answers-bind P inner _ (λ q _. λ id. absurd (cc id))
    by_found (some pks) got =
        let (n, e) = key_of_where-some w primary pks got in
        λ _. (ta, primary, pks, g, p, n, e, refl)

-- A stage that the table and its key are handed to.
abbrev Stage : TableGetter → List ℕ → Where → (Table → ExecPlan → Index → Result ExecPlan) → Type 0
Stage get_table name w next =
    (ta : Table) (plan : ExecPlan) (primary : Index)
    → plan.plan_id ≡ plan_pass_dml
    → get_table name ≡ some ta
    → primary_of ta ≡ some primary
    → Answers (IsKeyed get_table name w) (next ta plan primary)

not-IsKeyed :
    (get_table : TableGetter) (name : List ℕ) (w : Where) (r : ReasonType) (plan : ExecPlan)
    → plan.plan_id ≡ plan_pass_dml
    → Answers (IsKeyed get_table name w) (because r plan)
not-IsKeyed get_table name w r plan p = λ q. absurd (cc (p, q))

with_dml_table-IsKeyed :
    (get_table : TableGetter) (name : List ℕ) (w : Where) (plan : ExecPlan)
    (next : Table → ExecPlan → Index → Result ExecPlan)
    → plan.plan_id ≡ plan_pass_dml
    → Stage get_table name w next
    → Answers (IsKeyed get_table name w) (with_dml_table get_table name plan next)
unfolding with_dml_table if_primary
with_dml_table-IsKeyed get_table name w plan next p stage =
    Answers-if _ (name =? []) _ _ (λ _. not-IsKeyed get_table name w reason_table plan p)
      (λ _.
        Answers-option _ (get_table name) _ _ (λ _. tt)
          (λ ta g.
            Answers-option _ (primary_of ta) _ _
              (λ _.
                not-IsKeyed get_table name w reason_table_noindex
                  (record plan { table_name = ta.name }) p)
              (λ primary q. stage ta (record plan { table_name = ta.name }) primary p g q)))

with_delete-IsKeyed :
    (get_table : TableGetter) (del : Delete)
    → Stage get_table (name_of_table del.table) del.where_clause (with_delete del)
unfolding with_delete
with_delete-IsKeyed get_table del ta plan primary _ g q =
    by_key-IsKeyed get_table (name_of_table del.table) del.where_clause ta primary
      (record plan { outer_query = some (generate_delete_outer_query del) })
      (generate_delete_subquery del ta) g q

-- A DELETE that is planned by key has a known table whose first index is named PRIMARY and a WHERE clause
-- that a row satisfies exactly if it satisfies the conditions that the analysis finds in it, and each
-- column of that index has a value of the plan, which is that of one of these conditions, a test of
-- the column by = or IN: where the table's cardinalities are positive, as `Index.AddColumn` leaves
-- them, and under any reading of the tests that are no connectives.
pub analyze_delete-KeyFrom :
    (del : Delete) (get_table : TableGetter) (test : BoolExpr → Bool) (out : ExecPlan)
    → ((ta : Table) → get_table (name_of_table del.table) ≡ some ta → IsCounted ta)
    → analyze_delete del get_table ≡ ok out
    → out.plan_id ≡ plan_dml_pk
    → KeyFrom get_table (name_of_table del.table) test del.where_clause out
unfolding analyze_delete dml_plan
analyze_delete-KeyFrom del get_table test out counted e id =
    Keyed-KeyFrom get_table (name_of_table del.table) test del.where_clause out counted (
      Answers-ok _ (analyze_delete del get_table) out
        (with_dml_table-IsKeyed get_table (name_of_table del.table) del.where_clause
          (dml_plan (delete del)) (with_delete del) refl (with_delete-IsKeyed get_table del))
        e id)

with_update-IsKeyed :
    (get_table : TableGetter) (upd : Update)
    → Stage get_table (name_of_table upd.table) upd.where_clause (with_update upd)
unfolding with_update
with_update-IsKeyed get_table upd ta plan primary p g q =
    by_changed (analyze_update_expressions upd.exprs primary none)
  where
    P : ExecPlan → Type 0
    P = IsKeyed get_table (name_of_table upd.table) upd.where_clause

    by_changed :
        (r : Result KeyValues)
        → Answers P (elim r [
          | panic ↦ panic
          | err too_complex ↦ because reason_pk_change plan
          | err e ↦ err e
          | ok changed ↦
              by_key upd.where_clause primary
                (record plan {
                  secondary_pk_values = changed;
                  outer_query = some (generate_update_outer_query upd);
                })
                (generate_update_subquery upd ta)
        ])
    by_changed panic = tt
    by_changed (err too_complex) =
        not-IsKeyed get_table (name_of_table upd.table) upd.where_clause reason_pk_change plan p
    by_changed (err e) = tt
    by_changed (ok changed) =
        by_key-IsKeyed get_table (name_of_table upd.table) upd.where_clause ta primary
          (record plan {
            secondary_pk_values = changed;
            outer_query = some (generate_update_outer_query upd);
          })
          (generate_update_subquery upd ta) g q

-- An UPDATE that is planned by key has a known table whose first index is named PRIMARY and a WHERE clause
-- that a row satisfies exactly if it satisfies the conditions that the analysis finds in it, and each
-- column of that index has a value of the plan, which is that of one of these conditions, a test of
-- the column by = or IN: where the table's cardinalities are positive, as `Index.AddColumn` leaves
-- them, and under any reading of the tests that are no connectives.
pub analyze_update-KeyFrom :
    (upd : Update) (get_table : TableGetter) (test : BoolExpr → Bool) (out : ExecPlan)
    → ((ta : Table) → get_table (name_of_table upd.table) ≡ some ta → IsCounted ta)
    → analyze_update upd get_table ≡ ok out
    → out.plan_id ≡ plan_dml_pk
    → KeyFrom get_table (name_of_table upd.table) test upd.where_clause out
unfolding analyze_update dml_plan
analyze_update-KeyFrom upd get_table test out counted e id =
    Keyed-KeyFrom get_table (name_of_table upd.table) test upd.where_clause out counted (
      Answers-ok _ (analyze_update upd get_table) out
        (with_dml_table-IsKeyed get_table (name_of_table upd.table) upd.where_clause
          (dml_plan (update upd)) (with_update upd) refl (with_update-IsKeyed get_table upd))
        e id)
