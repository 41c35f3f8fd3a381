-- ===== src/Vt/Planbuilder/Select/PkIn.antt =====
-- vt/tabletserver/planbuilder/select.go: when a SELECT is answered by its primary key.
use cm.Common.{
  ℕ, List, [], ◌∷◌, length, Bool, true, false, not, Option, none, some, codes, ltb, ◌==◌, ◌=?◌,
  if◌then◌else◌, table_not_found, ok, err, panic, >>=-eq-ok, ◌≡◌, ◌≢◌, inl, inr, refl, ap, arith,
}
use cm.Sqlparser.Ast.{Select, select_node}
use cm.Sqlparser.Analyzer.{PlanValue}
use cm.Vt.Schema.{Table, Index}
use cm.Vt.Planbuilder.{
  ExecPlan, TableGetter, plan_pass_select, plan_pk_in, reason_table, new_plan, reason_select_list,
  because,
}
use cm.Vt.Planbuilder.Where.{analyze_where}
use cm.Vt.Planbuilder.IndexAnalysis.{get_pk_values}
use cm.Vt.Planbuilder.QueryGen.{generate_field_query}
use cm.Vt.Planbuilder.Select.{
  analyze_select, analyze_select_exprs, analyze_from, improve, with_columns, with_conditions,
  with_primary, is_plain, is_cached, has_orders, is_some,
}
use cm.Vt.Planbuilder.Select.Stages.{if-ok, because-pass, with_primary-pks}

-- What the table has, and where the values come from.
abbrev pub ByPrimary : Select → Table → ExecPlan → Type 0
ByPrimary sel ta out =
    (primary : Index) × (xs : List Index) × (pks : List PlanValue) × (ta.indexes ≡ primary ∷ xs)
    × ((primary.name =? codes "PRIMARY") ≡ true)
    × (analyze_where sel.where_clause ≢ [])
    × (get_pk_values (analyze_where sel.where_clause) primary ≡ ok (some pks))
    × (out.pk_values ≡ some pks)

by_indexes :
    (sel : Select) (ta : Table) (has_hints : Bool) (plan : ExecPlan) (cols : List ℕ)
    (indexes : List Index) (out : ExecPlan)
    → ta.indexes ≡ indexes
    → plan.plan_id ≡ plan_pass_select
    → out.plan_id ≡ plan_pk_in
    → analyze_where sel.where_clause ≢ []
    → elim indexes [
      | [] ↦ panic
      | primary ∷ xs ↦
          if primary.name =? codes "PRIMARY"
          then with_primary sel ta has_hints plan cols (analyze_where sel.where_clause) primary
          else panic
    ]
      ≡ ok out
    → ByPrimary sel ta out
by_indexes sel ta has_hints plan cols [] out i p q w e = absurd (cc e)
by_indexes sel ta has_hints plan cols (primary ∷ xs) out i p q w e =
    elim (if-ok (primary.name =? codes "PRIMARY") _ panic out e) [
      | inl (n, e1) ↦
          (let (pks, got, same) =
              with_primary-pks sel ta has_hints plan cols (analyze_where sel.where_clause) primary
                out p q e1 in
            (primary, xs, pks, i, n, w, got, same))
      | inr (_, e1) ↦ absurd (cc e1)
    ]

with_conditions-pks :
    (sel : Select) (ta : Table) (has_hints : Bool) (plan : ExecPlan) (cols : List ℕ)
    (out : ExecPlan)
    → plan.plan_id ≡ plan_pass_select
    → out.plan_id ≡ plan_pk_in
    → with_conditions sel ta has_hints plan cols (analyze_where sel.where_clause) ≡ ok out
    → (has_orders sel.order_by ≡ false) × ByPrimary sel ta out
unfolding with_conditions
with_conditions-pks sel ta has_hints plan cols out p q e =
    elim (if-ok (length (analyze_where sel.where_clause) == 0) _ _ out e) [
      | inl (_, e1) ↦ because-pass _ plan out p q e1
      | inr (w, e1) ↦ elim (if-ok (has_orders sel.order_by) _ _ out e1) [
        | inl (_, e2) ↦ because-pass _ plan out p q e2
        | inr (o, e2) ↦ (
          o,
          by_indexes sel ta has_hints plan cols ta.indexes out refl p q
              (λ z. ground (arith, w, ap length z)) e2,
        )
      ]
    ]

with_columns-pks :
    (sel : Select) (ta : Table) (has_hints : Bool) (plan out : ExecPlan)
    → plan.plan_id ≡ plan_pass_select
    → out.plan_id ≡ plan_pk_in
    → with_columns sel ta has_hints plan ≡ ok out
    → (has_orders sel.order_by ≡ false) × ByPrimary sel ta out
unfolding with_columns
with_columns-pks sel ta has_hints plan out p q e =
    let (found, _, e1) = >>=-eq-ok (analyze_select_exprs sel.select_exprs ta) _ e in
    by_found found e1
  where
    by_found :
        (found : Option (List ℕ))
        → elim found [
          | none ↦ because reason_select_list plan
          | some cols ↦
              with_conditions sel ta has_hints
                (record plan { column_numbers = some cols })
                cols
                (analyze_where sel.where_clause)
        ]
          ≡ ok out
        → (has_orders sel.order_by ≡ false) × ByPrimary sel ta out
    by_found none e1 = because-pass _ plan out p q e1
    by_found (some cols) e1 =
        with_conditions-pks sel ta has_hints (record plan { column_numbers = some cols }) cols out p
          q e1

-- What the statement and the table are like.
abbrev pub Improved : Select → Table → ExecPlan → Type 0
Improved sel ta out =
    (is_plain sel ≡ true)
    × (ltb 0 (length sel.lock) ≡ false)
    × (is_cached ta.cache_type ≡ true)
    × (has_orders sel.order_by ≡ false)
    × ByPrimary sel ta out

improve-pks :
    (sel : Select) (ta : Table) (has_hints : Bool) (plan out : ExecPlan)
    → plan.plan_id ≡ plan_pass_select
    → out.plan_id ≡ plan_pk_in
    → improve sel ta has_hints plan ≡ ok out
    → Improved sel ta out
unfolding improve
improve-pks sel ta has_hints plan out p q e =
    elim (if-ok (not (is_some plan.field_query)) _ _ out e) [
      | inl (_, e1) ↦ because-pass _ plan out p q e1
      | inr (_, e1) ↦ elim (if-ok (not (is_plain sel)) _ _ out e1) [
        | inl (_, e2) ↦ because-pass _ plan out p q e2
        | inr (n, e2) ↦ elim (if-ok (ltb 0 (length sel.lock)) _ _ out e2) [
          | inl (_, e3) ↦ because-pass _ plan out p q e3
          | inr (l, e3) ↦ elim (if-ok (not (is_cached ta.cache_type)) _ _ out e3) [
            | inl (_, e4) ↦ because-pass _ plan out p q e4
            | inr (c, e4) ↦
                (let (o, b) = with_columns-pks sel ta has_hints plan out p q e4 in
                  (ground (arith, n), l, ground (arith, c), o, b))
          ]
        ]
      ]
    ]

with_table-Improved :
    (sel : Select) (get_table : TableGetter) (name : List ℕ) (has_hints : Bool) (out : ExecPlan)
    (found : Option Table) (plan : ExecPlan)
    → get_table name ≡ found
    → plan.plan_id ≡ plan_pass_select
    → out.plan_id ≡ plan_pk_in
    → elim found [
      | none ↦ err table_not_found
      | some ta ↦ improve sel ta has_hints (record plan { table_name = ta.name })
    ]
      ≡ ok out
    → (ta : Table) × (get_table name ≡ some ta) × Improved sel ta out
with_table-Improved sel get_table name has_hints out none plan g p q e = absurd (cc e)
with_table-Improved sel get_table name has_hints out (some ta) plan g p q e =
    (ta, g, improve-pks sel ta has_hints (record plan { table_name = ta.name }) out p q e)

-- A SELECT is planned by its primary key only where it has no DISTINCT, GROUP BY, HAVING, ORDER BY
-- or lock, its table is known and cached for reads, the table's first index is PRIMARY, its WHERE
-- clause has conditions, and the plan's values are those that `getPKValues` finds in them.
pub analyze_select-pk_in :
    (sel : Select) (get_table : TableGetter) (out : ExecPlan)
    → analyze_select sel get_table ≡ ok out
    → out.plan_id ≡ plan_pk_in
    → (name : List ℕ) × (has_hints : Bool) × (analyze_from sel.from ≡ ok (name, has_hints))
      × ((ta : Table) × (get_table name ≡ some ta) × Improved sel ta out)
unfolding analyze_select
analyze_select-pk_in sel get_table out e q =
    let plan = record (new_plan plan_pass_select) {
      field_query = generate_field_query (select_node sel);
    } in
    let ((name, has_hints), from, e1) = >>=-eq-ok (analyze_from sel.from) _ e in
    elim (if-ok (name =? []) _ _ out e1) [
      | inl (_, e2) ↦ because-pass reason_table plan out refl q e2
      | inr (_, e2) ↦ (
        name,
        has_hints,
        from,
        with_table-Improved sel get_table name has_hints out (get_table name) plan refl refl q e2,
      )
    ]
