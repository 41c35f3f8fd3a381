-- ===== src/Vt/Planbuilder/Select/Stages.antt =====
-- vt/tabletserver/planbuilder/select.go: which stages of the analysis answer by the primary key.
use cm.Common.{
  ℕ, List, Bool, true, false, not, Option, none, some, codes, ◌=?◌, if◌then◌else◌, Result, ok,
  >>=-eq-ok, ok-injective, ◌≡◌, ◌⊎◌, inl, inr, refl, sym, ap,
}
use cm.Sqlparser.Ast.{BoolExpr, Select}
use cm.Sqlparser.Analyzer.{PlanValue, limits}
use cm.Vt.Schema.{Table, Index}
use cm.Vt.Planbuilder.{
  ExecPlan, ReasonType, plan_pass_select, plan_pk_in, plan_select_subquery, reason_noindex_match,
  because,
}
use cm.Vt.Planbuilder.IndexAnalysis.{get_pk_values, get_index_match}
use cm.Vt.Planbuilder.QueryGen.{generate_select_outer_query, generate_select_subquery}
use cm.Vt.Planbuilder.Select.{
  with_primary, with_pk_values, choose_index, with_index, is_missing, is_nil,
}

pub if-ok :
    {A : Type 0} (b : Bool) (x y : Result A) (a : A)
    → (if b then x else y) ≡ ok a
    → ((b ≡ true) × (x ≡ ok a)) ⊎ ((b ≡ false) × (y ≡ ok a))
if-ok true x y a e = inl (refl, e)
if-ok false x y a e = inr (refl, e)

-- A plan that passes the statement through is no plan by key.
pub because-pass :
    {G : Type 0} (r : ReasonType) (plan out : ExecPlan)
    → plan.plan_id ≡ plan_pass_select
    → out.plan_id ≡ plan_pk_in
    → because r plan ≡ ok out
    → G
because-pass r plan out p q e =
    absurd (cc (p, q, ap (λ (z : ExecPlan). z.plan_id) (ok-injective e)))

with_index-ne :
    {G : Type 0} (sel : Select) (ta : Table) (plan : ExecPlan) (cols : List ℕ) (index : Index)
    (out : ExecPlan)
    → plan.plan_id ≡ plan_pass_select
    → out.plan_id ≡ plan_pk_in
    → with_index sel ta plan cols index ≡ ok out
    → G
unfolding with_index
with_index-ne sel ta plan cols index out p q e =
    let used = record plan { index_used = index.name } in
    elim (if-ok (index.name =? codes "PRIMARY") _ _ out e) [
      | inl (_, e1) ↦ because-pass _ used out p q e1
      | inr (_, e1) ↦
          (let (missing, _, e2) = >>=-eq-ok (is_missing cols ta index) _ e1 in
            elim (if-ok (not missing) _ _ out e2) [
              | inl (_, e3) ↦ because-pass _ used out p q e3
              | inr (_, e3) ↦
                  (let (outer, _, e4) = >>=-eq-ok (generate_select_outer_query sel ta) _ e3 in
                    let (inner, _, e5) =
                      >>=-eq-ok (generate_select_subquery sel ta index.name) _ e4 in
                    let id : plan_select_subquery ≡ out.plan_id =
                      ap (λ (z : ExecPlan). z.plan_id) (ok-injective e5) in
                    absurd (cc (id, q)))
            ])
    ]

found-ne :
    {G : Type 0} (sel : Select) (ta : Table) (plan : ExecPlan) (cols : List ℕ) (out : ExecPlan)
    (found : Option Index)
    → plan.plan_id ≡ plan_pass_select
    → out.plan_id ≡ plan_pk_in
    → elim found [
      | none ↦ because reason_noindex_match plan
      | some index ↦ with_index sel ta plan cols index
    ]
      ≡ ok out
    → G
found-ne sel ta plan cols out none p q e = because-pass _ plan out p q e
found-ne sel ta plan cols out (some index) p q e = with_index-ne sel ta plan cols index out p q e

choose_index-ne :
    {G : Type 0} (sel : Select) (ta : Table) (has_hints : Bool) (plan : ExecPlan) (cols : List ℕ)
    (conditions : List BoolExpr) (out : ExecPlan)
    → plan.plan_id ≡ plan_pass_select
    → out.plan_id ≡ plan_pk_in
    → choose_index sel ta has_hints plan cols conditions ≡ ok out
    → G
unfolding choose_index
choose_index-ne sel ta has_hints plan cols conditions out p q e = elim (if-ok has_hints _ _ out e) [
  | inl (_, e1) ↦ because-pass _ plan out p q e1
  | inr (_, e1) ↦
      (let (found, _, e2) = >>=-eq-ok (get_index_match conditions ta.indexes) _ e1 in
        found-ne sel ta plan cols out found p q e2)
]

with_pk_values-pks :
    (sel : Select) (plan : ExecPlan) (pks : List PlanValue) (out : ExecPlan)
    → plan.plan_id ≡ plan_pass_select
    → out.plan_id ≡ plan_pk_in
    → with_pk_values sel plan pks ≡ ok out
    → out.pk_values ≡ some pks
unfolding with_pk_values
with_pk_values-pks sel plan pks out p q e =
    let ((offset, rowcount), _, e1) = >>=-eq-ok (limits sel.limit) _ e in
    elim (if-ok (not (is_nil offset)) _ _ out e1) [
      | inl (_, e2) ↦ because-pass _ (record plan { index_used = codes "PRIMARY" }) out p q e2
      | inr (_, e2) ↦ sym (ap (λ (z : ExecPlan). z.pk_values) (ok-injective e2))
    ]

pub with_primary-pks :
    (sel : Select) (ta : Table) (has_hints : Bool) (plan : ExecPlan) (cols : List ℕ)
    (conditions : List BoolExpr) (primary : Index) (out : ExecPlan)
    → plan.plan_id ≡ plan_pass_select
    → out.plan_id ≡ plan_pk_in
    → with_primary sel ta has_hints plan cols conditions primary ≡ ok out
    → (pks : List PlanValue) × (get_pk_values conditions primary ≡ ok (some pks))
      × (out.pk_values ≡ some pks)
unfolding with_primary
with_primary-pks sel ta has_hints plan cols conditions primary out p q e =
    let (found, got, e1) = >>=-eq-ok (get_pk_values conditions primary) _ e in by_found found got e1
  where
    by_found :
        (found : Option (List PlanValue))
        → get_pk_values conditions primary ≡ ok found
        → elim found [
          | some pks ↦ with_pk_values sel plan pks
          | none ↦ choose_index sel ta has_hints plan cols conditions
        ]
          ≡ ok out
        → (pks : List PlanValue) × (get_pk_values conditions primary ≡ ok (some pks))
          × (out.pk_values ≡ some pks)
    by_found none got e1 = choose_index-ne sel ta has_hints plan cols conditions out p q e1
    by_found (some pks) got e1 = (pks, got, with_pk_values-pks sel plan pks out p q e1)
