-- ===== src/Vt/Planbuilder/Dml/Given.antt =====
-- vt/tabletserver/planbuilder/dml.go: what a plan by key says of the table and of the WHERE clause.
use cm.Common.{
  ℕ, suc, ◌+◌, Bool, List, [], ◌∷◌, length, get_elem?, All, codes, none, some, ◌=?◌, =?_iff,
  if◌then◌else◌, ok, ◌≡◌, ◌≢◌, refl, ap, subst, arith, inl, inr, Bool-cases,
}
use cm.Sqlparser.Ast.{BoolExpr, Where, nil_where, a_where}
use cm.Sqlparser.Analyzer.{PlanValue}
use cm.Vt.Schema.{Table, Index}
use cm.Vt.Planbuilder.{ExecPlan, TableGetter}
use cm.Vt.Planbuilder.Where.{analyze_where}
use cm.Vt.Planbuilder.Where.Meaning.{holds, all_hold, analyze_boolean-holds}
use cm.Vt.Planbuilder.IndexAnalysis.{get_pk_values}
use cm.Vt.Planbuilder.IndexAnalysis.PkValues.{GivesKey, Some, IsPositive, get_pk_values-GivesKey}
use cm.Vt.Planbuilder.Dml.{primary_of}

-- Each of the columns, of which the first is the index's `i`-th, has one of the values, and it is
-- that of a condition that tests the column by `=` or `IN`.
abbrev pub ColumnsGiven : List BoolExpr → Index → List PlanValue → ℕ → List (List ℕ) → Type 0
ColumnsGiven cs index pks i [] = Unit {0}
ColumnsGiven cs index pks i (c ∷ columns) =
    ((v : PlanValue) × (get_elem? pks i ≡ some v) × Some (GivesKey index i v) cs)
    × ColumnsGiven cs index pks (suc i) columns

-- The conditions say of a row what the WHERE clause says, under a reading of the tests that are no
-- connectives.
abbrev pub IsSplit : (BoolExpr → Bool) → Where → List BoolExpr → Type 0
IsSplit test nil_where cs = ⊥
IsSplit test (a_where typ e) cs = holds test e ≡ all_hold test cs

-- The WHERE clause is a conjunction that gives each column of the table's PRIMARY index a value, and
-- the values of the plan are those.
abbrev pub KeyFrom : TableGetter → List ℕ → (BoolExpr → Bool) → Where → ExecPlan → Type 0
KeyFrom get_table name test w out =
    (ta : Table) × (primary : Index) × (pks : List PlanValue) × (get_table name ≡ some ta)
    × (get_elem? ta.indexes 0 ≡ some primary)
    × (primary.name ≡ codes "PRIMARY")
    × IsSplit test w (analyze_where w)
    × (out.pk_values ≡ some pks)
    × ColumnsGiven (analyze_where w) primary pks 0 primary.columns

-- What the branch by key leaves.
abbrev pub Keyed : TableGetter → List ℕ → Where → ExecPlan → Type 0
Keyed get_table name w out =
    (ta : Table) × (primary : Index) × (pks : List PlanValue) × (get_table name ≡ some ta)
    × (primary_of ta ≡ some primary)
    × (analyze_where w ≢ [])
    × (get_pk_values (analyze_where w) primary ≡ ok (some pks))
    × (out.pk_values ≡ some pks)

primary_of-first :
    (ta : Table) (primary : Index)
    → primary_of ta ≡ some primary
    → (get_elem? ta.indexes 0 ≡ some primary) × (primary.name ≡ codes "PRIMARY")
unfolding primary_of
primary_of-first ta primary e = by_indexes ta.indexes e
  where
    by_indexes :
        (indexes : List Index)
        → elim indexes [ [] ↦ none | x ∷ xs ↦ if x.name =? codes "PRIMARY" then some x else none ]
          ≡ some primary
        → (get_elem? indexes 0 ≡ some primary) × (primary.name ≡ codes "PRIMARY")
    by_indexes [] h = absurd (cc h)
    by_indexes (x ∷ xs) h = elim (Bool-cases (x.name =? codes "PRIMARY")) [
      | inl t ↦
          let same : x ≡ primary = ground (arith, t, h) in
          (ap some same, subst (λ z. z.name ≡ codes "PRIMARY") same ((=?_iff x.name _).0 t))
      | inr f ↦ absurd (ground (arith, f, h))
    ]

analyze_where-IsSplit :
    (test : BoolExpr → Bool) (w : Where) → analyze_where w ≢ [] → IsSplit test w (analyze_where w)
unfolding analyze_where
analyze_where-IsSplit test nil_where h = h refl
analyze_where-IsSplit test (a_where typ e) h = analyze_boolean-holds test e h

get_pk_values-ColumnsGiven :
    (cs : List BoolExpr) (index : Index) (pks : List PlanValue)
    → All IsPositive index.cardinality
    → get_pk_values cs index ≡ ok (some pks)
    → ColumnsGiven cs index pks 0 index.columns
get_pk_values-ColumnsGiven cs index pks positive e = from 0 index.columns (omega arith)
  where
    from :
        (i : ℕ) (columns : List (List ℕ))
        → i + length columns ≡ length index.columns
        → ColumnsGiven cs index pks i columns
    from i [] h = tt
    from i (c ∷ columns) h = (
      get_pk_values-GivesKey cs index pks i positive (omega (arith, h)) e,
      from (suc i) columns (omega (arith, h)),
    )

-- The table's indexes have the cardinalities that `Index.AddColumn` leaves.
abbrev pub IsCounted : Table → Type 0
IsCounted ta = All (λ (index : Index). All IsPositive index.cardinality) ta.indexes

first-IsCounted :
    (indexes : List Index) (x : Index)
    → All (λ (index : Index). All IsPositive index.cardinality) indexes
    → get_elem? indexes 0 ≡ some x
    → All IsPositive x.cardinality
first-IsCounted [] x h e = absurd (cc e)
first-IsCounted (y ∷ xs) x h e =
    let same : y ≡ x = cc e in subst (λ (z : Index). All IsPositive z.cardinality) same h.0

pub Keyed-KeyFrom :
    (get_table : TableGetter) (name : List ℕ) (test : BoolExpr → Bool) (w : Where) (out : ExecPlan)
    → ((ta : Table) → get_table name ≡ some ta → IsCounted ta)
    → Keyed get_table name w out
    → KeyFrom get_table name test w out
Keyed-KeyFrom get_table name test w out counted (ta, primary, pks, g, p, n, got, same) =
    let (first, named) = primary_of-first ta primary p in
    let positive = first-IsCounted ta.indexes primary (counted ta g) first in
    (
      ta,
      primary,
      pks,
      g,
      first,
      named,
      analyze_where-IsSplit test w n,
      same,
      get_pk_values-ColumnsGiven (analyze_where w) primary pks positive got,
    )
