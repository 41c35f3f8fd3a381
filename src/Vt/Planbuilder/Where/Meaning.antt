-- ===== src/Vt/Planbuilder/Where/Meaning.antt =====
-- vt/tabletserver/planbuilder/select.go: what the conditions say of a row.
use cm.Common.{
  ℕ, ◌+◌, ◌≤◌, List, [], ◌∷◌, ◌++◌, Bool, true, false, not, ◌&&◌, ◌||◌, ◌≡◌, ◌≢◌, refl, arith,
  if◌then◌else◌,
}
use cm.Sqlparser.Ast.{
  BoolExpr, ValExpr, and_expr, or_expr, not_expr, paren_bool_expr, comparison_expr, range_cond,
  null_check, exists_expr,
}
use cm.Sqlparser.Analyzer.{is_col_name, is_value, is_in_clause, has_in_clause, is_simple_tuple}
use cm.Vt.Planbuilder.Where.{analyze_boolean, analyze_comparison, join_conditions}

-- The truth of an expression on a row, under a reading of the tests that are no connectives. A row is
-- selected if the expression is true, so a test that is NULL reads as false below `and`.
pub holds : (BoolExpr → Bool) → BoolExpr → Bool
holds test (and_expr l r) = holds test l && holds test r
holds test (or_expr l r) = holds test l || holds test r
holds test (not_expr e) = not (holds test e)
holds test (paren_bool_expr e) = holds test e
holds test (comparison_expr op l r) = test (comparison_expr op l r)
holds test (range_cond op e from to) = test (range_cond op e from to)
holds test (null_check op e) = test (null_check op e)
holds test (exists_expr s) = test (exists_expr s)

pub all_hold : (BoolExpr → Bool) → List BoolExpr → Bool
all_hold test [] = true
all_hold test (c ∷ cs) = test c && all_hold test cs

all_hold-append :
    (test : BoolExpr → Bool) (xs ys : List BoolExpr)
    → all_hold test (xs ++ ys) ≡ (all_hold test xs && all_hold test ys)
unfolding all_hold
all_hold-append test [] ys = refl
all_hold-append test (x ∷ xs) ys = ground (arith, all_hold-append test xs ys)

join_conditions-ne-nil :
    (xs ys : List BoolExpr)
    → join_conditions xs ys ≢ []
    → (xs ≢ [])
      × (ys ≢ [])
      × (join_conditions xs ys ≡ xs ++ ys)
      × ((has_in_clause xs && has_in_clause ys) ≡ false)
unfolding join_conditions
join_conditions-ne-nil [] ys h = absurd (h refl)
join_conditions-ne-nil (x ∷ xs) [] h = absurd (h refl)
join_conditions-ne-nil (x ∷ xs) (y ∷ ys) h = ground arith

analyze_comparison-holds :
    (test : BoolExpr → Bool) (op : List ℕ) (l r : ValExpr)
    → analyze_comparison op l r ≢ []
    → test (comparison_expr op l r) ≡ all_hold test (analyze_comparison op l r)
unfolding analyze_comparison all_hold
analyze_comparison-holds test op l r h = ground arith

-- The conditions that `analyzeBoolean` answers say of a row what the expression says, where it
-- answers any.
pub analyze_boolean-holds :
    (test : BoolExpr → Bool) (e : BoolExpr)
    → analyze_boolean e ≢ []
    → holds test e ≡ all_hold test (analyze_boolean e)
unfolding holds analyze_boolean
analyze_boolean-holds test (and_expr l r) h =
    let (p, q, e, _) = join_conditions-ne-nil (analyze_boolean l) (analyze_boolean r) h in
    rw
      (
        e,
        all_hold-append test (analyze_boolean l) (analyze_boolean r),
        analyze_boolean-holds test l p,
        analyze_boolean-holds test r q,
      )
      refl
analyze_boolean-holds test (paren_bool_expr e) h = analyze_boolean-holds test e h
analyze_boolean-holds test (comparison_expr op l r) h = analyze_comparison-holds test op l r h
analyze_boolean-holds test (range_cond op e from to) h = unfold all_hold in ground arith
analyze_boolean-holds test (or_expr l r) h = absurd (h refl)
analyze_boolean-holds test (not_expr e) h = absurd (h refl)
analyze_boolean-holds test (null_check op e) h = absurd (h refl)
analyze_boolean-holds test (exists_expr s) h = absurd (h refl)

-- How many of the conditions are IN clauses.
pub in_clauses : List BoolExpr → ℕ
in_clauses [] = 0
in_clauses (c ∷ cs) = (if is_in_clause c then 1 else 0) + in_clauses cs

in_clauses-append : (xs ys : List BoolExpr) → in_clauses (xs ++ ys) ≡ in_clauses xs + in_clauses ys
unfolding in_clauses
in_clauses-append [] ys = omega arith
in_clauses-append (x ∷ xs) ys = ground (arith, in_clauses-append xs ys)

no_in_clause : (xs : List BoolExpr) → has_in_clause xs ≡ false → in_clauses xs ≡ 0
unfolding in_clauses has_in_clause
no_in_clause [] h = refl
no_in_clause (x ∷ xs) h = ground (arith, no_in_clause xs)

in_clauses-nil : in_clauses [] ≡ 0
unfolding in_clauses
in_clauses-nil = refl

in_clauses-join :
    (xs ys : List BoolExpr)
    → in_clauses xs ≤ 1
    → in_clauses ys ≤ 1
    → in_clauses (join_conditions xs ys) ≤ 1
unfolding join_conditions
in_clauses-join [] ys h k = h
in_clauses-join (x ∷ xs) [] h k = unfold in_clauses in omega arith
in_clauses-join (x ∷ xs) (y ∷ ys) h k = ground (
  arith,
  in_clauses-nil,
  in_clauses-append (x ∷ xs) (y ∷ ys),
  no_in_clause (x ∷ xs),
  no_in_clause (y ∷ ys),
)

-- At most one of the conditions that `analyzeBoolean` answers is an IN clause.
pub in_clauses-analyze_boolean : (e : BoolExpr) → in_clauses (analyze_boolean e) ≤ 1
unfolding analyze_boolean analyze_comparison
in_clauses-analyze_boolean (and_expr l r) =
    in_clauses-join (analyze_boolean l) (analyze_boolean r) (in_clauses-analyze_boolean l)
      (in_clauses-analyze_boolean r)
in_clauses-analyze_boolean (paren_bool_expr e) = in_clauses-analyze_boolean e
in_clauses-analyze_boolean (comparison_expr op l r) = unfold in_clauses in ground (arith)
in_clauses-analyze_boolean (range_cond op e from to) = unfold in_clauses in ground arith
in_clauses-analyze_boolean (or_expr l r) = unfold in_clauses in omega arith
in_clauses-analyze_boolean (not_expr e) = unfold in_clauses in omega arith
in_clauses-analyze_boolean (null_check op e) = unfold in_clauses in omega arith
in_clauses-analyze_boolean (exists_expr s) = unfold in_clauses in omega arith

-- A test of a column: what the analysis of the keys and indexes relies on.
pub is_column_test : BoolExpr → Bool
is_column_test (comparison_expr op l r) = is_col_name l && (is_value r || is_simple_tuple r)
is_column_test (range_cond op e from to) = is_col_name e && (is_value from && is_value to)
is_column_test c = false

all_hold-join :
    (test : BoolExpr → Bool) (xs ys : List BoolExpr)
    → all_hold test xs ≡ true
    → all_hold test ys ≡ true
    → all_hold test (join_conditions xs ys) ≡ true
unfolding join_conditions
all_hold-join test [] ys h k = h
all_hold-join test (x ∷ xs) [] h k = k
all_hold-join test (x ∷ xs) (y ∷ ys) h k =
    let nil : all_hold test [] ≡ true = unfold all_hold in refl in
    ground (arith, nil, all_hold-append test (x ∷ xs) (y ∷ ys))

-- Every condition that `analyzeBoolean` answers compares a column with a value, a list of values or a
-- range of values.
pub analyze_boolean-is_column_test :
    (e : BoolExpr) → all_hold is_column_test (analyze_boolean e) ≡ true
unfolding analyze_boolean analyze_comparison all_hold is_column_test
analyze_boolean-is_column_test (and_expr l r) =
    all_hold-join is_column_test (analyze_boolean l) (analyze_boolean r)
      (analyze_boolean-is_column_test l) (analyze_boolean-is_column_test r)
analyze_boolean-is_column_test (paren_bool_expr e) = analyze_boolean-is_column_test e
analyze_boolean-is_column_test (comparison_expr op l r) = ground arith
analyze_boolean-is_column_test (range_cond op e from to) = ground arith
analyze_boolean-is_column_test (or_expr l r) = refl
analyze_boolean-is_column_test (not_expr e) = refl
analyze_boolean-is_column_test (null_check op e) = refl
analyze_boolean-is_column_test (exists_expr s) = refl
