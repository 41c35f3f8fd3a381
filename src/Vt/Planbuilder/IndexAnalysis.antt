-- ===== src/Vt/Planbuilder/IndexAnalysis.antt =====
-- vt/tabletserver/planbuilder/index_analysis.go: the conditions matched against the indexes.
-- A score is an int64 by its 64-bit pattern. `none` is nil where a slice or a pointer may be nil.

pub mod PkValues
use cm.Common.{
  ℕ, zero, suc, ◌+◌, ◌-◌, ◌%◌, ◌^◌, String, List, [], ◌∷◌, ◌++◌, length, Bool, true, false, not,
  ◌&&◌, ◌||◌, Option, none, some, codes, leb, ◌==◌, ◌=?◌, if◌then◌else◌, Result, ok, err, panic,
  ◌>>=◌, index_at,
}
use cm.Sqlparser.Ast.{
  BoolExpr, ValExpr, ColName, comparison_expr, range_cond, and_expr, or_expr, not_expr,
  paren_bool_expr, null_check, exists_expr, col_name,
}
use cm.Sqlparser.Analyzer.{PlanValue, no_value, string_in, as_interface}
use cm.Vt.Schema.{Index, find_column, find_data_column}

-- Without the index that it points to.
pub record IndexScore : Type 0 where
  pub column_match : List Bool
  pub match_failed : Bool

abbrev pub no_match : ℕ
no_match = 2 ^ 64 - 1

abbrev pub perfect_score : ℕ
perfect_score = 0

-- `make([]T, n)`
unfoldable pub zeros {ℓ} : {A : Type ℓ} {B : Type 0} → A → List B → List A
zeros x [] = []
zeros x (b ∷ bs) = x ∷ zeros x bs

unfoldable pub new_index_score : Index → IndexScore
new_index_score index = record { column_match = zeros false index.columns; match_failed = false }

-- `xs[i] = x`, where the index is in range.
unfoldable pub put_at {ℓ} : {A : Type ℓ} → ℕ → A → List A → List A
put_at i x [] = []
put_at zero x (y ∷ ys) = x ∷ ys
put_at (suc i) x (y ∷ ys) = y ∷ put_at i x ys

-- The position of the column, or `none` for -1, and the score that is left.
unfoldable pub find_match : Index → List ℕ → IndexScore → Option ℕ × IndexScore
find_match index name score = elim score.match_failed [
  | true ↦ (none, score)
  | false ↦ elim (find_column index name) [
    | some i ↦ (some i, record score { column_match = put_at i true score.column_match })
    | none ↦ elim (find_data_column index name) [
      | some j ↦ (none, score)
      | none ↦ (none, record score { match_failed = true })
    ]
  ]
]

-- The loop over `ColumnMatch[i:]`, where the score stands at `score`.
unfoldable pub score_from : List ℕ → ℕ → ℕ → List Bool → Result ℕ
score_from cardinality i score [] = ok perfect_score
score_from cardinality i score (false ∷ ms) = ok score
score_from cardinality i score (true ∷ ms) = do
  c ← index_at cardinality i
  score_from cardinality (suc i) c ms

unfoldable pub get_score : Index → IndexScore → Result ℕ
get_score index score =
    if score.match_failed
    then ok no_match
    else score_from index.cardinality 0 no_match score.column_match

abbrev pub key_operators : List String
key_operators = "=" ∷ "in" ∷ []

-- The type assertion `.(*ColName)`.
unfoldable pub column_of : ValExpr → Result (List ℕ)
column_of (col_name c) = ok c.name
column_of e = panic

abbrev pub PkValues : Type 0
PkValues = Result (Option (List PlanValue))

-- The end of `getPKValues`.
unfoldable pub if_perfect : Index → IndexScore → List PlanValue → PkValues
if_perfect index score pks = do
  s ← get_score index score
  ok (if s == perfect_score then some pks else none)

-- `if index == -1 { return nil, nil }`
unfoldable pub on_match : Option ℕ → (ℕ → PkValues) → PkValues
on_match none next = ok none
on_match (some i) next = next i

unfoldable pub pk_loop : Index → List BoolExpr → IndexScore → List PlanValue → PkValues
pk_loop index [] score pks = if_perfect index score pks
pk_loop index (comparison_expr op l r ∷ cs) score pks =
    if string_in op key_operators
    then column_of l >>= (λ name. on_match (find_match index name score).0 (λ i.
      as_interface r >>= (λ v. pk_loop index cs (find_match index name score).1 (put_at i v pks))))
    else ok none
pk_loop index (c ∷ cs) score pks = ok none

unfoldable pub get_pk_values : List BoolExpr → Index → PkValues
get_pk_values conditions index =
    pk_loop index conditions (new_index_score index) (zeros no_value index.columns)

-- The column that a condition of `getIndexMatch` tests.
tested_column : BoolExpr → Result (List ℕ)
tested_column (comparison_expr op l r) = column_of l
tested_column (range_cond op e from to) = column_of e
tested_column c = panic

tested_columns : List BoolExpr → Result (List (List ℕ))
tested_columns [] = ok []
tested_columns (c ∷ cs) = do name ← tested_column c; names ← tested_columns cs; ok (name ∷ names)

-- What the columns leave of one index's score.
match_all : List (List ℕ) → Index → IndexScore → IndexScore
match_all [] index score = score
match_all (name ∷ names) index score = match_all names index (find_match index name score).1

-- `a >= b` on int64.
abbrev at_least : ℕ → ℕ → Bool
at_least a b = leb ((b + 2 ^ 63) % 2 ^ 64) ((a + 2 ^ 63) % 2 ^ 64)

-- The loop over the indexes, with the best so far.
best_index : List (List ℕ) → List Index → ℕ → Option Index → Result (Option Index)
best_index names [] high best = ok best
best_index names (x ∷ xs) high best = do
  s ← get_score x (match_all names x (new_index_score x))
  let skip = best_index names xs high best
  let better = best_index names xs s (some x)
  if s == no_match
      then skip
      else if s == perfect_score
      then ok (some x)
      else if at_least s high
      then better
      else skip

pub get_index_match : List BoolExpr → List Index → Result (Option Index)
get_index_match conditions indexes = do
  names ← tested_columns conditions
  best_index names indexes no_match none
