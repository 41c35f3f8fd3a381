-- ===== src/Vt/Planbuilder/IndexAnalysis/PkValues.antt =====
-- vt/tabletserver/planbuilder/index_analysis.go: the primary key that `getPKValues` answers.
use cm.Common.{
  ℕ, zero, suc, ◌<◌, List, [], ◌∷◌, length, Bool, true, false, Option, none, some, if◌then◌else◌,
  ◌≡◌, ◌≢◌, ◌⊎◌, inl, inr, refl, sym, ap, ◌∙◌, arith, All, get_elem?, ok, >>=-eq-ok, ok-injective,
  index_at,
}
use cm.Sqlparser.Ast.{BoolExpr, ValExpr, comparison_expr}
use cm.Sqlparser.Analyzer.{PlanValue, no_value, string_in, as_interface}
use cm.Vt.Schema.{Index, find_column}
use cm.Vt.Planbuilder.IndexAnalysis.{
  IndexScore, no_match, perfect_score, zeros, new_index_score, put_at, find_match, score_from,
  get_score, key_operators, column_of, on_match, PkValues, if_perfect, pk_loop, get_pk_values,
}

-- The condition tests the index's column `i` for the value or the values `v`.
abbrev pub GivesKey : Index → ℕ → PlanValue → BoolExpr → Type 0
GivesKey index i v (comparison_expr op l r) =
    (string_in op key_operators ≡ true)
    × ((name : List ℕ) × (column_of l ≡ ok name) × (find_column index name ≡ some i))
    × (as_interface r ≡ ok v)
GivesKey index i v c = ⊥

abbrev pub Some : (BoolExpr → Type 0) → List BoolExpr → Type 0
Some P [] = ⊥
Some P (c ∷ cs) = P c ⊎ Some P cs

pub get_elem?-put_at :
    {A : Type 0} (i j : ℕ) (x y : A) (xs : List A)
    → get_elem? (put_at i x xs) j ≡ some y
    → ((j ≡ i) × (y ≡ x)) ⊎ ((j ≢ i) × (get_elem? xs j ≡ some y))
unfolding put_at
get_elem?-put_at i j x y [] h = absurd (cc h)
get_elem?-put_at zero zero x y (z ∷ zs) h = inl (refl, cc)
get_elem?-put_at zero (suc j) x y (z ∷ zs) h = inr (λ e. omega (arith, e), h)
get_elem?-put_at (suc i) zero x y (z ∷ zs) h = inr (λ e. omega (arith, e), h)
get_elem?-put_at (suc i) (suc j) x y (z ∷ zs) h = elim (get_elem?-put_at i j x y zs h) [
  | inl (p, q) ↦ inl (ap suc p, q)
  | inr (n, e) ↦ inr (λ p. n (omega (arith, p)), e)
]

pub length-put_at : {A : Type 0} (i : ℕ) (x : A) (xs : List A) → length (put_at i x xs) ≡ length xs
unfolding put_at
length-put_at i x [] = refl
length-put_at zero x (y ∷ ys) = refl
length-put_at (suc i) x (y ∷ ys) = omega (arith, length-put_at i x ys)

pub length-zeros : {A B : Type 0} (x : A) (bs : List B) → length (zeros x bs) ≡ length bs
unfolding zeros
length-zeros x [] = refl
length-zeros x (b ∷ bs) = omega (arith, length-zeros x bs)

get_elem?-zeros : {B : Type 0} (i : ℕ) (bs : List B) → get_elem? (zeros false bs) i ≢ some true
unfolding zeros
get_elem?-zeros i [] = λ e. cc
get_elem?-zeros zero (b ∷ bs) = λ e. cc
get_elem?-zeros (suc i) (b ∷ bs) = get_elem?-zeros i bs

get_elem?-length :
    {A : Type 0} (i : ℕ) (xs : List A) → i < length xs → (x : A) × (get_elem? xs i ≡ some x)
get_elem?-length i [] h = absurd (omega arith)
get_elem?-length zero (x ∷ xs) h = (x, refl)
get_elem?-length (suc i) (x ∷ xs) h = get_elem?-length i xs (omega arith)

abbrev pub IsPositive : ℕ → Type 0
IsPositive n = 0 < n

index_at-IsPositive : (xs : List ℕ) (i n : ℕ) → All IsPositive xs → index_at xs i ≡ ok n → 0 < n
index_at-IsPositive [] i n h e = cc
index_at-IsPositive (x ∷ xs) zero n h e = ground (arith, ok-injective e)
index_at-IsPositive (x ∷ xs) (suc i) n h e = index_at-IsPositive xs i n h.1 e

-- A perfect score has no column left out.
score_from-perfect :
    (cardinality : List ℕ) (i s k : ℕ) (ms : List Bool)
    → All IsPositive cardinality
    → s ≢ 0
    → score_from cardinality i s ms ≡ ok perfect_score
    → k < length ms
    → get_elem? ms k ≡ some true
unfolding score_from
score_from-perfect card i s k [] h p e l = absurd (omega arith)
score_from-perfect card i s k (false ∷ ms) h p e l = absurd (p (ok-injective e))
score_from-perfect card i s zero (true ∷ ms) h p e l = refl
score_from-perfect card i s (suc k) (true ∷ ms) h p e l =
    let (c, got, rest) = >>=-eq-ok (index_at card i) (λ c. score_from card (suc i) c ms) e in
    let pos = index_at-IsPositive card i c h got in
    score_from-perfect card (suc i) c k ms h (λ z. omega (arith, pos, z)) rest (omega arith)

if_perfect-some :
    (index : Index) (score : IndexScore) (pks out : List PlanValue)
    → if_perfect index score pks ≡ ok (some out)
    → (get_score index score ≡ ok perfect_score) × (pks ≡ out)
unfolding if_perfect
if_perfect-some index score pks out e =
    let (s, got, rest) = >>=-eq-ok (get_score index score) _ e in
    ground (arith, got, ok-injective rest)

get_score-perfect :
    (index : Index) (score : IndexScore) (k : ℕ)
    → All IsPositive index.cardinality
    → get_score index score ≡ ok perfect_score
    → k < length score.column_match
    → get_elem? score.column_match k ≡ some true
unfolding get_score
get_score-perfect index score k h e l = ground (
  arith,
  ok-injective {a = no_match} {b = perfect_score},
  score_from-perfect index.cardinality 0 no_match k score.column_match h,
)

find_match-some :
    (index : Index) (name : List ℕ) (score : IndexScore) (i : ℕ)
    → (find_match index name score).0 ≡ some i
    → (find_column index name ≡ some i)
      × ((find_match index name score).1.column_match ≡ put_at i true score.column_match)
unfolding find_match
find_match-some index name score i e = ground arith

-- A condition that the loop takes, and what it goes on with.
abbrev Taken :
    Index
    → List ℕ
    → ValExpr
    → ValExpr
    → List BoolExpr
    → IndexScore
    → List PlanValue
    → List PlanValue
    → Type 0
Taken index op l r cs score pks out =
    (string_in op key_operators ≡ true)
    × (name : List ℕ) × (j : ℕ) × (v : PlanValue) × (column_of l ≡ ok name)
    × ((find_match index name score).0 ≡ some j)
    × (as_interface r ≡ ok v)
    × (pk_loop index cs (find_match index name score).1 (put_at j v pks) ≡ ok (some out))

if-some :
    (b : Bool) (x : PkValues) (out : List PlanValue)
    → (if b then x else ok none) ≡ ok (some out)
    → (b ≡ true) × (x ≡ ok (some out))
if-some true x out e = (refl, e)
if-some false x out e = absurd (cc (ok-injective e))

on_match-some :
    (o : Option ℕ) (next : ℕ → PkValues) (out : List PlanValue)
    → on_match o next ≡ ok (some out)
    → (i : ℕ) × (o ≡ some i) × (next i ≡ ok (some out))
unfolding on_match
on_match-some none next out e = absurd (cc (ok-injective e))
on_match-some (some i) next out e = (i, refl, e)

pk_loop-Taken :
    (index : Index) (op : List ℕ) (l r : ValExpr) (cs : List BoolExpr) (score : IndexScore)
    (pks out : List PlanValue)
    → pk_loop index (comparison_expr op l r ∷ cs) score pks ≡ ok (some out)
    → Taken index op l r cs score pks out
unfolding pk_loop
pk_loop-Taken index op l r cs score pks out e =
    let (t, e1) = if-some (string_in op key_operators) _ out e in
    let (name, col, e2) = >>=-eq-ok (column_of l) _ e1 in
    let (j, found, e3) = on_match-some (find_match index name score).0 _ out e2 in
    let (v, value, e4) = >>=-eq-ok (as_interface r) _ e3 in (t, name, j, v, col, found, value, e4)

-- The value that stands for column `i` in the end, and where it comes from.
abbrev From : Index → List BoolExpr → IndexScore → List PlanValue → List PlanValue → ℕ → Type 0
From index cs score pks out i =
    (v : PlanValue) × (get_elem? out i ≡ some v)
    × (Some (GivesKey index i v) cs
        ⊎ ((get_elem? score.column_match i ≡ some true) × (get_elem? pks i ≡ some v)))

-- What a round makes of what the rest of the loop answers.
From-round :
    (index : Index) (op : List ℕ) (l r : ValExpr) (cs : List BoolExpr) (score score' : IndexScore)
    (pks out : List PlanValue) (name : List ℕ) (i j : ℕ) (v : PlanValue)
    → string_in op key_operators ≡ true
    → column_of l ≡ ok name
    → find_column index name ≡ some j
    → as_interface r ≡ ok v
    → score'.column_match ≡ put_at j true score.column_match
    → From index cs score' (put_at j v pks) out i
    → From index (comparison_expr op l r ∷ cs) score pks out i
From-round index op l r cs score score' pks out name i j v t col found value m (w, got, inl s) =
    (w, got, inl (inr s))
From-round index op l r cs score score' pks out name i j v t col found value m
      (w, got, inr (b, e)) =
    elim (get_elem?-put_at j i v w pks e) [
      | inl (p, q) ↦
          (w, got, inl (inl (t, (name, col, found ∙ ap some (sym p)), value ∙ ap ok (sym q))))
      | inr (n, e') ↦
          elim (get_elem?-put_at j i true true score.column_match
            (ap (λ z. get_elem? z i) (sym m) ∙ b)) [
              | inl (p, q) ↦ absurd (n p)
              | inr (_, b') ↦ (w, got, inr (b', e'))
            ]
    ]

From-pk_loop :
    (index : Index) (cs : List BoolExpr) (score : IndexScore) (pks out : List PlanValue) (i : ℕ)
    → All IsPositive index.cardinality
    → length score.column_match ≡ length index.columns
    → length pks ≡ length index.columns
    → i < length index.columns
    → pk_loop index cs score pks ≡ ok (some out)
    → From index cs score pks out i
unfolding pk_loop
From-pk_loop index [] score pks out i h p q l e =
    let (perfect, same) = if_perfect-some index score pks out e in
    let (v, got) = get_elem?-length i pks (omega (arith, q)) in
    (v, rw (sym same) got, inr (get_score-perfect index score i h perfect (omega (arith, p)), got))
From-pk_loop index (comparison_expr op l r ∷ cs) score pks out i h p q b e =
    let (t, name, j, v, col, found, value, rest) = pk_loop-Taken index op l r cs score pks out e in
    let (at, m) = find_match-some index name score j found in
    From-round index op l r cs score (find_match index name score).1 pks out name i j v t col at
      value m
      (From-pk_loop index cs (find_match index name score).1 (put_at j v pks) out i h
        (ap length m ∙ length-put_at j true score.column_match ∙ p) (length-put_at j v pks ∙ q) b
        rest)
From-pk_loop index (c ∷ cs) score pks out i h p q l e = absurd (cc (ok-injective e))

-- Where `getPKValues` answers values, it answers one for each column of the index, and the value is
-- that of a condition `column = value` or `column in values`. The cardinalities are positive, as
-- `Index.AddColumn` leaves them.
pub get_pk_values-GivesKey :
    (cs : List BoolExpr) (index : Index) (pks : List PlanValue) (i : ℕ)
    → All IsPositive index.cardinality
    → i < length index.columns
    → get_pk_values cs index ≡ ok (some pks)
    → (v : PlanValue) × (get_elem? pks i ≡ some v) × Some (GivesKey index i v) cs
unfolding get_pk_values new_index_score
get_pk_values-GivesKey cs index pks i h b e =
    let (v, got, source) =
      From-pk_loop index cs (new_index_score index) (zeros no_value index.columns) pks i h
        (length-zeros false index.columns) (length-zeros no_value index.columns) b e in
    elim source [ inl s ↦ (v, got, s) | inr (m, _) ↦ absurd (get_elem?-zeros i index.columns m) ]
