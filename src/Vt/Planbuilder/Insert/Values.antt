-- ===== src/Vt/Planbuilder/Insert/Values.antt =====
-- vt/tabletserver/planbuilder/insert.go: the values of the key of an INSERT, described without the
-- loops over the rows.
use cm.Common.{
  ℕ, zero, suc, List, [], ◌∷◌, get_elem?, Bool, true, false, Option, none, some, Result, ok, err,
  panic, ◌>>=◌, >>=-eq-ok, ok-injective, ◌≡◌, refl, subst, sym, ap, ◌∙◌, index_at, column_count,
}
use cm.Sqlparser.Ast.{ValExpr, ValExprs, RowTuple, row_tuple, no_vals, vals}
use cm.Sqlparser.Ast
use cm.Sqlparser.Analyzer.{
  PlanValue, PlanValues, no_value, default_value, value_list, no_values, values, is_value,
  as_interface,
}
use cm.Vt.Schema.{Table, TableColumn, get_pk_column}
use cm.Vt.Planbuilder.Insert.{
  key_value, value_at, value_of_row, values_of_rows, one_or_list, default_of,
}

pub exprs_of : ValExprs → List ValExpr
exprs_of no_vals = []
exprs_of (vals e es) = e ∷ exprs_of es

-- The row is a tuple that has a value in the column `n`, and `x` is that value.
abbrev pub RowGives : ℕ → RowTuple → PlanValue → Type 0
RowGives n (Ast.row_subquery s) x = ⊥
RowGives n (row_tuple es) x =
    (e : ValExpr) × (get_elem? (exprs_of es) n ≡ some e)
    × (is_value e ≡ true)
    × (as_interface e ≡ ok x)

-- One value for each row.
abbrev pub RowsGive : ℕ → List RowTuple → List PlanValue → Type 0
RowsGive n [] [] = Unit {0}
RowsGive n [] (x ∷ xs) = ⊥
RowsGive n (r ∷ rs) [] = ⊥
RowsGive n (r ∷ rs) (x ∷ xs) = RowGives n r x × RowsGive n rs xs

pub listed : List PlanValue → PlanValues
listed [] = no_values
listed (x ∷ xs) = values x (listed xs)

-- The value of the only row, or the list of the values of several rows.
abbrev pub IsAnswer : List PlanValue → PlanValue → Type 0
IsAnswer (x ∷ []) v = v ≡ x
IsAnswer [] v = v ≡ value_list (listed [])
IsAnswer (x ∷ y ∷ xs) v = v ≡ value_list (listed (x ∷ y ∷ xs))

-- What a column without a value of its own holds.
abbrev pub IsDefault : Option (List ℕ) → PlanValue → Type 0
IsDefault none v = v ≡ no_value
IsDefault (some s) v = v ≡ default_value s

-- The value of the key's column `i`: without a number the default of the table's column that the
-- key's column `i` is, and under a number what the rows have in that column.
abbrev pub KeyGiven : Table → List RowTuple → ℕ → Option ℕ → PlanValue → Type 0
KeyGiven ta rows i none v =
    (k : ℕ) × (c : TableColumn) × (get_elem? ta.pk_columns i ≡ some k)
    × (get_elem? ta.columns k ≡ some c)
    × IsDefault c.default_value v
KeyGiven ta rows i (some n) v = (xs : List PlanValue) × RowsGive n rows xs × IsAnswer xs v

index_at-ok :
    {A : Type 0} (xs : List A) (i : ℕ) (x : A) → index_at xs i ≡ ok x → get_elem? xs i ≡ some x
index_at-ok [] i x e = absurd (cc e)
index_at-ok (y ∷ xs) zero x e = ap some (ok-injective e)
index_at-ok (y ∷ xs) (suc i) x e = index_at-ok xs i x e

default_of-IsDefault : (d : Option (List ℕ)) → IsDefault d (default_of d)
unfolding default_of
default_of-IsDefault none = refl
default_of-IsDefault (some s) = refl

value_at-exprs_of : (n : ℕ) (es : ValExprs) → value_at n es ≡ get_elem? (exprs_of es) n
unfolding value_at exprs_of
value_at-exprs_of zero no_vals = refl
value_at-exprs_of (suc n) no_vals = refl
value_at-exprs_of zero (vals e es) = refl
value_at-exprs_of (suc n) (vals e es) = value_at-exprs_of n es

value_of_row-RowGives :
    (n : ℕ) (r : RowTuple) (x : PlanValue) → value_of_row n r ≡ ok (some x) → RowGives n r x
unfolding value_of_row
value_of_row-RowGives n (Ast.row_subquery s) x h = absurd (cc h)
value_of_row-RowGives n (row_tuple es) x h =
    by_value (value_at n es) (sym (value_at-exprs_of n es)) h
  where
    by_test :
        (e : ValExpr) (t : Bool)
        → is_value e ≡ t
        → elim t [ false ↦ ok none | true ↦ as_interface e >>= λ v. ok (some v) ] ≡ ok (some x)
        → (is_value e ≡ true) × (as_interface e ≡ ok x)
    by_test e false p k = absurd (cc (ok-injective k))
    by_test e true p k =
        let (v, got, same) = >>=-eq-ok (as_interface e) _ k in
        let v_is_x : v ≡ x = cc (ok-injective same) in (p, got ∙ ap ok v_is_x)

    by_value :
        (found : Option ValExpr)
        → get_elem? (exprs_of es) n ≡ found
        → elim found [
          | none ↦ err column_count
          | some e ↦ elim (is_value e) [
            | false ↦ ok none
            | true ↦ as_interface e >>= λ v. ok (some v)
          ]
        ]
          ≡ ok (some x)
        → RowGives n (row_tuple es) x
    by_value none p k = absurd (cc k)
    by_value (some e) p k = let (t, got) = by_test e (is_value e) refl k in (e, p, t, got)

split_rows :
    (found : Option PlanValue) (more : Result (Option PlanValues)) (vs : PlanValues)
    → elim found [
      | none ↦ ok none
      | some v ↦ more >>= λ rest. ok (elim rest [ none ↦ none | some ws ↦ some (values v ws) ])
    ]
      ≡ ok (some vs)
    → (v : PlanValue) × (ws : PlanValues) × (found ≡ some v)
      × (more ≡ ok (some ws))
      × (vs ≡ values v ws)
split_rows none more vs e = absurd (cc (ok-injective e))
split_rows (some v) panic vs e = absurd (cc e)
split_rows (some v) (err x) vs e = absurd (cc e)
split_rows (some v) (ok none) vs e = absurd (cc (ok-injective e))
split_rows (some v) (ok (some ws)) vs e = (v, ws, refl, refl, cc (ok-injective e))

values_of_rows-RowsGive :
    (n : ℕ) (rows : List RowTuple) (vs : PlanValues)
    → values_of_rows n rows ≡ ok (some vs)
    → (xs : List PlanValue) × RowsGive n rows xs × (vs ≡ listed xs)
unfolding values_of_rows listed
values_of_rows-RowsGive n [] vs e = ([], tt, cc (ok-injective e))
values_of_rows-RowsGive n (r ∷ rs) vs e =
    let (found, got, e1) = >>=-eq-ok (value_of_row n r) _ e in
    let (v, ws, f, more, p) = split_rows found (values_of_rows n rs) vs e1 in
    let (xs, give, same) = values_of_rows-RowsGive n rs ws more in
    (v ∷ xs, (value_of_row-RowGives n r v (got ∙ ap ok f), give), p ∙ ap (values v) same)

one_or_list-IsAnswer : (xs : List PlanValue) → IsAnswer xs (one_or_list (listed xs))
unfolding one_or_list listed
one_or_list-IsAnswer [] = refl
one_or_list-IsAnswer (x ∷ []) = refl
one_or_list-IsAnswer (x ∷ y ∷ xs) = refl

pub key_value-KeyGiven :
    (i : ℕ) (number : Option ℕ) (rows : List RowTuple) (ta : Table) (v : PlanValue)
    → key_value i number rows ta ≡ ok (some v)
    → KeyGiven ta rows i number v
unfolding key_value get_pk_column
key_value-KeyGiven i none rows ta v e =
    let (c, at, same) = >>=-eq-ok (get_pk_column ta i) _ e in
    let (k, first, second) = >>=-eq-ok (index_at ta.pk_columns i) _ at in
    let is_v : default_of c.default_value ≡ v = cc (ok-injective same) in
    (
      k,
      c,
      index_at-ok ta.pk_columns i k first,
      index_at-ok ta.columns k c second,
      subst (IsDefault c.default_value) (is_v) (default_of-IsDefault c.default_value),
    )
key_value-KeyGiven i (some n) rows ta v e =
    let (found, got, same) = >>=-eq-ok (values_of_rows n rows) _ e in by_found found got same
  where
    by_found :
        (found : Option PlanValues)
        → values_of_rows n rows ≡ ok found
        → ◌≡◌ {A = Result (Option PlanValue)}
            (ok (elim found [ none ↦ none | some vs ↦ some (one_or_list vs) ]))
            (ok (some v))
        → KeyGiven ta rows i (some n) v
    by_found none got same = absurd (cc (ok-injective same))
    by_found (some vs) got same =
        let (xs, give, listed_xs) = values_of_rows-RowsGive n rows vs got in
        let is_v : one_or_list (listed xs) ≡ v = cc (ok-injective same, listed_xs) in
        (xs, give, subst (IsAnswer xs) (is_v) (one_or_list-IsAnswer xs))
