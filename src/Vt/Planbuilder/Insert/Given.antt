-- ===== src/Vt/Planbuilder/Insert/Given.antt =====
-- vt/tabletserver/planbuilder/insert.go: which rows the values of the key of an INSERT come from.
use cm.Common.{
  ℕ, suc, List, [], ◌∷◌, Option, none, some, Result, ok, err, panic, ◌>>=◌, >>=-eq-ok, ok-injective,
  ◌≡◌, refl, subst, sym, ap, ◌∙◌,
}
use cm.Sqlparser.Ast.{RowTuple}
use cm.Sqlparser.Analyzer.{PlanValue}
use cm.Vt.Schema.{Table}
use cm.Vt.Planbuilder.Insert.{get_insert_pk_values, key_value}
use cm.Vt.Planbuilder.Insert.Values.{KeyGiven, key_value-KeyGiven}

-- One value for each number, the first of which is that of the key's column `i`.
abbrev pub KeysGiven : Table → List RowTuple → ℕ → List (Option ℕ) → List PlanValue → Type 0
KeysGiven ta rows i [] [] = Unit {0}
KeysGiven ta rows i [] (v ∷ vs) = ⊥
KeysGiven ta rows i (n ∷ ns) [] = ⊥
KeysGiven ta rows i (n ∷ ns) (v ∷ vs) = KeyGiven ta rows i n v × KeysGiven ta rows (suc i) ns vs

split_values :
    (found : Option PlanValue) (more : Result (Option (List PlanValue))) (pks : List PlanValue)
    → elim found [
      | none ↦ ok none
      | some v ↦ more >>= λ rest. ok (elim rest [ none ↦ none | some vs ↦ some (v ∷ vs) ])
    ]
      ≡ ok (some pks)
    → (v : PlanValue) × (vs : List PlanValue) × (found ≡ some v)
      × (more ≡ ok (some vs))
      × (pks ≡ v ∷ vs)
split_values none more pks e = absurd (cc (ok-injective e))
split_values (some v) panic pks e = absurd (cc e)
split_values (some v) (err x) pks e = absurd (cc e)
split_values (some v) (ok none) pks e = absurd (cc (ok-injective e))
split_values (some v) (ok (some vs)) pks e = (v, vs, refl, refl, cc (ok-injective e))

KeysGiven-from :
    (i : ℕ) (numbers : List (Option ℕ)) (rows : List RowTuple) (ta : Table) (pks : List PlanValue)
    → get_insert_pk_values i numbers rows ta ≡ ok (some pks)
    → KeysGiven ta rows i numbers pks
unfolding get_insert_pk_values
KeysGiven-from i [] rows ta pks e =
    let nothing : [] ≡ pks = cc (ok-injective e) in subst (KeysGiven ta rows i []) nothing tt
KeysGiven-from i (n ∷ ns) rows ta pks e =
    let (found, key, e1) = >>=-eq-ok (key_value i n rows ta) _ e in
    let (v, vs, f, more, p) = split_values found (get_insert_pk_values (suc i) ns rows ta) pks e1 in
    subst (KeysGiven ta rows i (n ∷ ns)) (sym p)
      (key_value-KeyGiven i n rows ta v (key ∙ ap ok f), KeysGiven-from (suc i) ns rows ta vs more)

-- Where `getInsertPKValues` answers values, it answers one for each column number. Without a number
-- it is the default of the table's column that the key's column is. Under a number each row is a
-- tuple of expressions, the one in that column is a value, and the answer is that value where there
-- is one row, and the list of the rows' values, in their order, where there is another number of rows.
pub get_insert_pk_values-KeysGiven :
    (numbers : List (Option ℕ)) (rows : List RowTuple) (ta : Table) (pks : List PlanValue)
    → get_insert_pk_values 0 numbers rows ta ≡ ok (some pks)
    → KeysGiven ta rows 0 numbers pks
get_insert_pk_values-KeysGiven numbers rows ta pks e = KeysGiven-from 0 numbers rows ta pks e
