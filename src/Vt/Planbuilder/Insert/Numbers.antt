-- ===== src/Vt/Planbuilder/Insert/Numbers.antt =====
-- vt/tabletserver/planbuilder/insert.go: the column numbers of the key of an INSERT.
use cm.Common.{
  ℕ, zero, suc, ◌+◌, ◌<◌, List, [], ◌∷◌, length, get_elem?, Option, none, some, ok, ◌≡◌, inl, inr,
  refl, subst, sym, ap, ◌∙◌, arith, ok-injective,
}
use cm.Sqlparser.Ast.{SelectExpr, SelectExprs, no_selects, selects, star_expr, non_star_expr}
use cm.Sqlparser.Analyzer.{get_col_name}
use cm.Vt.Schema.{Table, Index, find_column}
use cm.Vt.Planbuilder.IndexAnalysis.{zeros, put_at}
use cm.Vt.Planbuilder.IndexAnalysis.PkValues.{length-zeros}
use cm.Vt.Planbuilder.Insert.{place, number_columns, get_insert_pk_columns}
use cm.Vt.Planbuilder.Insert.Columns.{
  column_at, NamesKey, get_elem?-zeros, length-place, number_columns-Numbered,
  length-number_columns,
}

get_elem?-lt : {A : Type 0} (xs : List A) (i : ℕ) (x : A) → get_elem? xs i ≡ some x → i < length xs
get_elem?-lt [] i x e = absurd (cc e)
get_elem?-lt (y ∷ xs) zero x e = omega arith
get_elem?-lt (y ∷ xs) (suc i) x e = omega (arith, get_elem?-lt xs i x e)

-- A number that is there stays there, or a later column of the statement takes its place.
stays-put_at :
    {A : Type 0} (i j : ℕ) (x y : A) (xs : List (Option A))
    → get_elem? xs j ≡ some (some y)
    → (z : A) × (get_elem? (put_at i (some x) xs) j ≡ some (some z))
unfolding put_at
stays-put_at i j x y [] h = absurd (cc h)
stays-put_at zero zero x y (o ∷ xs) h = (x, refl)
stays-put_at zero (suc j) x y (o ∷ xs) h = (y, h)
stays-put_at (suc i) zero x y (o ∷ xs) h = (y, h)
stays-put_at (suc i) (suc j) x y (o ∷ xs) h = stays-put_at i j x y xs h

stays-place :
    (found : Option ℕ) (i j n : ℕ) (numbers : List (Option ℕ))
    → get_elem? numbers j ≡ some (some n)
    → (m : ℕ) × (get_elem? (place found i numbers) j ≡ some (some m))
unfolding place
stays-place none i j n numbers h = (n, h)
stays-place (some k) i j n numbers h = stays-put_at k j i n numbers h

put_at-there :
    {A : Type 0} (j : ℕ) (x : A) (xs : List A)
    → j < length xs
    → get_elem? (put_at j x xs) j ≡ some x
unfolding put_at
put_at-there j x [] h = absurd (omega arith)
put_at-there zero x (y ∷ xs) h = refl
put_at-there (suc j) x (y ∷ xs) h = put_at-there j x xs (omega arith)

stays-number_columns :
    (i : ℕ) (cs : SelectExprs) (pk : Index) (numbers out : List (Option ℕ)) (j n : ℕ)
    → number_columns i cs pk numbers ≡ ok out
    → get_elem? numbers j ≡ some (some n)
    → (m : ℕ) × (get_elem? out j ≡ some (some m))
unfolding number_columns
stays-number_columns i no_selects pk numbers out j n e h =
    (n, ap (λ z. get_elem? z j) (sym (ok-injective e)) ∙ h)
stays-number_columns i (selects (star_expr t) cs) pk numbers out j n e h = absurd (cc e)
stays-number_columns i (selects (non_star_expr c as_name) cs) pk numbers out j n e h =
    let (m, k) = stays-place (find_column pk (get_col_name c)) i j n numbers h in
    stays-number_columns (suc i) cs pk (place (find_column pk (get_col_name c)) i numbers) out j m e
      k

-- A column of the key that the statement names gets a number.
number_columns-named :
    (i : ℕ) (cs : SelectExprs) (pk : Index) (numbers out : List (Option ℕ)) (j k : ℕ)
    → number_columns i cs pk numbers ≡ ok out
    → j < length numbers
    → NamesKey cs pk k j
    → (m : ℕ) × (get_elem? out j ≡ some (some m))
unfolding number_columns column_at place
number_columns-named i no_selects pk numbers out j k e h (name, at, found) = absurd (cc at)
number_columns-named i (selects (star_expr t) cs) pk numbers out j k e h names = absurd (cc e)
number_columns-named i (selects (non_star_expr c as_name) cs) pk numbers out j zero e h
      (name, at, found) =
    let same : find_column pk (get_col_name c) ≡ some j = ap (find_column pk) (cc at) ∙ found in
    stays-number_columns (suc i) cs pk (place (find_column pk (get_col_name c)) i numbers) out j i e
      (rw same (put_at-there j (some i) numbers h))
number_columns-named i (selects (non_star_expr c as_name) cs) pk numbers out j (suc k) e h names =
    number_columns-named (suc i) cs pk (place (find_column pk (get_col_name c)) i numbers) out j k e
      (omega (arith, h, length-place (find_column pk (get_col_name c)) i numbers)) names

-- What the number of the key's column `j` says of the statement's columns: without a number none of
-- them names that column.
abbrev pub NumberOf : SelectExprs → Index → ℕ → Option ℕ → Type 0
NumberOf cs pk j none = (k : ℕ) → ¬ (NamesKey cs pk k j)
NumberOf cs pk j (some n) = NamesKey cs pk n j

-- One number for each column of the key, the first of which is its column `j`.
abbrev pub NumbersOf : SelectExprs → Index → ℕ → List (List ℕ) → List (Option ℕ) → Type 0
NumbersOf cs pk j [] [] = Unit {0}
NumbersOf cs pk j [] (n ∷ ns) = ⊥
NumbersOf cs pk j (c ∷ columns) [] = ⊥
NumbersOf cs pk j (c ∷ columns) (n ∷ ns) = NumberOf cs pk j n × NumbersOf cs pk (suc j) columns ns

NumbersOf-each :
    (cs : SelectExprs) (pk : Index) (j : ℕ) (columns : List (List ℕ)) (ns : List (Option ℕ))
    → length ns ≡ length columns
    → ((k : ℕ) (number : Option ℕ) → get_elem? ns k ≡ some number → NumberOf cs pk (j + k) number)
    → NumbersOf cs pk j columns ns
NumbersOf-each cs pk j [] [] h each = tt
NumbersOf-each cs pk j [] (n ∷ ns) h each = absurd (cc h)
NumbersOf-each cs pk j (c ∷ columns) [] h each = absurd (cc h)
NumbersOf-each cs pk j (c ∷ columns) (n ∷ ns) h each =
    let first : j + 0 ≡ j = omega arith in
    (
      subst (λ z. NumberOf cs pk z n) first (each 0 n refl),
      NumbersOf-each cs pk (suc j) columns ns (omega (arith, h)) (λ k number at.
          let next : j + suc k ≡ suc j + k = omega arith in
          subst (λ z. NumberOf cs pk z number) next (each (suc k) number at)),
    )

-- Where an INSERT lists columns, `getInsertPKColumns` answers a number or none for each column of the
-- key: the column of the statement that a number stands for has the name of that column of the key,
-- and where there is no number, no column of the statement has it.
pub get_insert_pk_columns-NumbersOf :
    (c : SelectExpr) (cs : SelectExprs) (ta : Table) (pk : Index) (out : List (Option ℕ))
    → get_insert_pk_columns (selects c cs) ta pk ≡ ok out
    → NumbersOf (selects c cs) pk 0 pk.columns out
unfolding get_insert_pk_columns
get_insert_pk_columns-NumbersOf c cs ta pk out e =
    NumbersOf-each (selects c cs) pk 0 pk.columns out long (λ k number got.
      let same : k ≡ 0 + k = omega arith in
      subst (λ z. NumberOf (selects c cs) pk z number) (same) (each k number got))
  where
    start : List (Option ℕ)
    start = zeros none pk.columns

    long : length out ≡ length pk.columns
    long = length-number_columns 0 (selects c cs) pk start out e ∙ length-zeros none pk.columns

    each :
        (k : ℕ) (number : Option ℕ)
        → get_elem? out k ≡ some number
        → NumberOf (selects c cs) pk k number
    each k none got = λ i names.
        let bound : k < length start =
          omega (arith, get_elem?-lt out k none got, long, length-zeros none pk.columns) in
        let (m, other) = number_columns-named 0 (selects c cs) pk start out k i e bound names in
        cc (got, other)
    each k (some n) got = elim (number_columns-Numbered 0 (selects c cs) pk start out k n e got) [
      | inl h ↦ absurd (get_elem?-zeros k n pk.columns h)
      | inr (m, p, names) ↦ subst (λ z. NamesKey (selects c cs) pk z k) (omega (arith, p)) names
    ]
