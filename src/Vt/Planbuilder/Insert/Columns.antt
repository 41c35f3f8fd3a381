-- ===== src/Vt/Planbuilder/Insert/Columns.antt =====
-- vt/tabletserver/planbuilder/insert.go: the loop that numbers the columns of an INSERT.
use cm.Common.{
  ℕ, zero, suc, ◌+◌, List, [], ◌∷◌, length, get_elem?, Option, none, some, ok, ok-injective, ◌≡◌,
  ◌≢◌, ◌⊎◌, inl, inr, refl, sym, ap, ◌∙◌, arith,
}
use cm.Sqlparser.Ast.{Expr, SelectExprs, no_selects, selects, star_expr, non_star_expr}
use cm.Sqlparser.Analyzer.{get_col_name}
use cm.Vt.Schema.{Index, find_column}
use cm.Vt.Planbuilder.IndexAnalysis.{zeros}
use cm.Vt.Planbuilder.IndexAnalysis.PkValues.{get_elem?-put_at, length-put_at}
use cm.Vt.Planbuilder.Insert.{place, number_columns}

-- The name of the statement's column.
unfoldable pub column_at : ℕ → SelectExprs → Option (List ℕ)
column_at i no_selects = none
column_at zero (selects (star_expr t) cs) = none
column_at zero (selects (non_star_expr e as_name) cs) = some (get_col_name e)
column_at (suc i) (selects c cs) = column_at i cs

-- The statement's column `n` is the key's column `j`.
abbrev pub NamesKey : SelectExprs → Index → ℕ → ℕ → Type 0
NamesKey cs pk n j = (name : List ℕ) × (column_at n cs ≡ some name) × (find_column pk name ≡ some j)

-- A number that the loop leaves was there before, or is that of a column behind the first `i`.
abbrev pub Numbered : ℕ → SelectExprs → Index → List (Option ℕ) → ℕ → ℕ → Type 0
Numbered i cs pk numbers j n =
    (get_elem? numbers j ≡ some (some n)) ⊎ ((k : ℕ) × (n ≡ i + k) × NamesKey cs pk k j)

pub get_elem?-zeros :
    {B : Type 0} (j n : ℕ) (bs : List B) → get_elem? (zeros none bs) j ≢ some (some n)
unfolding zeros
get_elem?-zeros j n [] = λ e. cc e
get_elem?-zeros zero n (b ∷ bs) = λ e. cc e
get_elem?-zeros (suc j) n (b ∷ bs) = get_elem?-zeros j n bs

get_elem?-place :
    (found : Option ℕ) (i j n : ℕ) (numbers : List (Option ℕ))
    → get_elem? (place found i numbers) j ≡ some (some n)
    → ((found ≡ some j) × (n ≡ i)) ⊎ (get_elem? numbers j ≡ some (some n))
unfolding place
get_elem?-place none i j n numbers h = inr h
get_elem?-place (some m) i j n numbers h = elim (get_elem?-put_at m j (some i) (some n) numbers h) [
  | inl (p, q) ↦ inl (ap some (sym p), cc q)
  | inr (_, e) ↦ inr e
]

pub length-place :
    (found : Option ℕ) (i : ℕ) (numbers : List (Option ℕ))
    → length (place found i numbers) ≡ length numbers
unfolding place
length-place none i numbers = refl
length-place (some m) i numbers = length-put_at m (some i) numbers

-- One round further, the columns are counted from the next.
Numbered-behind :
    (i : ℕ) (c : Expr) (as_name : Option (List ℕ)) (cs : SelectExprs) (pk : Index)
    (numbers : List (Option ℕ)) (j n : ℕ)
    → Numbered (suc i) cs pk (place (find_column pk (get_col_name c)) i numbers) j n
    → Numbered i (selects (non_star_expr c as_name) cs) pk numbers j n
unfolding column_at
Numbered-behind i c as_name cs pk numbers j n (inr (k, p, names)) =
    inr (suc k, omega (arith, p), names)
Numbered-behind i c as_name cs pk numbers j n (inl h) =
    elim (get_elem?-place (find_column pk (get_col_name c)) i j n numbers h) [
      | inl (f, p) ↦ inr (0, omega (arith, p), (get_col_name c, refl, f))
      | inr e ↦ inl e
    ]

pub number_columns-Numbered :
    (i : ℕ) (cs : SelectExprs) (pk : Index) (numbers out : List (Option ℕ)) (j n : ℕ)
    → number_columns i cs pk numbers ≡ ok out
    → get_elem? out j ≡ some (some n)
    → Numbered i cs pk numbers j n
unfolding number_columns
number_columns-Numbered i no_selects pk numbers out j n e got =
    inl (ap (λ z. get_elem? z j) (ok-injective e) ∙ got)
number_columns-Numbered i (selects (star_expr t) cs) pk numbers out j n e got = absurd (cc e)
number_columns-Numbered i (selects (non_star_expr c as_name) cs) pk numbers out j n e got =
    Numbered-behind i c as_name cs pk numbers j n (
      number_columns-Numbered (suc i) cs pk (place (find_column pk (get_col_name c)) i numbers) out
        j n e got)

pub length-number_columns :
    (i : ℕ) (cs : SelectExprs) (pk : Index) (numbers out : List (Option ℕ))
    → number_columns i cs pk numbers ≡ ok out
    → length out ≡ length numbers
unfolding number_columns
length-number_columns i no_selects pk numbers out e = ap length (sym (ok-injective e))
length-number_columns i (selects (star_expr t) cs) pk numbers out e = absurd (cc e)
length-number_columns i (selects (non_star_expr c as_name) cs) pk numbers out e =
    length-number_columns (suc i) cs pk (place (find_column pk (get_col_name c)) i numbers) out e
    ∙ length-place (find_column pk (get_col_name c)) i numbers
