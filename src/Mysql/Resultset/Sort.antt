-- ===== src/Mysql/Resultset/Sort.antt =====
-- mysql/resultset_sort.go: the order of rows by sort keys. `sort.Sort` sorts by `Less` and `Swap`
-- alone; its own code is Go's library.
pub mod Values
pub mod Order
pub mod Places
use cm.Common.{
  ℕ, List, [], ◌∷◌, length, Bool, true, false, not, ltb, leb, ◌==◌, if◌then◌else◌, ◌=?◌, codes,
  lex_lt, is_negative, column_not_found, Result, ok, err, panic, ◌>>=◌, index_at, set, Option, none,
  some, ◌≡◌, ◌+◌, ◌%◌, ◌^◌,
}
use cm.Mysql.Resultset.{
  Value, RowValue, Floats, Resultset, null, int64, uint64, float64, string, bytes, column_named,
}

pub record SortKey : Type 0 where
  pub name : List ℕ
  pub direction : List ℕ
  pub column : ℕ

-- A negative, zero or positive `int`.
pub data Comparison : Type 0 where
  less same more : Comparison

unfoldable pub opposite : Comparison → Comparison
opposite less = more
opposite same = same
opposite more = less

-- `newResultsetSorter`: the keys with their columns.
unfoldable pub with_columns : List (List ℕ × ℕ) → List SortKey → Result (List SortKey)
with_columns names [] = ok []
with_columns names (k ∷ ks) = elim (column_named k.name names) [
  | none ↦ err column_not_found
  | some column ↦ with_columns names ks >>= λ rest. ok (record k { column = column } ∷ rest)
]

unfoldable pub compare_by : Bool → Bool → Comparison
compare_by true after = less
compare_by false true = more
compare_by false false = same

-- An int64 by its pattern: a negative one is less than any other.
unfoldable pub int_less : ℕ → ℕ → Bool
int_less a b = ltb ((a + 2 ^ 63) % 2 ^ 64) ((b + 2 ^ 63) % 2 ^ 64)

-- A type assertion on the second value panics.
unfoldable pub cmp_value : Floats → Value → Value → Result Comparison
cmp_value F null null = ok same
cmp_value F null (int64 b) = ok less
cmp_value F null (uint64 b) = ok less
cmp_value F null (float64 b) = ok less
cmp_value F null (string b) = ok less
cmp_value F null (bytes b) = ok less
cmp_value F (int64 a) null = ok more
cmp_value F (uint64 a) null = ok more
cmp_value F (float64 a) null = ok more
cmp_value F (string a) null = ok more
cmp_value F (bytes a) null = ok more
cmp_value F (string a) (string b) = ok (compare_by (lex_lt a b) (lex_lt b a))
cmp_value F (bytes a) (bytes b) = ok (compare_by (lex_lt a b) (lex_lt b a))
cmp_value F (int64 a) (int64 b) = ok (compare_by (int_less a b) (int_less b a))
cmp_value F (uint64 a) (uint64 b) = ok (compare_by (ltb a b) (ltb b a))
cmp_value F (float64 a) (float64 b) = ok (compare_by (F.less a b) (F.less b a))
cmp_value F a b = panic

unfoldable pub directed : SortKey → Comparison → Comparison
directed k c = if k.direction =? codes "desc" then opposite c else c

-- The loop of `Less` over the keys.
unfoldable pub rows_less : Floats → List SortKey → RowValue → RowValue → Result Bool
rows_less F [] v1 v2 = ok false
rows_less F (k ∷ ks) v1 v2 = do
  a ← index_at v1 k.column
  b ← index_at v2 k.column
  c ← cmp_value F a b
  elim (directed k c) [ less ↦ ok true | more ↦ ok false | same ↦ rows_less F ks v1 v2 ]

-- `Less`, on the rows at two places.
less_at : Floats → List SortKey → Resultset → ℕ → ℕ → Result Bool
less_at F ks r i j = do v1 ← index_at r.values i; v2 ← index_at r.values j; rows_less F ks v1 v2

-- `xs[i], xs[j] = xs[j], xs[i]`
unfoldable pub swap {ℓ} : {A : Type ℓ} → ℕ → ℕ → List A → Result (List A)
swap i j xs = do x ← index_at xs i; y ← index_at xs j; ok (set (set xs i y) j x)

unfoldable pub swap_rows : ℕ → ℕ → Resultset → Result Resultset
swap_rows i j r = do
  values ← swap i j r.values
  row_datas ← swap i j r.row_datas
  ok (record r { values = values; row_datas = row_datas })

-- The order in which `sort.Sort` swaps is its own; what it does is a sequence of swaps.
pub data Swaps (r : Resultset) : Resultset → Type 0 where
  unsorted : Swaps r r
  swapped : {s t : Resultset} (i j : ℕ) → Swaps r s → swap_rows i j s ≡ ok t → Swaps r t
