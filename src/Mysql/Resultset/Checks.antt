-- ===== src/Mysql/Resultset/Checks.antt =====
-- Rows in order, and the theorems at concrete inputs.
use cm.Common.{
  ℕ, ◌≡◌, refl, arith, List, [], ◌∷◌, false, true, ◌&&◌, codes, ok, panic, ◌>>=◌, ltb, lex_lt, ◌=?◌,
}
use cm.Mysql.Resultset.{Floats, Resultset, RowValue, int64, bytes}
use cm.Mysql.Resultset.Sort.{
  SortKey, rows_less, cmp_value, directed, compare_by, int_less, opposite, swap, swap_rows,
  unsorted, swapped,
}
use cm.Mysql.Resultset.Sort.Values.{IsOrder}
use cm.Mysql.Resultset.Sort.Order.{rows_less-order}
use cm.Mysql.Resultset.Sort.Places.{Rearranged, Swaps-Rearranged}

abbrev bits : Floats
bits = record {
  format = λ x. [];
  shortest = λ x. [];
  parse = λ s. panic;
  from_float32 = λ x. x;
  of_int = λ x. x;
  of_uint = λ x. x;
  to_uint = λ x. x;
  less = ltb;
}

bits-IsOrder : IsOrder bits
bits-IsOrder = record {
  irrefl = λ a. ground arith;
  trans = λ a b c h k. ground arith;
  connex = λ a b c h. ground arith;
}

-- order by a desc, b
abbrev keys : List SortKey
keys =
    record { name = codes "a"; direction = codes "desc"; column = 0 }
    ∷ record { name = codes "b"; direction = codes "asc"; column = 1 }
    ∷ []

abbrev row : ℕ → ℕ → RowValue
row n c = int64 n ∷ bytes (c ∷ []) ∷ []

-- -1 is the greatest pattern.
less_1 : rows_less bits keys (row 5 b'u') (row 5 b'v') ≡ ok true
unfolding rows_less cmp_value directed compare_by int_less opposite ◌=?◌ lex_lt
less_1 = refl

less_2 : rows_less bits keys (row 5 b'v') (row 18446744073709551615 b'a') ≡ ok true
unfolding rows_less cmp_value directed compare_by int_less opposite ◌=?◌ lex_lt
less_2 = refl

rows_less-order_example :
    (rows_less bits keys (row 5 b'u') (row 18446744073709551615 b'a') ≡ ok true)
    × ((rows_less bits keys (row 5 b'v') (row 5 b'u') >>= λ c. ok (true && c)) ≡ ok false)
rows_less-order_example =
    rows_less-order bits bits-IsOrder keys (row 5 b'u') (row 5 b'v') (row 18446744073709551615 b'a')
      true less_1 less_2

abbrev three : ℕ → ℕ → ℕ → Resultset
three a b c = record {
  fields = [];
  field_names = [];
  values = row a b'x' ∷ row b b'x' ∷ row c b'x' ∷ [];
  row_datas = (a ∷ []) ∷ (b ∷ []) ∷ (c ∷ []) ∷ [];
}

swap_first : swap_rows 0 1 (three 2 3 1) ≡ ok (three 3 2 1)
unfolding swap_rows swap
swap_first = refl

swap_last : swap_rows 2 0 (three 3 2 1) ≡ ok (three 1 2 3)
unfolding swap_rows swap
swap_last = refl

Swaps-Rearranged_example : Rearranged (three 2 3 1) (three 1 2 3)
Swaps-Rearranged_example =
    Swaps-Rearranged (swapped 2 0 (swapped 0 1 unsorted swap_first) swap_last)
