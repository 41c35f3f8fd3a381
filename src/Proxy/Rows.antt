-- ===== src/Proxy/Rows.antt =====
-- proxy/conn_resultset.go and the results in proxy/conn_query.go: the rows that a session answers, and
-- how the shards' results are put together.
pub mod Build
pub mod Merge
pub mod Empty
pub mod Simple
mod Checks
use cm.Common.{
  ℕ, zero, suc, ◌+◌, ◌-◌, ◌%◌, ◌^◌, List, [], ◌∷◌, ◌++◌, length, Bool, true, false, not, Option,
  none, some, leb, ◌==◌, if◌then◌else◌, column_count, Result, ok, err, panic, ◌>>=◌, index_at, map,
}
use cm.Vt.Schema.{TableColumn}
use cm.Mysql.LenEnc.{put_length_encoded_string}
use cm.Mysql.Field.{Field}
use cm.Mysql.Charset.Names.{collation_id}
use cm.Mysql.Resultset.{
  Value, RowValue, Floats, Resultset, null, int64, uint64, float64, string, bytes, raw,
}

-- `applyFilter`: a column number that is -1 is `none` and leaves nil.
unfoldable pub apply_filter : List (Option ℕ) → RowValue → Result RowValue
apply_filter [] row = ok []
apply_filter (none ∷ cs) row = do rest ← apply_filter cs row; ok (null ∷ rest)
apply_filter (some i ∷ cs) row = do v ← index_at row i; rest ← apply_filter cs row; ok (v ∷ rest)

unfoldable pub get_field_names : List ℕ → List TableColumn → Result (List TableColumn)
get_field_names [] columns = ok []
get_field_names (i ∷ is) columns = do
  c ← index_at columns i
  rest ← get_field_names is columns
  ok (c ∷ rest)

-- The flags and the type that `formatField` gives a value's field; it sets a charset too, which is
-- overwritten.
unfoldable pub flags_of : Value → ℕ
flags_of null = 0
flags_of (int64 n) = 128 + 1
flags_of (uint64 n) = 128 + 1 + 32
flags_of (float64 x) = 0
flags_of (string s) = 0
flags_of (bytes s) = 0

-- `&mysql.Field{}`
abbrev pub blank_field : Field
blank_field = record {
  field_data = none;
  schema = [];
  table = [];
  org_table = [];
  name = [];
  org_name = [];
  charset = 0;
  column_length = 0;
  type = 0;
  flag = 0;
  decimal = 0;
  is_unsigned = false;
  default_value_length = 0;
  default_value = none;
}

-- A field of the first row.
abbrev pub typed_field : TableColumn → Value → Field
typed_field tc v = record blank_field {
  name = tc.name;
  flag = flags_of v;
  type = tc.sql_type;
  charset = collation_id tc.collation;
  is_unsigned = tc.is_unsigned;
}

abbrev pub typed_fields : List TableColumn → RowValue → List Field
typed_fields (tc ∷ tcs) (v ∷ vs) = typed_field tc v ∷ typed_fields tcs vs
typed_fields (tc ∷ tcs) [] = []
typed_fields [] vs = []

-- A value in a row, under the type and the sign of its field.
unfoldable pub encode_cell : Floats → ℕ → Bool → Value → Result (List ℕ)
encode_cell F t unsigned null = ok (0xfb ∷ [])
encode_cell F t unsigned (int64 n) =
    raw F t (int64 n) unsigned >>= λ b. ok (put_length_encoded_string b)
encode_cell F t unsigned (uint64 n) =
    raw F t (uint64 n) unsigned >>= λ b. ok (put_length_encoded_string b)
encode_cell F t unsigned (float64 x) =
    raw F t (float64 x) unsigned >>= λ b. ok (put_length_encoded_string b)
encode_cell F t unsigned (string s) =
    raw F t (string s) unsigned >>= λ b. ok (put_length_encoded_string b)
encode_cell F t unsigned (bytes s) =
    raw F t (bytes s) unsigned >>= λ b. ok (put_length_encoded_string b)

unfoldable pub encode_first : Floats → List TableColumn → RowValue → Result (List ℕ)
encode_first F [] vs = ok []
encode_first F (tc ∷ tcs) [] = ok []
encode_first F (tc ∷ tcs) (v ∷ vs) = do
  cell ← encode_cell F tc.sql_type tc.is_unsigned v
  rest ← encode_first F tcs vs
  ok (cell ++ rest)

-- The fields of a later row are blank: type 0, and a sign.
pub encode_later : Floats → RowValue → Result (List ℕ)
encode_later F [] = ok []
encode_later F (v ∷ vs) = do
  cell ← encode_cell F 0 false v
  rest ← encode_later F vs
  ok (cell ++ rest)

unfoldable pub encode_rows : Floats → ℕ → List RowValue → Result (List (List ℕ))
encode_rows F n [] = ok []
encode_rows F n (vs ∷ rows) =
    if not (length vs == n)
    then err column_count
    else (do row ← encode_later F vs; rest ← encode_rows F n rows; ok (row ∷ rest))

-- Where there is no row the fields stay nil.
unfoldable pub build_resultset : Floats → List TableColumn → List RowValue → Result Resultset
build_resultset F tcs [] =
    ok (record { fields = map (λ tc. none) tcs; field_names = []; values = []; row_datas = [] })
build_resultset F tcs (vs ∷ rows) = if not (length vs == length tcs) then err column_count else (do
  row ← encode_first F tcs vs
  rest ← encode_rows F (length tcs) rows
  ok (record {
    fields = map some (typed_fields tcs vs);
    field_names = [];
    values = [];
    row_datas = row ∷ rest;
  }))
