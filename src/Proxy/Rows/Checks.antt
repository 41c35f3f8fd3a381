-- ===== src/Proxy/Rows/Checks.antt =====
-- Rows that a session answers, and the theorems at concrete inputs.
use cm.Common.{ℕ, ◌≡◌, refl, arith, List, [], ◌∷◌, false, true, none, some, codes, ok, panic, ◌>>=◌}
use cm.Vt.Schema.{TableColumn}
use cm.Mysql.Resultset.{
  int64, Floats, Resultset, RowValue, null, uint64, bytes, raw, raw_as, raw_integer, raw_bytes,
  kind_of,
}
use cm.Mysql.LenEnc.{put_length_encoded_string, put_length_encoded_int}
use cm.Mysql.Client.{QueryResult, parse_rows}
use cm.Proxy.Packets.Read.{read_back}
use cm.Proxy.Rows.{build_resultset, typed_fields, encode_later, encode_cell}
use cm.Sqlparser.Query.{append_int, append_uint, decimal_loop}
use cm.Proxy.Rows.Simple.{build_simple_select_result, format_field}
use cm.Proxy.Rows.Build.{HoldAll, nothing, unsigned, text, parse_rows-build_resultset}
use cm.Proxy.Rows.Merge.{merge_select_result, merge_exec_result, merge_counts, add_counts}
use cm.Proxy.Rows.Merge.Concat.{merge_select_result-append}

abbrev no_floats : Floats
no_floats = record {
  format = λ x. [];
  shortest = λ x. [];
  parse = λ s. panic;
  from_float32 = λ x. x;
  of_int = λ x. x;
  of_uint = λ x. x;
  to_uint = λ x. x;
  less = λ x y. false;
}

abbrev column : ℕ → TableColumn
column t = record {
  name = codes "c";
  sql_type = t;
  is_auto = false;
  default_value = none;
  collation = codes "utf8_general_ci";
  is_unsigned = true;
}

abbrev columns : List TableColumn
columns = column 3 ∷ column 15 ∷ column 8 ∷ []

abbrev row : RowValue
row = uint64 42 ∷ bytes (codes "uv") ∷ null ∷ []

row-HoldAll : HoldAll no_floats columns row
unfolding kind_of
row-HoldAll = (unsigned refl refl (omega arith), (text refl (omega arith), (nothing, tt)))

parse_rows-build_resultset_example :
    (build_resultset no_floats columns (row ∷ []) >>= λ r.
    parse_rows no_floats false (read_back (typed_fields columns row)) r.row_datas)
    ≡ ok (row ∷ [])
parse_rows-build_resultset_example = parse_rows-build_resultset no_floats columns row row-HoldAll

-- A number in a later row is written as a text without characters.
later_number : encode_later no_floats (uint64 42 ∷ []) ≡ ok (0 ∷ [])
unfolding encode_later encode_cell raw raw_as raw_integer raw_bytes kind_of
    put_length_encoded_string put_length_encoded_int
later_number = refl

abbrev result_of : ℕ → List RowValue → List (List ℕ) → Resultset
result_of n values row_datas = record {
  fields = [];
  field_names = (codes "id", n) ∷ [];
  values = values;
  row_datas = row_datas;
}

abbrev answer : ℕ → ℕ → Resultset → QueryResult
answer status id r = record {
  status = status;
  insert_id = id;
  affected_rows = 1;
  resultset = some r;
}

abbrev first_shard : Resultset
first_shard =
    result_of 0 ((uint64 1 ∷ []) ∷ (uint64 2 ∷ []) ∷ []) ((1 ∷ b'1' ∷ []) ∷ (1 ∷ b'2' ∷ []) ∷ [])

abbrev second_shard : Resultset
second_shard = result_of 0 ((uint64 3 ∷ []) ∷ []) ((1 ∷ b'3' ∷ []) ∷ [])

merge_select_result-append_example :
    merge_select_result 2 (answer 2 0 first_shard ∷ answer 8 0 second_shard ∷ [])
    ≡ ok (
      10,
      result_of 0
          ((uint64 1 ∷ []) ∷ (uint64 2 ∷ []) ∷ (uint64 3 ∷ []) ∷ [])
          ((1 ∷ b'1' ∷ []) ∷ (1 ∷ b'2' ∷ []) ∷ (1 ∷ b'3' ∷ []) ∷ []),
    )
merge_select_result-append_example =
    merge_select_result-append 2 (answer 2 0 first_shard) (answer 8 0 second_shard ∷ []) first_shard
      (second_shard ∷ []) (refl, refl, (refl, refl, tt))

-- The id that is answered depends on the order of the shards.
insert_id_lost :
    (merge_exec_result (answer 2 5 first_shard ∷ answer 2 0 second_shard ∷ [])).insert_id ≡ 0
unfolding merge_exec_result merge_counts add_counts
insert_id_lost = refl

insert_id_kept :
    (merge_exec_result (answer 2 0 first_shard ∷ answer 2 5 second_shard ∷ [])).insert_id ≡ 5
unfolding merge_exec_result merge_counts add_counts
insert_id_kept = refl

-- An unsigned number, as a connection's id is, ends the statement.
unsigned_panics :
    build_simple_select_result no_floats (uint64 7) (codes "connection_id") none ≡ panic
unfolding build_simple_select_result format_field raw raw_as raw_integer kind_of
unsigned_panics = refl

signed_answered :
    (build_simple_select_result no_floats (int64 7) (codes "last_insert_id") none >>= λ r.
    ok r.row_datas)
    ≡ ok ((1 ∷ b'7' ∷ []) ∷ [])
unfolding build_simple_select_result format_field raw raw_as raw_integer kind_of append_int
    append_uint decimal_loop put_length_encoded_string put_length_encoded_int
signed_answered = refl
