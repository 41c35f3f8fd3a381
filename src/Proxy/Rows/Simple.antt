-- ===== src/Proxy/Rows/Simple.antt =====
-- proxy/conn_select.go: `buildSimpleSelectResult`, the answer to select last_insert_id() and the like,
-- and `formatField` of proxy/conn_resultset.go.
use cm.Common.{ℕ, List, [], ◌∷◌, false, Option, none, some, Result, ok, ◌>>=◌}
use cm.Mysql.LenEnc.{put_length_encoded_string}
use cm.Mysql.Field.{Field}
use cm.Mysql.Resultset.{Value, Floats, Resultset, null, int64, uint64, float64, string, bytes, raw}
use cm.Proxy.Rows.{blank_field, flags_of}

unfoldable pub format_field : Field → Value → Field
format_field f null = f
format_field f (int64 n) = record f { charset = 63; type = 8; flag = flags_of (int64 n) }
format_field f (uint64 n) = record f { charset = 63; type = 8; flag = flags_of (uint64 n) }
format_field f (float64 x) = record f { charset = 63 }
format_field f (string s) = record f { charset = 33; type = 15 }
format_field f (bytes s) = record f { charset = 33; type = 15 }

abbrev name_of : List ℕ → Option (List ℕ) → List ℕ
name_of name none = name
name_of name (some as_name) = as_name

-- The value is encoded with a sign, whatever its type.
unfoldable pub build_simple_select_result :
    Floats → Value → List ℕ → Option (List ℕ) → Result Resultset
build_simple_select_result F v name as_name = do
  let named = record blank_field { name = name_of name as_name; org_name = name }
  let field = format_field named v
  row ← raw F field.type v false
  ok (record {
    fields = some field ∷ [];
    field_names = [];
    values = [];
    row_datas = put_length_encoded_string row ∷ [];
  })
