-- ===== src/Proxy/Packets/Checks.antt =====
-- Packets that a session sends, and the theorems at concrete inputs.
use cm.Common.{
  ◌≡◌, refl, arith, List, [], ◌∷◌, ◌++◌, false, true, none, some, codes, ok, panic, ◌>>=◌, All,
}
use cm.Mysql.LenEnc.{uint16_to_bytes, put_length_encoded_int}
use cm.Mysql.Field.{Field}
use cm.Mysql.Field.Layout.{Fits}
use cm.Mysql.Resultset.{Floats, Resultset}
use cm.Mysql.Client.{
  read_result, parse_rows, answered, is_eof_packet, field_list, listed, read_ok, sql_error,
}
use cm.Proxy.Packets.{write_eof, write_ok, write_resultset, write_field_list, write_error}
use cm.Proxy.Packets.Read.{
  IsPlain, read_back, reading, result_read, connection_left, read_result-write_resultset,
  field_list-write_field_list,
}
use cm.Proxy.Packets.Replies.{client, read_ok-write_ok}

abbrev no_floats : Floats
no_floats = record {
  format = λ x. [];
  shortest = λ x. [];
  parse = λ s. panic;
  from_float32 = λ x. x;
  of_int = λ x. x;
  of_uint = λ x. x;
  to_uint = λ x. x;
  less = λ x y. false;
}

abbrev id_column : Field
id_column = record {
  field_data = none;
  schema = [];
  table = [];
  org_table = [];
  name = codes "id";
  org_name = [];
  charset = 63;
  column_length = 0;
  type = 8;
  flag = 129;
  decimal = 0;
  is_unsigned = false;
  default_value_length = 0;
  default_value = none;
}

abbrev name_column : Field
name_column = record id_column { name = codes "name"; charset = 33; type = 15; flag = 0 }

abbrev columns : List Field
columns = id_column ∷ name_column ∷ []

abbrev people : Resultset
people = record {
  fields = some id_column ∷ some name_column ∷ [];
  field_names = [];
  values = [];
  row_datas = (1 ∷ b'7' ∷ 2 ∷ b'u' ∷ b'v' ∷ []) ∷ (1 ∷ b'8' ∷ 0xfb ∷ []) ∷ [];
}

id_column-Fits : Fits id_column
id_column-Fits = omega arith

name_column-Fits : Fits name_column
name_column-Fits = omega arith

columns-IsPlain : All IsPlain columns
columns-IsPlain = (
  record { fits = id_column-Fits; fresh = refl; no_default = refl },
  (record { fits = name_column-Fits; fresh = refl; no_default = refl }, tt),
)

no_eof : All (λ d. is_eof_packet d ≡ ok false) people.row_datas
unfolding is_eof_packet
no_eof = (refl, (refl, tt))

write_eof_example : write_eof true 2 ≡ 0xfe ∷ 0 ∷ 0 ∷ 2 ∷ 0 ∷ []
unfolding write_eof uint16_to_bytes
write_eof_example = refl

write_ok_example : write_ok true 2 300 0 ≡ 0 ∷ 0xfc ∷ 0x2c ∷ 1 ∷ 0 ∷ 2 ∷ 0 ∷ 0 ∷ 0 ∷ []
unfolding write_ok uint16_to_bytes put_length_encoded_int
write_ok_example = refl

read_result-write_resultset_example :
    (write_resultset true 2 people >>= λ packets.
    read_result no_floats false
      (reading no_floats true true 2 0 columns people ((0 ∷ []) ∷ []) (packets ++ (0 ∷ []) ∷ [])))
    ≡ (parse_rows no_floats false (read_back columns) people.row_datas >>= λ rows. ok (
      answered (result_read no_floats true true 2 0 columns people ((0 ∷ []) ∷ []) rows),
      connection_left no_floats true true 2 0 columns people ((0 ∷ []) ∷ []),
    ))
read_result-write_resultset_example =
    read_result-write_resultset no_floats true true 2 0 columns people ((0 ∷ []) ∷ []) (omega arith)
      refl columns-IsPlain (omega arith) (omega arith) no_eof

field_list-write_field_list_example :
    (write_field_list true 2 people.fields >>= λ packets.
    field_list (client true 0 (packets ++ [])))
    ≡ ok (listed (read_back (name_column ∷ [])), client true 0 [])
field_list-write_field_list_example =
    field_list-write_field_list true true 2 0 id_column (name_column ∷ []) [] columns-IsPlain

read_ok-write_ok_example :
    (read_ok (client true 0 (write_ok true 2 300 70000 ∷ []))
      ≡ ok (
        answered (record { status = 2; insert_id = 70000; affected_rows = 300; resultset = none }),
        client true 2 [],
      ))
    × (read_ok (client true 0 (write_error true 1062 (codes "23000") (codes "Duplicate") ∷ []))
        ≡ ok (sql_error 1062 (codes "23000") (codes "Duplicate"), client true 0 []))
read_ok-write_ok_example =
    read_ok-write_ok true 0 [] 2 300 70000 1062 (codes "23000") (codes "Duplicate") (omega arith)
      (omega arith) (omega arith) (omega arith) refl
