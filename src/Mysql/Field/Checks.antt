-- ===== src/Mysql/Field/Checks.antt =====
-- Descriptions of columns, written and read, and the theorems at concrete inputs.
use cm.Common.{◌≡◌, refl, false, none, some, [], ◌∷◌, ok, arith, length}
use cm.Mysql.LenEnc.{
  put_length_encoded_string, put_length_encoded_int, uint64_to_bytes, uint16_to_bytes,
  uint32_to_bytes,
}
use cm.Mysql.Field.{Field, parse, dump, dump_fields, dump_numbers, dump_default}
use cm.Mysql.Field.Layout.{described, Fits}
use cm.Mysql.Field.RoundTrip.{parse-dump, parse-dump_default}

abbrev id_column : Field
id_column = record {
  field_data = none;
  schema = b't' ∷ [];
  table = b'u' ∷ [];
  org_table = [];
  name = b'i' ∷ b'd' ∷ [];
  org_name = b'i' ∷ b'd' ∷ [];
  charset = 63;
  column_length = 20;
  type = 8;
  flag = 0x21;
  decimal = 0;
  is_unsigned = false;
  default_value_length = 0;
  default_value = none;
}

abbrev column_with_default : Field
column_with_default = record id_column {
  default_value_length = 2;
  default_value = some (b'4' ∷ b'2' ∷ []);
}

dump_example :
    dump id_column
    ≡ 3 ∷ b'd' ∷ b'e' ∷ b'f' ∷ 1 ∷ b't' ∷ 1 ∷ b'u' ∷ 0 ∷ 2 ∷ b'i' ∷ b'd' ∷ 2 ∷ b'i' ∷ b'd' ∷ 0x0c
      ∷ 63 ∷ 0 ∷ 20 ∷ 0 ∷ 0 ∷ 0 ∷ 8 ∷ 0x21 ∷ 0 ∷ 0 ∷ 0 ∷ 0 ∷ []
unfolding dump dump_fields dump_numbers dump_default put_length_encoded_string
    put_length_encoded_int uint16_to_bytes uint32_to_bytes
dump_example = refl

dump_default_length : length (dump column_with_default) ≡ 38
unfolding dump dump_fields dump_numbers dump_default put_length_encoded_string
    put_length_encoded_int uint16_to_bytes uint32_to_bytes uint64_to_bytes
dump_default_length = refl

id_column-Fits : Fits id_column
id_column-Fits = omega arith

column_with_default-Fits : Fits column_with_default
column_with_default-Fits = omega arith

parse-dump_example : parse (dump id_column) ≡ ok (described (dump id_column) id_column)
parse-dump_example = parse-dump id_column id_column-Fits refl refl

parse-dump_default_example :
    parse (dump column_with_default)
    ≡ ok (record (described (dump column_with_default) column_with_default) {
      default_value_length = 2;
      default_value = some (0 ∷ 0 ∷ []);
    })
parse-dump_default_example =
    parse-dump_default column_with_default (b'4' ∷ b'2' ∷ []) column_with_default-Fits refl refl
      refl (omega arith) (omega arith) (omega (arith, dump_default_length))
