-- ===== src/Mysql/Field.antt =====
-- mysql/field.go: a column's description and its packet.
-- A Go string or slice that is only measured and copied is a list, be it nil or not. `field_data` and
-- `default_value` are tested against nil.
pub mod Layout
pub mod RoundTrip
mod Checks
use cm.Common.{
  ℕ, ◌+◌, ◌%◌, ◌^◌, Bool, false, not, ◌&&◌, Option, none, some, List, [], ◌∷◌, ◌++◌, length, ltb,
  if◌then◌else◌, malform_packet, Result, ok, err, ◌>>=◌, is_negative, index_at, slice, slice_from,
}
use cm.Mysql.LenEnc.{
  LenEncString, little_endian, length_encoded_int, length_enoded_string, skip_length_enoded_string,
  put_length_encoded_string, uint16_to_bytes, uint32_to_bytes, uint64_to_bytes,
}

pub record Field : Type 0 where
  pub field_data : Option (List ℕ)
  pub schema : List ℕ
  pub table : List ℕ
  pub org_table : List ℕ
  pub name : List ℕ
  pub org_name : List ℕ
  pub charset : ℕ
  pub column_length : ℕ
  pub type : ℕ
  pub flag : ℕ
  pub decimal : ℕ
  pub is_unsigned : Bool
  pub default_value_length : ℕ
  pub default_value : Option (List ℕ)

abbrev pub bytes_of : Option (List ℕ) → List ℕ
bytes_of none = []
bytes_of (some s) = s

-- `LengthEnodedString(p[pos:])`, and the position behind it.
pub read_string : List ℕ → ℕ → Result (List ℕ × ℕ)
read_string p pos = do
  rest ← slice_from p pos
  s ← length_enoded_string rest
  ok (bytes_of s.str, pos + s.n)

-- The default value, where `pos` is inside of the packet.
pub parse_default : List ℕ → ℕ → Field → Result Field
parse_default p pos f = do
  rest ← slice_from p pos
  i ← length_encoded_int rest
  let lo = pos + i.n
  let hi = (lo + i.num) % 2 ^ 64
  if not (is_negative hi) && ltb (length p) hi then err malform_packet else (do
    s ← slice p lo hi
    ok (record f { default_value_length = i.num; default_value = some s }))

-- What stands behind the strings: a filler, the numbers, a filler and the default value.
pub parse_numbers : List ℕ → ℕ → Field → Result Field
parse_numbers p pos f = do
  charset ← little_endian 2 p (pos + 1)
  column_length ← little_endian 4 p (pos + 3)
  type ← index_at p (pos + 7)
  flag ← little_endian 2 p (pos + 8)
  decimal ← index_at p (pos + 10)
  let f = record f {
    charset = charset;
    column_length = column_length;
    type = type;
    flag = flag;
    decimal = decimal;
  }
  if ltb (pos + 13) (length p) then parse_default p (pos + 13) f else ok f

abbrev pub no_field : List ℕ → Field
no_field p = record {
  field_data = some p;
  schema = [];
  table = [];
  org_table = [];
  name = [];
  org_name = [];
  charset = 0;
  column_length = 0;
  type = 0;
  flag = 0;
  decimal = 0;
  is_unsigned = false;
  default_value_length = 0;
  default_value = none;
}

pub parse : List ℕ → Result Field
parse p = do
  pos ← skip_length_enoded_string p
  (schema, pos) ← read_string p pos
  (table, pos) ← read_string p pos
  (org_table, pos) ← read_string p pos
  (name, pos) ← read_string p pos
  (org_name, pos) ← read_string p pos
  parse_numbers p pos (record (no_field p) {
    schema = schema;
    table = table;
    org_table = org_table;
    name = name;
    org_name = org_name;
  })

-- `defCache`, the catalog's name.
abbrev pub def_cache : List ℕ
def_cache = put_length_encoded_string (b'd' ∷ b'e' ∷ b'f' ∷ [])

pub dump_default : Field → List ℕ
dump_default f = elim f.default_value [
  | none ↦ []
  | some s ↦ uint64_to_bytes f.default_value_length ++ s
]

pub dump_numbers : Field → List ℕ
dump_numbers f =
    0x0c ∷ uint16_to_bytes f.charset
    ++ (uint32_to_bytes f.column_length
        ++ (f.type ∷ uint16_to_bytes f.flag ++ (f.decimal ∷ 0 ∷ 0 ∷ dump_default f)))

pub dump_fields : Field → List ℕ
dump_fields f =
    def_cache
    ++ (put_length_encoded_string f.schema
        ++ (put_length_encoded_string f.table
            ++ (put_length_encoded_string f.org_table
                ++ (put_length_encoded_string f.name
                    ++ (put_length_encoded_string f.org_name ++ dump_numbers f)))))

pub dump : Field → List ℕ
dump f = elim f.field_data [ none ↦ dump_fields f | some p ↦ p ]
