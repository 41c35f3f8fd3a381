-- ===== src/Mysql/Field/Layout.antt =====
-- mysql/field.go: the layout of the packet that `Dump` writes, and how `Parse` walks through it.
use cm.Common.{
  ℕ, ◌+◌, ◌*◌, ◌/◌, ◌%◌, ◌^◌, ◌<◌, ◌≤◌, ◌≡◌, refl, sym, ◌∙◌, ap, subst, false, none, some, List, [],
  ◌∷◌, ◌++◌, length, drop, get_elem?, length-append, length-drop, drop-append, drop-drop, ok,
  slice_from, arith, index_at, suc, zero, ltb, if◌then◌else◌,
}
use cm.Mysql.LenEnc.{
  put_length_encoded_string, little_endian, skip_length_enoded_string, uint16_to_bytes,
  uint32_to_bytes,
}
use cm.Mysql.LenEnc.RoundTrip.{
  length_enoded_string-put, length_enoded_string-put_nil, skip_length_enoded_string-put,
}
use cm.Mysql.Field.{
  Field, read_string, parse_default, parse_numbers, no_field, parse, def_cache, dump_default,
  dump_numbers,
}

-- At `pos` of `p` stands `rest`.
abbrev pub At : List ℕ → ℕ → List ℕ → Type 0
At p pos rest = (drop pos p ≡ rest) × (pos ≤ length p)

pub At-append :
    (p : List ℕ) (pos : ℕ) (s rest : List ℕ) → At p pos (s ++ rest) → At p (pos + length s) rest
At-append p pos s rest (e, h) = (
  sym (drop-drop (length s) pos p) ∙ ap (drop (length s)) e ∙ drop-append s rest,
  omega (arith, length-drop pos p, ap length e, length-append s rest),
)

pub slice_from-At :
    (p : List ℕ) (pos : ℕ) (rest : List ℕ) → At p pos rest → slice_from p pos ≡ ok rest
unfolding slice_from
slice_from-At p pos rest (e, h) = ground arith

read_string-At :
    (p : List ℕ) (pos : ℕ) (s rest : List ℕ)
    → length s < 2 ^ 62
    → At p pos (put_length_encoded_string s ++ rest)
    → read_string p pos ≡ ok (s, pos + length (put_length_encoded_string s))
unfolding read_string
read_string-At p pos [] rest h at = rw (slice_from-At p pos _ at, length_enoded_string-put_nil rest)
read_string-At p pos (c ∷ cs) rest h at =
    rw (slice_from-At p pos _ at, length_enoded_string-put (c ∷ cs) rest h (omega arith))

get_elem?-drop : (p : List ℕ) (pos k : ℕ) → get_elem? p (pos + k) ≡ get_elem? (drop pos p) k
get_elem?-drop p zero k = ap (get_elem? p) (omega arith)
get_elem?-drop [] (suc n) k = refl
get_elem?-drop (x ∷ p) (suc n) k =
    ap (get_elem? (x ∷ p)) (let e : suc n + k ≡ suc (n + k) = omega arith in e)
    ∙ get_elem?-drop p n k

index_at-drop : (p : List ℕ) (pos k : ℕ) → index_at p (pos + k) ≡ index_at (drop pos p) k
index_at-drop p pos k = rw (index_at, get_elem?-drop p pos k)

little_endian-drop :
    (k : ℕ) (p : List ℕ) (pos i : ℕ) → little_endian k p (pos + i) ≡ little_endian k (drop pos p) i
unfolding little_endian
little_endian-drop zero p pos i = refl
little_endian-drop (suc k) p pos i =
    let e : pos + i + 1 ≡ pos + (i + 1) = omega arith in
    rw (index_at-drop p pos i, e, little_endian-drop k p pos (i + 1))

-- The bytes at a position, read where they stand.
pub little_endian-At :
    (k : ℕ) (p : List ℕ) (pos : ℕ) (rest : List ℕ)
    → At p pos rest
    → little_endian k p pos ≡ little_endian k rest 0
little_endian-At k p pos rest at =
    ap (little_endian k p) (let e : pos ≡ pos + 0 = omega arith in e)
    ∙ little_endian-drop k p pos 0
    ∙ ap (λ l. little_endian k l 0) at.0

abbrev with_numbers : Field → Field → Field
with_numbers g f = record f {
  charset = g.charset;
  column_length = g.column_length;
  type = g.type;
  flag = g.flag;
  decimal = g.decimal;
}

bytes_2 : (n : ℕ) → n < 2 ^ 16 → n / 2 ^ (8 * 0) % 256 + 256 * (n / 2 ^ (8 * 1) % 256 + 0) ≡ n
bytes_2 n h = omega arith

bytes_4 :
    (n : ℕ)
    → n < 2 ^ 32
    → n / 2 ^ (8 * 0) % 256
        + 256
          * (n / 2 ^ (8 * 1) % 256
              + 256 * (n / 2 ^ (8 * 2) % 256 + 256 * (n / 2 ^ (8 * 3) % 256 + 0)))
      ≡ n
bytes_4 n h = omega arith

-- The numbers of a field are read at a run of bytes that starts with them.
numbers_read :
    (g f : Field) (p : List ℕ) (pos : ℕ)
    → g.charset < 2 ^ 16
    → g.column_length < 2 ^ 32
    → g.flag < 2 ^ 16
    → drop pos p ≡ dump_numbers g
    → parse_numbers p pos f ≡ (
        if ltb (pos + 13) (length p)
        then parse_default p (pos + 13) (with_numbers g f)
        else ok (with_numbers g f))
unfolding parse_numbers dump_numbers
numbers_read g f p pos h1 h2 h3 e =
    rw
      (
        little_endian-drop 2 p pos 1,
        little_endian-drop 4 p pos 3,
        index_at-drop p pos 7,
        little_endian-drop 2 p pos 8,
        index_at-drop p pos 10,
        e,
      )
      (unfold little_endian uint16_to_bytes uint32_to_bytes in
        rw (bytes_2 g.charset h1, bytes_4 g.column_length h2, bytes_2 g.flag h3))

-- The values of a description that the protocol has room for.
pub record Fits (f : Field) : Type 0 where
  pub schema : length f.schema < 2 ^ 62
  pub table : length f.table < 2 ^ 62
  pub org_table : length f.org_table < 2 ^ 62
  pub name : length f.name < 2 ^ 62
  pub org_name : length f.org_name < 2 ^ 62
  pub charset : f.charset < 2 ^ 16
  pub column_length : f.column_length < 2 ^ 32
  pub flag : f.flag < 2 ^ 16

-- What is read back of `f` from the packet `p`, its default value left aside.
abbrev pub described : List ℕ → Field → Field
described p f = record f {
  field_data = some p;
  is_unsigned = false;
  default_value_length = 0;
  default_value = none;
}

-- Where the default value starts in the packet of a field.
abbrev pub strings_end : Field → ℕ
strings_end f =
    length def_cache
    + length (put_length_encoded_string f.schema)
    + length (put_length_encoded_string f.table)
    + length (put_length_encoded_string f.org_table)
    + length (put_length_encoded_string f.name)
    + length (put_length_encoded_string f.org_name)

module _ (f : Field) where
  -- What stands in the packet from each string on.
  abbrev pub from_org_name : List ℕ
  from_org_name = put_length_encoded_string f.org_name ++ dump_numbers f

  abbrev pub from_name : List ℕ
  from_name = put_length_encoded_string f.name ++ from_org_name

  abbrev pub from_org_table : List ℕ
  from_org_table = put_length_encoded_string f.org_table ++ from_name

  abbrev pub from_table : List ℕ
  from_table = put_length_encoded_string f.table ++ from_org_table

  abbrev pub from_schema : List ℕ
  from_schema = put_length_encoded_string f.schema ++ from_table

  -- The five strings are read one behind the other, and the numbers stand behind them.
  parse_strings :
      (p : List ℕ)
      → p ≡ def_cache ++ from_schema
      → Fits f
      → At p (strings_end f) (dump_numbers f)
        × (parse p
            ≡ parse_numbers p (strings_end f) (record (no_field p) {
              schema = f.schema;
              table = f.table;
              org_table = f.org_table;
              name = f.name;
              org_name = f.org_name;
            }))
  unfolding parse
  parse_strings p e fits =
      let s0 = length def_cache in
      let s1 = s0 + length (put_length_encoded_string f.schema) in
      let s2 = s1 + length (put_length_encoded_string f.table) in
      let s3 = s2 + length (put_length_encoded_string f.org_table) in
      let s4 = s3 + length (put_length_encoded_string f.name) in
      let a0 : At p s0 from_schema =
        subst (λ k. At p k from_schema) (let z : 0 + s0 ≡ s0 = omega arith in z)
          (At-append p 0 def_cache from_schema (e, omega arith)) in
      let a1 = At-append p s0 (put_length_encoded_string f.schema) from_table a0 in
      let a2 = At-append p s1 (put_length_encoded_string f.table) from_org_table a1 in
      let a3 = At-append p s2 (put_length_encoded_string f.org_table) from_name a2 in
      let a4 = At-append p s3 (put_length_encoded_string f.name) from_org_name a3 in
      let skipped : skip_length_enoded_string p ≡ ok s0 =
        ap skip_length_enoded_string e
        ∙ skip_length_enoded_string-put _ from_schema (omega arith) in
      (
        At-append p s4 (put_length_encoded_string f.org_name) (dump_numbers f) a4,
        rw (
          skipped,
          read_string-At p s0 f.schema from_table fits.schema a0,
          read_string-At p s1 f.table from_org_table fits.table a1,
          read_string-At p s2 f.org_table from_name fits.org_table a2,
          read_string-At p s3 f.name from_org_name fits.name a3,
          read_string-At p s4 f.org_name (dump_numbers f) fits.org_name a4,
        ),
      )

  -- The packet up to the default value is read back, and the default value stands behind it.
  pub parse-dump_fields :
      (p : List ℕ)
      → p ≡ def_cache ++ from_schema
      → Fits f
      → At p (strings_end f + 13) (dump_default f)
        × (parse p ≡ (
            if ltb (strings_end f + 13) (length p)
            then parse_default p (strings_end f + 13) (described p f)
            else ok (described p f)))
  unfolding dump_numbers uint16_to_bytes uint32_to_bytes
  parse-dump_fields p e fits =
      let (at, read) = parse_strings p e fits in
      (
        At-append p (strings_end f)
            (0x0c ∷ uint16_to_bytes f.charset
              ++ (uint32_to_bytes f.column_length
                  ++ (f.type ∷ uint16_to_bytes f.flag ++ (f.decimal ∷ 0 ∷ 0 ∷ []))))
            (dump_default f) at,
        read ∙ numbers_read f _ p (strings_end f) fits.charset fits.column_length fits.flag at.0,
      )
