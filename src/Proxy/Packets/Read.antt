-- ===== src/Proxy/Packets/Read.antt =====
-- proxy/ and mysql/conn.go: what the proxy writes to its client is what a client of this repository
-- reads of a server.
use cm.Common.{
  ℕ, suc, ◌+◌, ◌^◌, ◌<◌, ◌≡◌, refl, sym, ap, ◌∙◌, List, [], ◌∷◌, ◌++◌, length, Bool, true, false,
  Option, none, some, if◌then◌else◌, ok, ◌>>=◌, map, All, arith, length-append, length-map,
  index_at, >>=-assoc, ◌==◌, leb, Bool-cases, inl, inr,
}
use mathlib.Core.List.{append_assoc, append-nil}
use cm.Mysql.LenEnc.{put_length_encoded_int, uint16_to_bytes, little_endian, length_encoded_int}
use cm.Mysql.LenEnc.RoundTrip.{length_encoded_int-put}
use cm.Mysql.Field.{Field, dump}
use cm.Mysql.Field.Layout.{Fits, described}
use cm.Mysql.Field.RoundTrip.{parse-dump, dump_first}
use cm.Mysql.Resultset.{Resultset, Floats, RowValue}
use cm.Mysql.Client.{
  MySqlConn, QueryResult, answered, is_eof_packet, eof_status, columns_loop, rows_loop, parse_rows,
  read_resultset, read_result, Names, read_packet, field_packets, field_list, listed,
}
use cm.Proxy.Packets.{write_eof, write_fields, write_resultset, write_field_list}

module _ (p41 : Bool) (status : ℕ) where
  is_eof_packet-write_eof : is_eof_packet (write_eof p41 status) ≡ ok true
  unfolding is_eof_packet write_eof uint16_to_bytes
  is_eof_packet-write_eof = ground arith

  eof_status-write_eof :
      (old : ℕ)
      → status < 2 ^ 16
      → eof_status p41 old (write_eof p41 status) ≡ ok (if p41 then status else old)
  unfolding eof_status write_eof little_endian uint16_to_bytes
  eof_status-write_eof old h = ground arith

-- A description that was not read off a packet and has no default value.
pub record IsPlain (f : Field) : Type 0 where
  pub fits : Fits f
  pub fresh : f.field_data ≡ none
  pub no_default : f.default_value ≡ none

is_eof_packet-dump : (f : Field) → f.field_data ≡ none → is_eof_packet (dump f) ≡ ok false
unfolding is_eof_packet
is_eof_packet-dump f h = let (rest, e) = dump_first f h in ap is_eof_packet e ∙ first_3 rest
  where
    first_3 : (rest : List ℕ) → is_eof_packet (3 ∷ rest) ≡ ok false
    first_3 rest = ground arith

-- The names of the fields with their places, of which the first is `i`: later names stand in front.
abbrev names_from : ℕ → List Field → Names → Names
names_from i [] names = names
names_from i (f ∷ fs) names = names_from (suc i) fs ((f.name, i) ∷ names)

-- What is read of the fields.
abbrev pub read_back : List Field → List Field
read_back [] = []
read_back (f ∷ fs) = described (dump f) f ∷ read_back fs

==-refl_of : (a b : ℕ) → a ≡ b → (a == b) ≡ true
==-refl_of a b h = ground arith

write_fields-some : (fs : List Field) → write_fields (map some fs) ≡ ok (map dump fs)
unfolding write_fields
write_fields-some [] = refl
write_fields-some (f ∷ fs) = rw (write_fields-some fs)

-- The columns are read, one for each packet, and then the EOF packet.
columns_loop-dump :
    (p41 : Bool) (status old : ℕ) (fs before : List Field) (names : Names) (rest : List (List ℕ))
    (count : ℕ)
    → status < 2 ^ 16
    → All IsPlain fs
    → length before + length fs ≡ count
    → columns_loop p41 count before names old (map dump fs ++ write_eof p41 status ∷ rest)
      ≡ ok (
        before ++ read_back fs,
        names_from (length before) fs names,
        (if p41 then status else old),
        rest,
      )
unfolding columns_loop
columns_loop-dump p41 status old [] before names rest count h plain n = rw (
  is_eof_packet-write_eof p41 status,
  eof_status-write_eof p41 status old h,
  ==-refl_of (length before) count (omega arith),
  append-nil before,
)
columns_loop-dump p41 status old (f ∷ fs) before names rest count h (plain, later) n =
    let f' = described (dump f) f in
    let longer : length (before ++ f' ∷ []) ≡ suc (length before) =
      omega (arith, length-append before (f' ∷ [])) in
    let in_range : leb count (length before) ≡ false = ground arith in
    let others =
      columns_loop-dump p41 status old fs (before ++ f' ∷ []) ((f.name, length before) ∷ names) rest
        count h later (omega arith) in
    rw
      (
        is_eof_packet-dump f plain.fresh,
        in_range,
        parse-dump f plain.fits plain.fresh plain.no_default,
      )
      (others ∙ rw (longer, append_assoc before (f' ∷ []) (read_back fs)))

-- The rows are read as they are, unless one looks like an EOF packet.
rows_loop-append :
    (p41 : Bool) (status old : ℕ) (rows rest : List (List ℕ))
    → status < 2 ^ 16
    → All (λ d. is_eof_packet d ≡ ok false) rows
    → rows_loop p41 old (rows ++ write_eof p41 status ∷ rest)
      ≡ ok (rows, (if p41 then status else old), rest)
unfolding rows_loop
rows_loop-append p41 status old [] rest h no_eof =
    rw (is_eof_packet-write_eof p41 status, eof_status-write_eof p41 status old h)
rows_loop-append p41 status old (d ∷ ds) rest h (no_eof, later) =
    rw (no_eof, rows_loop-append p41 status old ds rest h later)

-- The packet of a column count is none of those that stand for something else.
first_of_count :
    (n : ℕ)
    → 0 < n
    → n < 2 ^ 16
    → (b : ℕ) × (index_at (put_length_encoded_int n) 0 ≡ ok b)
      × ((b == 0) ≡ false)
      × ((b == 0xff) ≡ false)
      × ((b == 0xfb) ≡ false)
unfolding put_length_encoded_int
first_of_count n h k = elim (Bool-cases (leb n 250)) [
  | inl small ↦ rw small (n, refl, ground arith, ground arith, ground arith)
  | inr large ↦
      let e : leb n 0xffff ≡ true = ground arith in rw (large, e) (0xfc, refl, refl, refl, refl)
]

twice_else : (b : Bool) (x y : ℕ) → (if b then x else (if b then x else y)) ≡ (if b then x else y)
twice_else true x y = refl
twice_else false x y = refl

twice_then : (b : Bool) (x y z : ℕ) → (if b then (if b then x else y) else z) ≡ (if b then x else z)
twice_then true x y z = refl
twice_then false x y z = refl

module _ (F : Floats) (p41 transactions : Bool) (status old : ℕ) (fs : List Field) (r : Resultset)
    (rest : List (List ℕ)) where
  -- The client's connection, and what it reads.
  abbrev pub reading : List (List ℕ) → MySqlConn
  reading packets = record {
    protocol_41 = p41;
    transactions = transactions;
    status = old;
    packets = packets;
  }

  abbrev pub result_read : List RowValue → QueryResult
  result_read rows = record {
    status = if p41 then status else 0;
    insert_id = 0;
    affected_rows = 0;
    resultset = some (record {
      fields = map some (read_back fs);
      field_names = names_from 0 fs [];
      values = rows;
      row_datas = r.row_datas;
    });
  }

  abbrev pub connection_left : MySqlConn
  connection_left = record (reading rest) { status = if p41 then status else old }

  read_resultset-packets :
      status < 2 ^ 16
      → All IsPlain fs
      → length fs < 2 ^ 16
      → All (λ d. is_eof_packet d ≡ ok false) r.row_datas
      → read_resultset F false (put_length_encoded_int (length fs)) (
          reading (
            map dump fs ++ (write_eof p41 status ∷ (r.row_datas ++ (write_eof p41 status ∷ rest)))))
        ≡ (parse_rows F false (read_back fs) r.row_datas >>= λ rows.
            ok (result_read rows, connection_left))
  unfolding read_resultset
  read_resultset-packets h plain few no_eof =
      let n = length fs in
      let counted : length_encoded_int (put_length_encoded_int n)
          ≡ ok (record { num = n; is_null = false; n = length (put_length_encoded_int n) }) =
        ap length_encoded_int (sym (append-nil (put_length_encoded_int n)))
        ∙ length_encoded_int-put n [] (omega arith) in
      let rows = r.row_datas ++ (write_eof p41 status ∷ rest) in
      rw (
        counted,
        ==-refl_of (length (put_length_encoded_int n)) _ refl,
        columns_loop-dump p41 status 0 fs [] [] rows n h plain (omega arith),
        rows_loop-append p41 status (if p41 then status else 0) r.row_datas rest h no_eof,
        twice_else p41 status 0,
        twice_then p41 status 0 old,
      )

  -- What writeResultset sends, readResult reads: the columns with their names, the rows as they were sent
  -- and the values that they parse to, and the status where the protocol has one. The fields are
  -- descriptions of their own without default values, at least one and fewer than 2^16, and no row looks
  -- like an EOF packet.
  pub read_result-write_resultset :
      status < 2 ^ 16
      → r.fields ≡ map some fs
      → All IsPlain fs
      → 0 < length fs
      → length fs < 2 ^ 16
      → All (λ d. is_eof_packet d ≡ ok false) r.row_datas
      → (write_resultset p41 status r >>= λ packets.
          read_result F false (reading (packets ++ rest)))
        ≡ (parse_rows F false (read_back fs) r.row_datas >>= λ rows.
            ok (answered (result_read rows), connection_left))
  unfolding write_resultset read_result read_packet
  read_result-write_resultset h has plain some_field few no_eof =
      let (b, first, not_ok, not_error, not_file) = first_of_count (length fs) some_field few in
      let eof = write_eof p41 status in
      let joined : (map dump fs ++ (eof ∷ r.row_datas ++ (eof ∷ []))) ++ rest
          ≡ map dump fs ++ (eof ∷ (r.row_datas ++ (eof ∷ rest))) =
        append_assoc (map dump fs) (eof ∷ r.row_datas ++ (eof ∷ [])) rest
        ∙ ap (λ l. map dump fs ++ (eof ∷ l)) (append_assoc r.row_datas (eof ∷ []) rest) in
      let count : length (map {A = Field} {B = Option Field} (λ f. some f) fs) ≡ length fs =
        length-map (λ f. some f) fs in
      rw
        (
          has,
          write_fields-some fs,
          count,
          joined,
          first,
          not_ok,
          not_error,
          not_file,
          read_resultset-packets h plain few no_eof,
        )
        (>>=-assoc (parse_rows F false (read_back fs) r.row_datas) _ _)

field_packets-dump :
    (p41 : Bool) (status : ℕ) (fs : List Field) (rest : List (List ℕ))
    → All IsPlain fs
    → field_packets (map dump fs ++ (write_eof p41 status ∷ rest)) ≡ ok (read_back fs, rest)
unfolding field_packets
field_packets-dump p41 status [] rest plain = rw (is_eof_packet-write_eof p41 status)
field_packets-dump p41 status (f ∷ fs) rest (plain, later) = rw (
  is_eof_packet-dump f plain.fresh,
  parse-dump f plain.fits plain.fresh plain.no_default,
  field_packets-dump p41 status fs rest later,
)

-- FieldList takes the first field that the proxy sends for the head of a result and drops it: it answers
-- the other fields. The fields are descriptions of their own without default values.
pub field_list-write_field_list :
    (p41 transactions : Bool) (status old : ℕ) (f : Field) (fs : List Field) (rest : List (List ℕ))
    → All IsPlain (f ∷ fs)
    → (write_field_list p41 status (map some (f ∷ fs)) >>= λ packets. field_list (record {
      protocol_41 = p41;
      transactions = transactions;
      status = old;
      packets = packets ++ rest;
    }))
      ≡ ok (
        listed (read_back fs),
        record { protocol_41 = p41; transactions = transactions; status = old; packets = rest },
      )
unfolding write_field_list field_list read_packet
field_list-write_field_list p41 transactions status old f fs rest plain =
    let (tail, starts) = dump_first f plain.0.fresh in
    let first : index_at (dump f) 0 ≡ ok 3 = ap (λ d. index_at d 0) starts in
    rw (
      write_fields-some (f ∷ fs),
      append_assoc (map dump fs) (write_eof p41 status ∷ []) rest,
      first,
      field_packets-dump p41 status fs rest plain.1,
    )
