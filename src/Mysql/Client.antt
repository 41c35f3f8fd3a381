-- ===== src/Mysql/Client.antt =====
-- mysql/conn.go and mysql/result.go: what a client reads of the server's packets. A connection is the
-- payloads that `readPacket` gives, one after the other; behind them the connection is bad.
use cm.Common.{
  ℕ, ◌+◌, List, [], ◌∷◌, ◌++◌, length, Bool, true, false, ◌&&◌, ◌||◌, Option, none, some, leb, ◌==◌,
  if◌then◌else◌, bad_conn, malform_packet, unknown_type, Result, ok, err, panic, ◌>>=◌, index_at,
  slice, slice_from, map, not,
}
use cm.Mysql.LenEnc.{little_endian, length_encoded_int}
use cm.Mysql.Field.{Field}
use cm.Mysql.Field as Field
use cm.Mysql.Resultset.{Floats, RowValue, Resultset, parse_text}
use cm.Mysql.Resultset.Binary.{parse_binary}

-- The bits of the capability that the readers ask for.
pub record MySqlConn : Type 0 where
  pub protocol_41 : Bool
  pub transactions : Bool
  pub status : ℕ
  pub packets : List (List ℕ)

-- `Result`: the embedded set of results is nil for an OK packet.
pub record QueryResult : Type 0 where
  pub status : ℕ
  pub insert_id : ℕ
  pub affected_rows : ℕ
  pub resultset : Option Resultset

pub data Reply : Type 0 where
  answered : QueryResult → Reply
  -- `SqlError`: the code, the state and the message.
  sql_error : ℕ → List ℕ → List ℕ → Reply

unfoldable pub read_packet : MySqlConn → Result (List ℕ × MySqlConn)
read_packet c = elim c.packets [ [] ↦ err bad_conn | p ∷ ps ↦ ok (p, record c { packets = ps }) ]

-- `EOF_HEADER` is 0xfe.
unfoldable pub is_eof_packet : List ℕ → Result Bool
is_eof_packet d = do first ← index_at d 0; ok (first == 0xfe && leb (length d) 5)

-- The status that an EOF packet brings.
unfoldable pub eof_status : Bool → ℕ → List ℕ → Result ℕ
eof_status true old d = little_endian 2 d 3
eof_status false old d = ok old

abbrev pub Names : Type 0
Names = List (List ℕ × ℕ)

-- The loop of `readResultColumns`: `fields` are read, and `count` are announced. It answers the fields,
-- their names, the status and the packets that are left.
unfoldable pub columns_loop :
    Bool
    → ℕ
    → List Field
    → Names
    → ℕ
    → List (List ℕ)
    → Result (List Field × Names × ℕ × List (List ℕ))
columns_loop p41 count fields names status [] = err bad_conn
columns_loop p41 count fields names status (d ∷ ds) = do
  eof ← is_eof_packet d
  elim eof [
    | true ↦ eof_status p41 status d >>= λ status'.
        if length fields == count then ok (fields, names, status', ds) else err malform_packet
    | false ↦
        if leb count (length fields)
        then panic
        else (Field.parse d >>= λ f.
            columns_loop p41 count (fields ++ f ∷ []) ((f.name, length fields) ∷ names) status ds)
  ]

-- The loop of `readResultRows` over the packets, up to the EOF packet.
unfoldable pub rows_loop : Bool → ℕ → List (List ℕ) → Result (List (List ℕ) × ℕ × List (List ℕ))
rows_loop p41 status [] = err bad_conn
rows_loop p41 status (d ∷ ds) = do
  eof ← is_eof_packet d
  elim eof [
    | true ↦ eof_status p41 status d >>= λ status'. ok ([], status', ds)
    | false ↦ rows_loop p41 status ds >>= λ r.
        let (rows, status', rest) = r in ok (d ∷ rows, status', rest)
  ]

unfoldable pub parse_row : Floats → Bool → List Field → List ℕ → Result RowValue
parse_row F binary fs d = if binary then parse_binary F d fs else parse_text F d fs

unfoldable pub parse_rows : Floats → Bool → List Field → List (List ℕ) → Result (List RowValue)
parse_rows F binary fs [] = ok []
parse_rows F binary fs (d ∷ ds) = do
  row ← parse_row F binary fs d
  rows ← parse_rows F binary fs ds
  ok (row ∷ rows)

unfoldable pub read_resultset :
    Floats → Bool → List ℕ → MySqlConn → Result (QueryResult × MySqlConn)
read_resultset F binary d c = do
  i ← length_encoded_int d
  if not (i.n == length d) then err malform_packet else (do
    (fields, names, status, packets) ← columns_loop c.protocol_41 i.num [] [] 0 c.packets
    (row_datas, status, packets) ← rows_loop c.protocol_41 status packets
    rows ← parse_rows F binary fields row_datas
    ok (
      record {
        status = status;
        insert_id = 0;
        affected_rows = 0;
        resultset = some (record {
          fields = map some fields;
          field_names = names;
          values = rows;
          row_datas = row_datas;
        });
      },
      record c { status = if c.protocol_41 then status else c.status; packets = packets },
    ))

-- `data[pos:]` and a status of two bytes, where the capability has one.
unfoldable pub handle_ok_packet : List ℕ → MySqlConn → Result (QueryResult × MySqlConn)
handle_ok_packet d c = do
  rest ← slice_from d 1
  affected ← length_encoded_int rest
  let pos = 1 + affected.n
  rest ← slice_from d pos
  insert ← length_encoded_int rest
  let pos = pos + insert.n
  let has_status = c.protocol_41 || c.transactions
  status ← if has_status then little_endian 2 d pos else ok 0
  ok (
    record {
      status = status;
      insert_id = insert.num;
      affected_rows = affected.num;
      resultset = none;
    },
    record c { status = if has_status then status else c.status },
  )

unfoldable pub handle_error_packet : List ℕ → MySqlConn → Result Reply
handle_error_packet d c = do
  code ← little_endian 2 d 1
  state ← if c.protocol_41 then slice d 4 9 else ok []
  message ← slice_from d (if c.protocol_41 then 9 else 3)
  ok (sql_error code state message)

abbrev replied : Result (QueryResult × MySqlConn) → Result (Reply × MySqlConn)
replied r = do (a, c) ← r; ok (answered a, c)

abbrev refused : MySqlConn → Result Reply → Result (Reply × MySqlConn)
refused c r = do e ← r; ok (e, c)

unfoldable pub read_ok : MySqlConn → Result (Reply × MySqlConn)
read_ok c = do
  (d, c) ← read_packet c
  first ← index_at d 0
  if first == 0
      then replied (handle_ok_packet d c)
      else if first == 0xff
      then refused c (handle_error_packet d c)
      else err unknown_type

unfoldable pub read_result : Floats → Bool → MySqlConn → Result (Reply × MySqlConn)
read_result F binary c = do
  (d, c) ← read_packet c
  first ← index_at d 0
  if first == 0
      then replied (handle_ok_packet d c)
      else if first == 0xff
      then refused c (handle_error_packet d c)
      else if first == 0xfb
      then err malform_packet
      else replied (read_resultset F binary d c)

read_until_eof : List (List ℕ) → Result (List (List ℕ))
read_until_eof [] = err bad_conn
read_until_eof (d ∷ ds) = do
  eof ← is_eof_packet d
  elim eof [ true ↦ ok ds | false ↦ read_until_eof ds ]

-- The loop of `FieldList` over the packets.
unfoldable pub field_packets : List (List ℕ) → Result (List Field × List (List ℕ))
field_packets [] = err bad_conn
field_packets (d ∷ ds) = do
  eof ← is_eof_packet d
  elim eof [
    | true ↦ ok ([], ds)
    | false ↦
        Field.parse d >>= λ f. field_packets ds >>= λ r. let (fs, rest) = r in ok (f ∷ fs, rest)
  ]

-- The server's refusal, or the fields, and the connection.
pub data FieldReply : Type 0 where
  listed : List Field → FieldReply
  not_listed : Reply → FieldReply

-- What `FieldList` reads once the command is sent.
unfoldable pub field_list : MySqlConn → Result (FieldReply × MySqlConn)
field_list c = do
  (d, c) ← read_packet c
  first ← index_at d 0
  if first == 0xff
      then (do e ← handle_error_packet d c; ok (not_listed e, c))
      else (do (fs, rest) ← field_packets c.packets; ok (listed fs, record c { packets = rest }))
