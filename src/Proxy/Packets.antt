-- ===== src/Proxy/Packets.antt =====
-- proxy/conn.go, proxy/conn_resultset.go and proxy/conn_select.go: the packets that a session sends its
-- client, by their payloads.
pub mod Read
pub mod Replies
mod Checks
use cm.Common.{
  ℕ, List, [], ◌∷◌, ◌++◌, length, Bool, true, false, Option, none, some, if◌then◌else◌, Result, ok,
  err, panic, ◌>>=◌,
}
use cm.Mysql.LenEnc.{put_length_encoded_int, uint16_to_bytes}
use cm.Mysql.Field.{Field, dump}
use cm.Mysql.Resultset.{Resultset}

-- Whether the client speaks the protocol 4.1, and what it expects of the server then.
pub write_ok : Bool → ℕ → ℕ → ℕ → List ℕ
write_ok p41 status affected_rows insert_id =
    0 ∷ put_length_encoded_int affected_rows
    ++ (put_length_encoded_int insert_id
        ++ (if p41 then uint16_to_bytes status ++ 0 ∷ 0 ∷ [] else []))

-- An error that is no `SqlError` has been given a code and a state.
pub write_error : Bool → ℕ → List ℕ → List ℕ → List ℕ
write_error p41 code state message =
    0xff ∷ uint16_to_bytes code ++ ((if p41 then b'#' ∷ state else []) ++ message)

pub write_eof : Bool → ℕ → List ℕ
write_eof p41 status = 0xfe ∷ (if p41 then 0 ∷ 0 ∷ uint16_to_bytes status else [])

-- `v.Dump` of a field that is nil panics.
pub write_fields : List (Option Field) → Result (List (List ℕ))
write_fields [] = ok []
write_fields (none ∷ fs) = panic
write_fields (some f ∷ fs) = do rest ← write_fields fs; ok (dump f ∷ rest)

pub write_resultset : Bool → ℕ → Resultset → Result (List (List ℕ))
write_resultset p41 status r = do
  fields ← write_fields r.fields
  ok (
      put_length_encoded_int (length r.fields) ∷ fields
      ++ (write_eof p41 status ∷ r.row_datas ++ (write_eof p41 status ∷ [])))

pub write_field_list : Bool → ℕ → List (Option Field) → Result (List (List ℕ))
write_field_list p41 status fs = do
  fields ← write_fields fs
  ok (fields ++ write_eof p41 status ∷ [])
