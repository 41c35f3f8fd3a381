-- ===== src/Proxy/Packets/Replies.antt =====
-- proxy/conn.go and mysql/conn.go: the replies without rows, written and read.
use cm.Common.{
  ℕ, ◌+◌, ◌^◌, ◌<◌, ◌≡◌, refl, sym, ap, ◌∙◌, List, [], ◌∷◌, ◌++◌, length, Bool, true, none, ok,
  arith, IsU64, slice, slice_from, slice-append, index_at,
}
use cm.Mysql.LenEnc.{put_length_encoded_int, uint16_to_bytes, little_endian}
use cm.Mysql.LenEnc.RoundTrip.{length_encoded_int-put}
use cm.Mysql.Client.{
  MySqlConn, answered, sql_error, read_ok, handle_ok_packet, handle_error_packet, read_packet,
}
use cm.Proxy.Packets.{write_ok, write_error}
use cm.Mysql.Field.Layout.{At, At-append, slice_from-At, little_endian-At}

-- A client's connection under the protocol 4.1.
abbrev pub client : Bool → ℕ → List (List ℕ) → MySqlConn
client transactions status packets = record {
  protocol_41 = true;
  transactions = transactions;
  status = status;
  packets = packets;
}

module _ (transactions : Bool) (old : ℕ) (rest : List (List ℕ)) where
  ok_read :
      (status affected_rows insert_id : ℕ)
      → status < 2 ^ 16
      → IsU64 affected_rows
      → IsU64 insert_id
      → handle_ok_packet
          (write_ok true status affected_rows insert_id)
          (client transactions old rest)
        ≡ ok (
          record {
            status = status;
            insert_id = insert_id;
            affected_rows = affected_rows;
            resultset = none;
          },
          client transactions status rest,
        )
  unfolding handle_ok_packet write_ok
  ok_read status affected_rows insert_id h k l =
      let a = put_length_encoded_int affected_rows in
      let i = put_length_encoded_int insert_id in
      let end = uint16_to_bytes status ++ 0 ∷ 0 ∷ [] in
      let d = 0 ∷ (a ++ (i ++ end)) in
      let at_a : At d 1 (a ++ (i ++ end)) = (refl, omega arith) in
      let at_i = At-append d 1 a (i ++ end) at_a in
      let at_end = At-append d (1 + length a) i end at_i in
      let status_read : little_endian 2 end 0 ≡ ok status =
        unfold little_endian uint16_to_bytes in ground arith in
      rw (
        slice_from-At d 1 _ at_a,
        length_encoded_int-put affected_rows (i ++ end) k,
        slice_from-At d (1 + length a) _ at_i,
        length_encoded_int-put insert_id end l,
        little_endian-At 2 d (1 + length a + length i) end at_end,
        status_read,
      )

  error_read :
      (code : ℕ) (state message : List ℕ)
      → code < 2 ^ 16
      → length state ≡ 5
      → handle_error_packet (write_error true code state message) (client transactions old rest)
        ≡ ok (sql_error code state message)
  unfolding handle_error_packet write_error uint16_to_bytes
  error_read code state message h five =
      let head = 0xff ∷ uint16_to_bytes code ++ b'#' ∷ [] in
      let d = head ++ (state ++ message) in
      let at_message = At-append d 4 state message (refl, omega arith) in
      let code_read : little_endian 2 d 1 ≡ ok code = unfold little_endian in ground arith in
      let nine : 4 + length state ≡ 9 = omega arith in
      let state_read : slice d 4 9 ≡ ok state =
        ap (slice d 4) (sym nine) ∙ slice-append head state message in
      let message_read : slice_from d 9 ≡ ok message =
        ap (slice_from d) (sym nine) ∙ slice_from-At d (4 + length state) message at_message in
      rw (code_read, state_read, message_read)

  -- Under the protocol 4.1 readOK reads the status, the affected rows and the last inserted id of an OK
  -- packet as writeOK wrote them, and the code, the state and the message of an error packet as
  -- writeError wrote them, for a state of five bytes.
  pub read_ok-write_ok :
      (status affected_rows insert_id code : ℕ) (state message : List ℕ)
      → status < 2 ^ 16
      → IsU64 affected_rows
      → IsU64 insert_id
      → code < 2 ^ 16
      → length state ≡ 5
      → (read_ok (client transactions old (write_ok true status affected_rows insert_id ∷ rest))
          ≡ ok (
            answered (record {
              status = status;
              insert_id = insert_id;
              affected_rows = affected_rows;
              resultset = none;
            }),
            client transactions status rest,
          ))
        × (read_ok (client transactions old (write_error true code state message ∷ rest))
            ≡ ok (sql_error code state message, client transactions old rest))
  unfolding read_ok read_packet
  read_ok-write_ok status affected_rows insert_id code state message h1 h2 h3 h4 h5 =
      let first_ok : index_at (write_ok true status affected_rows insert_id) 0 ≡ ok 0 =
        unfold write_ok in refl in
      let first_error : index_at (write_error true code state message) 0 ≡ ok 0xff =
        unfold write_error in refl in
      (
        rw (first_ok, ok_read status affected_rows insert_id h1 h2 h3),
        rw (first_error, error_read code state message h4 h5),
      )
