-- ===== src/Proxy/Stmt/Checks.antt =====
-- Arguments of prepared statements.
use cm.Common.{slice_from, slice, ◌≡◌, refl, [], ◌∷◌, ok, err, malform_packet}
use cm.Mysql.LenEnc.{little_endian, length_enoded_string, length_encoded_int}
use cm.Mysql.Resultset.Binary.{layout_of}
use cm.Proxy.Stmt.{
  null, signed, bytes, bind_stmt_args, bind_loop, param_at, null_param, arg_at, number_at, text_arg,
  integer_arg,
}

-- A null, a SHORT and a text.
three_args :
    bind_stmt_args 3 (1 ∷ []) (3 ∷ 0 ∷ 2 ∷ 0 ∷ 254 ∷ 0 ∷ []) (0xfe ∷ 0xff ∷ 2 ∷ b'u' ∷ b'v' ∷ [])
    ≡ ok (null ∷ signed 2 0xfffe ∷ bytes (b'u' ∷ b'v' ∷ []) ∷ [])
unfolding bind_stmt_args bind_loop param_at null_param arg_at number_at text_arg integer_arg
    layout_of little_endian length_enoded_string length_encoded_int slice_from slice
three_args = refl

cut_value : bind_stmt_args 1 (0 ∷ []) (3 ∷ 0 ∷ []) (1 ∷ 2 ∷ 3 ∷ []) ≡ err malform_packet
unfolding bind_stmt_args bind_loop param_at null_param arg_at number_at layout_of
cut_value = refl
