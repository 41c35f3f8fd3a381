-- ===== src/Mysql/LenEnc/Checks.antt =====
-- Runs of the length-encoded forms, and the theorems at concrete inputs.
use cm.Common.{
  ℕ, ◌≡◌, ◌≢◌, ◌+◌, ◌<◌, ◌⊎◌, refl, false, true, some, List, [], ◌∷◌, ◌++◌, length, ok, err, eof,
  panic, arith, slice, ◌>>=◌,
}
use cm.Mysql.LenEnc.{
  LenEncString, length_encoded_int, put_length_encoded_int, length_enoded_string, sub_string,
  skip_length_enoded_string, put_length_encoded_string,
}
use cm.Mysql.LenEnc.RoundTrip.{length_enoded_string-put}
use cm.Mysql.LenEnc.Reads.{Reads, length_enoded_string-Reads}
use cm.Mysql.LenEnc.Bounds.{skip_length_enoded_string_lem}

put_300 : put_length_encoded_int 300 ≡ 0xfc ∷ 0x2c ∷ 0x01 ∷ []
unfolding put_length_encoded_int
put_300 = refl

read_null : length_encoded_int (0xfb ∷ []) ≡ ok (record { num = 0; is_null = true; n = 1 })
unfolding length_encoded_int
read_null = refl

abbrev def : List ℕ
def = b'd' ∷ b'e' ∷ b'f' ∷ []

length_enoded_string-put_example :
    length_enoded_string (put_length_encoded_string def ++ 9 ∷ [])
    ≡ ok (record { str = some def; is_null = false; n = length (put_length_encoded_string def) })
length_enoded_string-put_example = length_enoded_string-put def (9 ∷ []) (omega arith) (omega arith)

abbrev cut_number : List ℕ
cut_number = 0xfc ∷ 1 ∷ []

read_def :
    length_enoded_string (3 ∷ b'd' ∷ b'e' ∷ b'f' ∷ 9 ∷ [])
    ≡ ok (record { str = some def; is_null = false; n = 4 })
unfolding length_enoded_string length_encoded_int sub_string slice
read_def = refl

read_length :
    length_encoded_int (3 ∷ b'd' ∷ b'e' ∷ b'f' ∷ 9 ∷ [])
    ≡ ok (record { num = 3; is_null = false; n = 1 })
unfolding length_encoded_int
read_length = refl

length_enoded_string-Reads_example :
    ((5 < 1 + 3) × (length_enoded_string (3 ∷ b'd' ∷ b'e' ∷ b'f' ∷ 9 ∷ []) ≡ err eof))
    ⊎ ((s : LenEncString) × (length_enoded_string (3 ∷ b'd' ∷ b'e' ∷ b'f' ∷ 9 ∷ []) ≡ ok s)
        × Reads (3 ∷ b'd' ∷ b'e' ∷ b'f' ∷ 9 ∷ []) (record { num = 3; is_null = false; n = 1 }) s)
length_enoded_string-Reads_example =
    length_enoded_string-Reads (3 ∷ b'd' ∷ b'e' ∷ b'f' ∷ 9 ∷ [])
      (record { num = 3; is_null = false; n = 1 }) read_length (omega arith)

read_def_answers : length_enoded_string (3 ∷ b'd' ∷ b'e' ∷ b'f' ∷ 9 ∷ []) ≢ panic
read_def_answers e = cc (read_def, e)

skip_length_enoded_string_lem_example :
    skip_length_enoded_string (3 ∷ b'd' ∷ b'e' ∷ b'f' ∷ 9 ∷ [])
    ≡ (length_enoded_string (3 ∷ b'd' ∷ b'e' ∷ b'f' ∷ 9 ∷ []) >>= λ s. ok s.n)
skip_length_enoded_string_lem_example =
    skip_length_enoded_string_lem (3 ∷ b'd' ∷ b'e' ∷ b'f' ∷ 9 ∷ []) read_def_answers

read_cut : length_enoded_string (3 ∷ b'd' ∷ []) ≡ err eof
unfolding length_enoded_string length_encoded_int
read_cut = refl
