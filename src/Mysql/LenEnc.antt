-- ===== src/Mysql/LenEnc.antt =====
-- mysql/util.go: length-encoded integers and strings, and fixed-width integers.
-- `|` joins shifted bytes with no bit in common, so it is written as a sum.
pub mod RoundTrip
pub mod Bounds
pub mod Reads
mod Checks
use cm.Common.{
  ℕ, zero, suc, ◌+◌, ◌-◌, ◌*◌, ◌/◌, ◌%◌, ◌^◌, Bool, true, false, ◌||◌, Option, none, some, List, [],
  ◌∷◌, ◌++◌, length, leb, ltb, ◌==◌, if◌then◌else◌, Error, eof, Result, ok, err, panic, ◌>>=◌,
  is_negative, index_at, slice,
}

-- What `LengthEncodedInt` returns: the number, whether it is NULL, and the bytes read.
pub record LenEncInt : Type 0 where
  pub num : ℕ
  pub is_null : Bool
  pub n : ℕ

-- `uint64(b[i]) | uint64(b[i+1])<<8 | …` over `k` bytes.
unfoldable pub little_endian : ℕ → List ℕ → ℕ → Result ℕ
little_endian zero b i = ok 0
little_endian (suc k) b i = do
  low ← index_at b i
  high ← little_endian k b (i + 1)
  ok (low + 256 * high)

abbrev number : ℕ → Result ℕ → Result LenEncInt
number n r = r >>= λ num. ok (record { num = num; is_null = false; n = n })

unfoldable pub length_encoded_int : List ℕ → Result LenEncInt
length_encoded_int b = do
  first ← index_at b 0
  if first == 0xfb
      then ok (record { num = 0; is_null = true; n = 1 })
      else if first == 0xfc
      then number 3 (little_endian 2 b 1)
      else if first == 0xfd
      then number 4 (little_endian 3 b 1)
      else if first == 0xfe
      then number 9 (little_endian 8 b 1)
      else ok (record { num = first; is_null = false; n = 1 })

-- `byte(n >> (8 * i))`
abbrev byte_at : ℕ → ℕ → ℕ
byte_at n i = n / 2 ^ (8 * i) % 256

unfoldable pub uint16_to_bytes : ℕ → List ℕ
uint16_to_bytes n = byte_at n 0 ∷ byte_at n 1 ∷ []

unfoldable pub uint32_to_bytes : ℕ → List ℕ
uint32_to_bytes n = byte_at n 0 ∷ byte_at n 1 ∷ byte_at n 2 ∷ byte_at n 3 ∷ []

unfoldable pub uint64_to_bytes : ℕ → List ℕ
uint64_to_bytes n =
    byte_at n 0
    ∷ byte_at n 1
    ∷ byte_at n 2
    ∷ byte_at n 3
    ∷ byte_at n 4
    ∷ byte_at n 5
    ∷ byte_at n 6
    ∷ byte_at n 7
    ∷ []

-- `tinyIntCache[n]` is the one byte `n`. The last guard holds of every uint64.
unfoldable pub put_length_encoded_int : ℕ → List ℕ
unfolding uint64_to_bytes
put_length_encoded_int n =
    if leb n 250
    then n ∷ []
    else if leb n 0xffff
    then 0xfc ∷ byte_at n 0 ∷ byte_at n 1 ∷ []
    else if leb n 0xffffff
    then 0xfd ∷ byte_at n 0 ∷ byte_at n 1 ∷ byte_at n 2 ∷ []
    else if leb n 0xffffffffffffffff
    then 0xfe
      ∷ byte_at n 0
      ∷ byte_at n 1
      ∷ byte_at n 2
      ∷ byte_at n 3
      ∷ byte_at n 4
      ∷ byte_at n 5
      ∷ byte_at n 6
      ∷ byte_at n 7
      ∷ []
    else []

-- What `LengthEnodedString` returns: the string (`none` for nil), whether it is NULL, the bytes read.
pub record LenEncString : Type 0 where
  pub str : Option (List ℕ)
  pub is_null : Bool
  pub n : ℕ

unfoldable pub sub_string : List ℕ → ℕ → ℕ → Result LenEncString
sub_string b lo n = do s ← slice b lo n; ok (record { str = some s; is_null = false; n = n })

-- The callers drop what comes with the error.
unfoldable pub length_enoded_string : List ℕ → Result LenEncString
unfolding sub_string
length_enoded_string b = do
  i ← length_encoded_int b
  let n = (i.n + i.num) % 2 ^ 64
  if ltb i.num 1
      then ok (record { str = none; is_null = i.is_null; n = i.n })
      else if is_negative n || leb n (length b)
      then sub_string b ((n + 2 ^ 64 - i.num) % 2 ^ 64) n
      else err eof

pub skip_length_enoded_string : List ℕ → Result ℕ
skip_length_enoded_string b = do
  i ← length_encoded_int b
  let n = (i.n + i.num) % 2 ^ 64
  if ltb i.num 1 then ok i.n else if is_negative n || leb n (length b) then ok n else err eof

-- The buffer that the arena gives is empty.
unfoldable pub put_length_encoded_string : List ℕ → List ℕ
put_length_encoded_string b = put_length_encoded_int (length b) ++ b
