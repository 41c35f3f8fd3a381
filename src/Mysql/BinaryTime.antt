-- ===== src/Mysql/BinaryTime.antt =====
-- mysql/util.go: the texts of the binary protocol's dates and times.
pub mod Texts
mod Checks
use cm.Common.{
  ℕ, zero, suc, ◌+◌, ◌-◌, ◌*◌, ◌%◌, ◌^◌, String, List, [], ◌∷◌, ◌++◌, length, codes, ◌==◌,
  if◌then◌else◌, Error, invalid_length, Result, ok, err, panic, ◌>>=◌, index_at, slice,
}
use cm.Mysql.LenEnc.{little_endian}
use cm.Sqlparser.Query.{append_uint}

unfoldable pub zeros : ℕ → List ℕ
zeros zero = []
zeros (suc n) = b'0' ∷ zeros n

-- `%0wd` of a number that is not negative.
pub padded : ℕ → ℕ → List ℕ
padded w n = zeros (w - length (append_uint n)) ++ append_uint n

-- The number's text at a byte.
pub byte_text : List ℕ → ℕ → Result (List ℕ)
byte_text bytes i = do b ← index_at bytes i; ok (padded 2 b)

-- `%04d-%02d-%02d`: `data[:2]` is sliced first.
pub date_text : List ℕ → Result (List ℕ)
date_text bytes = do
  year ← little_endian 2 bytes 0
  month ← byte_text bytes 2
  day ← byte_text bytes 3
  ok (padded 4 year ++ codes "-" ++ month ++ codes "-" ++ day)

-- `%02d:%02d:%02d` of three bytes.
pub clock_text : List ℕ → ℕ → ℕ → ℕ → Result (List ℕ)
clock_text bytes h m s = do
  hours ← byte_text bytes h
  minutes ← byte_text bytes m
  seconds ← byte_text bytes s
  ok (hours ++ codes ":" ++ minutes ++ codes ":" ++ seconds)

pub micros_text : List ℕ → ℕ → Result (List ℕ)
micros_text bytes i = do micros ← little_endian 4 bytes i; ok (codes "." ++ padded 6 micros)

pub format_binary_date : ℕ → List ℕ → Result (List ℕ)
format_binary_date n bytes =
    if n == 0
    then ok (codes "0000-00-00")
    else if n == 4
    then date_text bytes
    else err invalid_length

pub date_and_clock : List ℕ → Result (List ℕ)
date_and_clock bytes = do
  date ← date_text bytes
  clock ← clock_text bytes 4 5 6
  ok (date ++ codes " " ++ clock)

abbrev pub followed : Result (List ℕ) → Result (List ℕ) → Result (List ℕ)
followed first second = do a ← first; b ← second; ok (a ++ b)

pub format_binary_date_time : ℕ → List ℕ → Result (List ℕ)
format_binary_date_time n bytes =
    if n == 0
    then ok (codes "0000-00-00 00:00:00")
    else if n == 4
    then followed (date_text bytes) (ok (codes " 00:00:00"))
    else if n == 7
    then date_and_clock bytes
    else if n == 11
    then followed (date_and_clock bytes) (micros_text bytes 7)
    else err invalid_length

-- `%c` of a sign that is 0 unless the time is negative, and the hours, `uint16(data[1])*24 +
-- uint16(data[5])`, which fit.
pub signed_clock : List ℕ → ℕ → Result (List ℕ)
signed_clock bytes negative = do
  days ← index_at bytes 1
  hour ← index_at bytes 5
  minutes ← byte_text bytes 6
  seconds ← byte_text bytes 7
  ok (
      (if negative == 1 then b'-' else 0)
      ∷ (padded 2 (days * 24 + hour) ++ codes ":" ++ minutes ++ codes ":" ++ seconds))

pub format_binary_time : ℕ → List ℕ → Result (List ℕ)
format_binary_time n bytes =
    if n == 0
    then ok (codes "0000-00-00")
    else (index_at bytes 0 >>= λ negative.
        if n == 8
        then signed_clock bytes negative
        else if n == 12
        then followed (signed_clock bytes negative) (micros_text bytes 8)
        else err invalid_length)
