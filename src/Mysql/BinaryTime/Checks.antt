-- ===== src/Mysql/BinaryTime/Checks.antt =====
-- Runs of the texts of dates and times, and the theorems at concrete inputs.
use cm.Common.{ℕ, ◌≡◌, refl, List, [], ◌∷◌, codes, ok}
use cm.Mysql.LenEnc.{little_endian}
use cm.Sqlparser.Query.{append_uint, decimal_loop}
use cm.Mysql.BinaryTime.{
  format_binary_date, format_binary_date_time, format_binary_time, date_text, clock_text,
  micros_text, date_and_clock, signed_clock, byte_text, padded, zeros,
}

date_2014 : format_binary_date 4 (0xde ∷ 7 ∷ 3 ∷ 9 ∷ []) ≡ ok (codes "2014-03-09")
unfolding format_binary_date date_text byte_text padded zeros little_endian append_uint decimal_loop
date_2014 = refl

with_micros :
    format_binary_date_time 11 (0xde ∷ 7 ∷ 3 ∷ 9 ∷ 23 ∷ 5 ∷ 0 ∷ 1 ∷ 0 ∷ 0 ∷ 0 ∷ [])
    ≡ ok (codes "2014-03-09 23:05:00.000001")
unfolding format_binary_date_time date_and_clock clock_text micros_text date_text byte_text padded
    zeros little_endian append_uint decimal_loop
with_micros = refl

-- One day, two hours, three minutes and four seconds.
abbrev a_day : List ℕ
a_day = 0 ∷ 1 ∷ 0 ∷ 0 ∷ 0 ∷ 2 ∷ 3 ∷ 4 ∷ []

time_of_a_day : format_binary_time 8 a_day ≡ ok (0 ∷ codes "26:03:04")
unfolding format_binary_time signed_clock byte_text padded zeros append_uint decimal_loop
time_of_a_day = refl
