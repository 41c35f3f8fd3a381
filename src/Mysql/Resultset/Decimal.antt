-- ===== src/Mysql/Resultset/Decimal.antt =====
-- `strconv.ParseUint` and `strconv.ParseInt` in base 10, and that they read back what `AppendUint` and
-- `AppendInt` write.
use cm.Common.{
  ℕ, zero, suc, ◌+◌, ◌-◌, ◌*◌, ◌/◌, ◌%◌, ◌^◌, ◌<◌, ◌≡◌, refl, sym, ◌∙◌, ap, List, [], ◌∷◌,
  Bool-cases, inl, inr, ltb, leb, ◌==◌, if◌then◌else◌, bad_number, Result, ok, err, ◌>>=◌, arith,
  IsU64, true,
}
use cm.Sqlparser.Query.{append_uint, append_int, decimal_loop}
use native.Mathlib.Numerals.{unary_clauses}
use cm.Sqlparser.Analyzer.{digits_in, digit_val}

unfoldable pub parse_uint : List ℕ → Result ℕ
parse_uint [] = err bad_number
parse_uint (c ∷ cs) = do
  n ← digits_in 10 0 (c ∷ cs)
  if ltb n (2 ^ 64) then ok n else err bad_number

unfoldable pub as_positive : Result ℕ → Result ℕ
as_positive r = do n ← r; if ltb n (2 ^ 63) then ok n else err bad_number

-- The pattern of a negative int64.
pub as_negative : Result ℕ → Result ℕ
as_negative r = do n ← r; if leb n (2 ^ 63) then ok ((2 ^ 64 - n) % 2 ^ 64) else err bad_number

unfoldable pub parse_int : List ℕ → Result ℕ
parse_int [] = err bad_number
parse_int (c ∷ cs) =
    if c == b'-'
    then as_negative (parse_uint cs)
    else if c == b'+'
    then as_positive (parse_uint cs)
    else as_positive (parse_uint (c ∷ cs))

digits_in-digit :
    (acc d : ℕ) (s : List ℕ)
    → d < 10
    → digits_in 10 acc ((b'0' + d) ∷ s) ≡ digits_in 10 (acc * 10 + d) s
unfolding digits_in digit_val
digits_in-digit acc d s h = ground arith

last_digit : (n : ℕ) (s : List ℕ) → n < 10 → digits_in 10 0 ((b'0' + n % 10) ∷ s) ≡ digits_in 10 n s
last_digit n s h =
    digits_in-digit 0 (n % 10) s (omega arith) ∙ ap (λ k. digits_in 10 k s) (omega arith)

ten_times : (k : ℕ) → 10 ^ suc k ≡ 10 * 10 ^ k
ten_times k = simp unary_clauses (omega arith)

-- The digits in front of `s` are read as the number that they are the digits of.
digits_in-decimal_loop :
    (fuel n : ℕ) (s : List ℕ)
    → n < 10 ^ suc fuel
    → digits_in 10 0 (decimal_loop (suc fuel) n s) ≡ digits_in 10 n s
unfolding decimal_loop
digits_in-decimal_loop zero n s h =
    let lt : ltb n 10 ≡ true = ground arith in rw lt (last_digit n s (ground arith))
digits_in-decimal_loop (suc fuel) n s h = elim (Bool-cases (ltb n 10)) [
  | inl last ↦ rw last (last_digit n s (ground arith))
  | inr more ↦
      let tenth : n / 10 < 10 ^ suc fuel = omega (arith, ten_times (suc fuel)) in
      rw more (
        digits_in-decimal_loop fuel (n / 10) ((b'0' + n % 10) ∷ s) tenth
        ∙ digits_in-digit (n / 10) (n % 10) s (omega arith)
        ∙ ap (λ k. digits_in 10 k s) (omega arith))
]

-- The text starts with a digit.
decimal_loop-first :
    (fuel n d : ℕ) (s : List ℕ)
    → d < 10
    → (e : ℕ) × (t : List ℕ) × (e < 10) × (decimal_loop fuel n ((b'0' + d) ∷ s) ≡ (b'0' + e) ∷ t)
unfolding decimal_loop
decimal_loop-first zero n d s h = (d, s, h, refl)
decimal_loop-first (suc fuel) n d s h = elim (Bool-cases (ltb n 10)) [
  | inl last ↦ rw last (n % 10, (b'0' + d) ∷ s, omega arith, refl)
  | inr more ↦ rw more (decimal_loop-first fuel (n / 10) (n % 10) ((b'0' + d) ∷ s) (omega arith))
]

append_uint-first : (n : ℕ) → (e : ℕ) × (t : List ℕ) × (e < 10) × (append_uint n ≡ (b'0' + e) ∷ t)
unfolding append_uint decimal_loop
append_uint-first n = elim (Bool-cases (ltb n 10)) [
  | inl last ↦ rw last (n % 10, [], omega arith, refl)
  | inr more ↦ rw more (decimal_loop-first 19 (n / 10) (n % 10) [] (omega arith))
]

pub parse_uint-append_uint : (n : ℕ) → IsU64 n → parse_uint (append_uint n) ≡ ok n
unfolding parse_uint
parse_uint-append_uint n h =
    let (e, t, lt, starts) = append_uint-first n in
    let read : digits_in 10 0 (append_uint n) ≡ ok n =
      unfold append_uint in
      digits_in-decimal_loop 19 n [] (omega arith) ∙ unfold digits_in in refl in
    let whole : digits_in 10 0 ((b'0' + e) ∷ t) ≡ ok n = ap (digits_in 10 0) (sym starts) ∙ read in
    rw (starts, whole) (ground arith)

parse_int-digit :
    (e : ℕ) (t : List ℕ)
    → e < 10
    → parse_int ((b'0' + e) ∷ t) ≡ as_positive (parse_uint ((b'0' + e) ∷ t))
unfolding parse_int
parse_int-digit e t h = ground arith

parse_int-append_uint : (n : ℕ) → n < 2 ^ 63 → parse_int (append_uint n) ≡ ok n
unfolding as_positive
parse_int-append_uint n h =
    let (e, t, lt, starts) = append_uint-first n in
    let read = parse_uint-append_uint n (omega arith) in
    ap parse_int starts
    ∙ parse_int-digit e t lt
    ∙ ap as_positive (ap parse_uint (sym starts) ∙ read)
    ∙ ground arith

pub parse_int-append_int : (n : ℕ) → IsU64 n → parse_int (append_int n) ≡ ok n
unfolding append_int
parse_int-append_int n h = elim (Bool-cases (leb (2 ^ 63) n)) [
  | inl negative ↦ rw negative (
      unfold parse_int as_negative in
      rw (parse_uint-append_uint (2 ^ 64 - n) (ground arith)) (ground arith))
  | inr positive ↦ rw positive (parse_int-append_uint n (ground arith))
]
