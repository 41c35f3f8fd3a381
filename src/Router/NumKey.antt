-- ===== src/Router/NumKey.antt =====
-- router/numkey.go: ranges of int64 keys. An int64 is its place in the order, counted from
-- `math.MinInt64`: `v` stands at `v + 2^63`. The code only compares these numbers.
pub mod Chain
mod Checks
use cm.Common.{
  ℕ, zero, suc, ◌+◌, ◌-◌, ◌*◌, ◌^◌, List, [], ◌∷◌, length, ltb, leb, ◌==◌, if◌then◌else◌, Bool,
  true, false, not, ◌&&◌, ◌||◌, Result, ok, err, panic, ◌>>=◌, bad_number, malformed_spec, ◌=?◌,
  split,
}

-- `math.MinInt64` and `math.MaxInt64`.
abbrev pub min_num_key : ℕ
min_num_key = 0

abbrev pub max_num_key : ℕ
max_num_key = 2 ^ 64 - 1

-- Where 0 stands.
abbrev pub zero_key : ℕ
zero_key = 2 ^ 63

unfoldable pub digits_value : ℕ → List ℕ → Result ℕ
digits_value acc [] = ok acc
digits_value acc (c ∷ cs) =
    let rest = digits_value (10 * acc + (c - b'0')) cs in
    if leb b'0' c && leb c b'9' then rest else err bad_number

unfoldable pub magnitude : List ℕ → Result ℕ
magnitude [] = err bad_number
magnitude (c ∷ cs) = digits_value 0 (c ∷ cs)

unfoldable pub positive : Result ℕ → Result ℕ
positive r = do v ← r; if ltb v (2 ^ 63) then ok (zero_key + v) else err bad_number

pub negative : Result ℕ → Result ℕ
negative r = do v ← r; if leb v (2 ^ 63) then ok (zero_key - v) else err bad_number

-- `strconv.ParseInt(s, 10, 64)`: a sign or none, then digits, and a value in range.
unfoldable pub parse_int : List ℕ → Result ℕ
parse_int [] = err bad_number
parse_int (c ∷ cs) =
    if c == b'-'
    then negative (magnitude cs)
    else if c == b'+'
    then positive (magnitude cs)
    else positive (magnitude (c ∷ cs))

pub record NumKeyRange : Type 0 where
  pub start : ℕ
  pub end : ℕ

unfoldable pub contains : NumKeyRange → ℕ → Bool
contains kr i = leb kr.start i && (kr.end == max_num_key || ltb i kr.end)

-- A limit: the empty part stands for the given end of the number line.
abbrev pub limit : ℕ → List ℕ → Result ℕ
limit default [] = ok default
limit default (c ∷ cs) = parse_int (c ∷ cs)

abbrev pub range_onto : NumKeyRange → Result (List NumKeyRange) → Result (List NumKeyRange)
range_onto kr more = do krs ← more; ok (kr ∷ krs)

-- The loop over `parts[1:]`.
unfoldable pub parse_limits : ℕ → List (List ℕ) → Result (List NumKeyRange)
parse_limits old [] = ok []
parse_limits old (p ∷ ps) =
    if p =? [] && ltb 0 (length ps)
    then err malformed_spec
    else (limit max_num_key p >>= λ n.
        let rest = range_onto (record { start = old; end = n }) (parse_limits n ps) in
        if leb n old then err malformed_spec else rest)

unfoldable pub parse_parts : List (List ℕ) → Result (List NumKeyRange)
parse_parts [] = err malformed_spec
parse_parts (p ∷ []) = err malformed_spec
parse_parts (first ∷ p ∷ ps) = do old ← limit min_num_key first; parse_limits old (p ∷ ps)

unfoldable pub parse_num_sharding_spec : List ℕ → Result (List NumKeyRange)
parse_num_sharding_spec spec = parse_parts (split b'-' spec)
