-- ===== src/Router/Key.antt =====
-- router/key.go: keyspace ids, key ranges and the sharding spec. A `KeyspaceId` is a string of bytes.
pub mod Ranges
pub mod Hex
mod Checks
use cm.Common.{
  ℕ, zero, suc, ◌+◌, ◌-◌, ◌*◌, ◌/◌, ◌%◌, ◌^◌, List, [], ◌∷◌, ◌++◌, map, length, ltb, leb, ◌==◌,
  if◌then◌else◌, Bool, true, false, not, ◌&&◌, ◌||◌, Result, ok, err, panic, ◌>>=◌, bad_hex,
  malformed_spec, no_overlap, ◌=?◌, lex_lt, lex_le, split,
}

-- `MinKey` and `MaxKey` are both the empty string.
abbrev min_key : List ℕ
min_key = []

abbrev pub max_key : List ℕ
max_key = []

-- `hex.EncodeToString` and `strings.ToUpper`: two digits for a byte, the high one first.
pub hex_digit : ℕ → ℕ
hex_digit d = if ltb d 10 then b'0' + d else b'A' + (d - 10)

pub hex : List ℕ → List ℕ
hex [] = []
hex (b ∷ bs) = hex_digit (b / 16) ∷ hex_digit (b % 16) ∷ hex bs

-- `binary.BigEndian` on a uint64.
pub uint64_key_string : ℕ → List ℕ
uint64_key_string i =
    i / 2 ^ 56 % 256
    ∷ i / 2 ^ 48 % 256
    ∷ i / 2 ^ 40 % 256
    ∷ i / 2 ^ 32 % 256
    ∷ i / 2 ^ 24 % 256
    ∷ i / 2 ^ 16 % 256
    ∷ i / 2 ^ 8 % 256
    ∷ i % 256
    ∷ []

-- `hex.DecodeString`: digits of either case, and an even number of them.
pub hex_value : ℕ → Result ℕ
hex_value c =
    if leb b'0' c && leb c b'9'
    then ok (c - b'0')
    else if leb b'a' c && leb c b'f'
    then ok (c - b'a' + 10)
    else if leb b'A' c && leb c b'F'
    then ok (c - b'A' + 10)
    else err bad_hex

pub unhex : List ℕ → Result (List ℕ)
unhex [] = ok []
unhex (c ∷ []) = err bad_hex
unhex (c ∷ d ∷ cs) = do
  high ← hex_value c
  low ← hex_value d
  rest ← unhex cs
  ok ((16 * high + low) ∷ rest)

-- It contains `start`, and excludes `end`.
pub record KeyRange : Type 0 where
  pub start : List ℕ
  pub end : List ℕ

abbrev pub ends_below : List ℕ → List ℕ → Bool
ends_below i end = end =? max_key || lex_lt i end

unfoldable pub contains : KeyRange → List ℕ → Bool
contains kr i = lex_le kr.start i && ends_below i kr.end

pub parse_key_range_parts : List ℕ → List ℕ → Result KeyRange
parse_key_range_parts start end = do
  s ← unhex start
  e ← unhex end
  ok (record { start = s; end = e })

is_partial : KeyRange → Bool
is_partial kr = not (kr.start =? min_key && kr.end =? max_key)

pub key_ranges_intersect : KeyRange → KeyRange → Bool
key_ranges_intersect first second =
    ends_below second.start first.end && ends_below first.start second.end

pub key_ranges_overlap : KeyRange → KeyRange → Result KeyRange
key_ranges_overlap first second =
    if not (key_ranges_intersect first second)
    then err no_overlap
    else ok (record {
      start = if lex_lt first.start second.start then second.start else first.start;
      end =
          if first.end =? max_key || (not (second.end =? max_key) && lex_lt second.end first.end)
          then second.end
          else first.end;
    })

abbrev range_onto : Result KeyRange → Result (List KeyRange) → Result (List KeyRange)
range_onto first more = do kr ← first; krs ← more; ok (kr ∷ krs)

-- The loop of `ParseShardingSpec` over `parts[1:]`: the last part alone may be empty.
pub parse_limits : List ℕ → List (List ℕ) → Result (List KeyRange)
parse_limits old [] = ok []
parse_limits old (p ∷ ps) =
    let rest = range_onto (parse_key_range_parts old p) (parse_limits p ps) in
    if p =? [] && ltb 0 (length ps)
    then err malformed_spec
    else if not (p =? []) && lex_le p old
    then err malformed_spec
    else rest

pub parse_parts : List (List ℕ) → Result (List KeyRange)
parse_parts [] = err malformed_spec
parse_parts (p ∷ []) = err malformed_spec
parse_parts (old ∷ p ∷ ps) = parse_limits old (p ∷ ps)

pub parse_sharding_spec : List ℕ → Result (List KeyRange)
parse_sharding_spec spec = parse_parts (split b'-' spec)
