-- ===== src/Router/NumKey/Checks.antt =====
-- Runs of the parser of number sharding specs, and its theorem at a spec of two ranges.
use cm.Common.{ℕ, ◌≡◌, ◌≢◌, ◌+◌, ◌=?◌, refl, List, [], ◌∷◌, length, ok, err, malformed_spec, split}
use cm.Router.NumKey.{
  NumKeyRange, max_num_key, zero_key, parse_num_sharding_spec, parse_parts, parse_limits, parse_int,
  magnitude, positive, digits_value,
}
use cm.Router.NumKey.Chain.{Chain, parse_num_sharding_spec-Chain}

-- "5-9-"
abbrev two_limits : List ℕ
two_limits = 53 ∷ 45 ∷ 57 ∷ 45 ∷ []

abbrev two_ranges : List NumKeyRange
two_ranges =
    record { start = zero_key + 5; end = zero_key + 9 }
    ∷ record { start = zero_key + 9; end = max_num_key }
    ∷ []

parsed_two : parse_num_sharding_spec two_limits ≡ ok two_ranges
unfolding parse_num_sharding_spec parse_parts parse_limits split ◌=?◌ parse_int magnitude positive
    digits_value
parsed_two = refl

-- "9-5"
refuses_decreasing : parse_num_sharding_spec (57 ∷ 45 ∷ 53 ∷ []) ≡ err malformed_spec
unfolding parse_num_sharding_spec parse_parts parse_limits split ◌=?◌ parse_int magnitude positive
    digits_value
refuses_decreasing = refl

parse_num_sharding_spec-Chain_example :
    (lo : ℕ) × Chain lo two_ranges
    × (length two_ranges + 1 ≡ length (split 45 two_limits))
    × (two_ranges ≢ [])
parse_num_sharding_spec-Chain_example =
    parse_num_sharding_spec-Chain two_limits two_ranges parsed_two
