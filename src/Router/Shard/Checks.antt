-- ===== src/Router/Shard/Checks.antt =====
-- Runs of the shards, and the partition theorem at a spec of three ranges.
use cm.Common.{ℕ, ◌≡◌, refl, inl, List, [], ◌∷◌, some, ok, arith, get_elem?, ◌==◌, ◌+◌}
use cm.Router.NumKey.{
  NumKeyRange, contains, max_num_key, zero_key, parse_num_sharding_spec, parse_parts, parse_limits,
  parse_int, magnitude, positive, digits_value,
}
use cm.Common.{◌=?◌, split}
use cm.Router.Shard.{int, num_value, find_from, num_find_for_key, crc32, crc_loop, crc_bits}
use cm.Router.Shard.Partition.{num_find_for_key-partition}

-- The check value of the polynomial: the text "123456789".
crc32_digits : crc32 (49 ∷ 50 ∷ 51 ∷ 52 ∷ 53 ∷ 54 ∷ 55 ∷ 56 ∷ 57 ∷ []) ≡ 0xcbf43926
unfolding crc32 crc_loop crc_bits
crc32_digits = refl

-- "-100-200-"
abbrev spec : List ℕ
spec = 45 ∷ 49 ∷ 48 ∷ 48 ∷ 45 ∷ 50 ∷ 48 ∷ 48 ∷ 45 ∷ []

abbrev three_shards : List NumKeyRange
three_shards =
    record { start = 0; end = zero_key + 100 }
    ∷ record { start = zero_key + 100; end = zero_key + 200 }
    ∷ record { start = zero_key + 200; end = max_num_key }
    ∷ []

parsed : parse_num_sharding_spec spec ≡ ok three_shards
unfolding parse_num_sharding_spec parse_parts parse_limits split ◌=?◌ parse_int magnitude positive
    digits_value
parsed = refl

value_150 : num_value (int 150) ≡ ok (zero_key + 150)
unfolding num_value
value_150 = refl

num_find_for_key-partition_example :
    (i : ℕ) × (num_find_for_key three_shards (int 150) ≡ ok i)
    × ((j : ℕ) (r : NumKeyRange)
        → get_elem? three_shards j ≡ some r
        → contains r (zero_key + 150) ≡ (j == i))
num_find_for_key-partition_example =
    num_find_for_key-partition spec three_shards (int 150) (zero_key + 150) parsed value_150
      (omega arith, inl (omega arith))

finds_150 : num_find_for_key three_shards (int 150) ≡ ok 1
unfolding num_find_for_key num_value find_from contains
finds_150 = refl
