-- ===== src/Router/Shard.antt =====
-- router/shard.go: the shard of a key. A `KeyError` that the code panics with, and that
-- `handleError` turns into an error again, is `err key_error`.
pub mod Partition
mod Checks
use Prim.Native.Nat.{bit_xor}
use cm.Common.{
  ◌/◌, ℕ, zero, suc, ◌+◌, ◌-◌, ◌*◌, ◌%◌, ◌^◌, List, [], ◌∷◌, length, get_elem?, ◌==◌, ◌=?◌,
  if◌then◌else◌, Bool, true, false, not, ◌&&◌, ◌||◌, Result, ok, err, panic, ◌>>=◌, key_error,
  index_at,
}
use cm.Router.Key.{KeyRange, uint64_key_string}
use cm.Router.Key
use cm.Router.NumKey.{NumKeyRange, parse_int}
use cm.Router.NumKey

-- The dynamic type of a key. An `int`, `uint64` or `int64` is its 64-bit pattern.
pub data Value : Type 0 where
  int uint64 int64 : ℕ → Value
  string bytes : List ℕ → Value
  other : Value

pub encode_value : Value → Result (List ℕ)
encode_value (int v) = ok (uint64_key_string v)
encode_value (uint64 v) = ok (uint64_key_string v)
encode_value (int64 v) = ok (uint64_key_string v)
encode_value (string s) = ok s
encode_value (bytes s) = ok s
encode_value other = err key_error

-- `crc32.ChecksumIEEE`: the reflected polynomial, bit by bit.
pub crc_bits : ℕ → ℕ → ℕ
crc_bits zero c = c
crc_bits (suc k) c = crc_bits k (if c % 2 == 1 then bit_xor (c / 2) 0xedb88320 else c / 2)

pub crc_loop : ℕ → List ℕ → ℕ
crc_loop c [] = c
crc_loop c (b ∷ bs) = crc_loop (crc_bits 8 (bit_xor c b)) bs

pub crc32 : List ℕ → ℕ
crc32 bs = bit_xor (crc_loop 0xffffffff bs) 0xffffffff

hash_value : Value → Result ℕ
hash_value (int v) = ok v
hash_value (uint64 v) = ok v
hash_value (int64 v) = ok v
hash_value (string s) = ok (crc32 s)
hash_value (bytes s) = ok (crc32 s)
hash_value other = err key_error

or_key_error : Result ℕ → Result ℕ
or_key_error (ok v) = ok v
or_key_error (err e) = err key_error
or_key_error panic = panic

-- The place of a 64-bit pattern in the order of the int64.
abbrev int64_of : ℕ → ℕ
int64_of v = (v + 2 ^ 63) % 2 ^ 64

pub num_value : Value → Result ℕ
num_value (int v) = ok (int64_of v)
num_value (uint64 v) = ok (int64_of v)
num_value (int64 v) = ok (int64_of v)
num_value (string s) = or_key_error (parse_int s)
num_value (bytes s) = or_key_error (parse_int s)
num_value other = err key_error

-- `int(h % uint64(s.ShardNum))`; a remainder by 0 panics.
hash_find_for_key : ℕ → Value → Result ℕ
hash_find_for_key shard_num key = do
  h ← hash_value key
  if shard_num == 0 then panic else ok (h % shard_num)

-- The loops of `FindForKey`: the first range, counted from `i`, that contains the key.
pub find_from : {R : Type 0} → (R → Bool) → ℕ → List R → Result ℕ
find_from holds i [] = err key_error
find_from holds i (r ∷ rs) = if holds r then ok i else find_from holds (i + 1) rs

pub num_find_for_key : List NumKeyRange → Value → Result ℕ
num_find_for_key shards key = do v ← num_value key; find_from (λ r. NumKey.contains r v) 0 shards

-- `NumRangeShard.EqualStart` and `EqualStop`.
num_equal_start : List NumKeyRange → Value → ℕ → Result Bool
num_equal_start shards key index = do
  v ← num_value key
  r ← index_at shards index
  ok (r.start == v)

num_equal_stop : List NumKeyRange → Value → ℕ → Result Bool
num_equal_stop shards key index = do v ← num_value key; r ← index_at shards index; ok (r.end == v)

key_find_for_key : List KeyRange → Value → Result ℕ
key_find_for_key shards key = do v ← encode_value key; find_from (λ r. Key.contains r v) 0 shards

key_equal_start : List KeyRange → Value → ℕ → Result Bool
key_equal_start shards key index = do
  v ← encode_value key
  r ← index_at shards index
  ok (r.start =? v)

key_equal_stop : List KeyRange → Value → ℕ → Result Bool
key_equal_stop shards key index = do
  v ← encode_value key
  r ← index_at shards index
  ok (r.end =? v)

-- `DefaultShard.FindForKey`
default_find_for_key : Value → Result ℕ
default_find_for_key key = ok 0
