-- ===== src/Router/Key/Checks.antt =====
-- Runs of the key ranges, and the theorems at concrete inputs.
use cm.Common.{ℕ, ◌≡◌, ◌↔◌, refl, true, List, [], ◌∷◌, ok, ltb, ◌&&◌, arith, lex_lt, ◌=?◌, split}
use cm.Router.Key.{
  KeyRange, contains, key_ranges_intersect, key_ranges_overlap, hex, unhex, hex_value,
  uint64_key_string, parse_sharding_spec, parse_parts, parse_limits, parse_key_range_parts,
}
use cm.Router.Key.Ranges.{key_ranges_overlap-contains, key_ranges_intersect_iff}
use cm.Router.Key.Hex.{unhex-hex, uint64_key_string-lt}

abbrev left : KeyRange
left = record { start = []; end = 0x80 ∷ [] }

abbrev right : KeyRange
right = record { start = 0x40 ∷ []; end = [] }

abbrev middle : KeyRange
middle = record { start = 0x40 ∷ []; end = 0x80 ∷ [] }

overlap_middle : key_ranges_overlap left right ≡ ok middle
unfolding key_ranges_overlap key_ranges_intersect lex_lt ◌=?◌
overlap_middle = refl

key_ranges_overlap-contains_example :
    contains middle (0x41 ∷ []) ≡ (contains left (0x41 ∷ []) && contains right (0x41 ∷ []))
key_ranges_overlap-contains_example =
    key_ranges_overlap-contains left right middle (0x41 ∷ []) overlap_middle

key_ranges_intersect_iff_example :
    (key_ranges_intersect left right ≡ true)
    ↔ ((k : List ℕ) × (contains left k ≡ true) × (contains right k ≡ true))
unfolding lex_lt ◌=?◌
key_ranges_intersect_iff_example = key_ranges_intersect_iff left right refl refl

unhex-hex_example : unhex (hex (0xab ∷ 0x0c ∷ [])) ≡ ok (0xab ∷ 0x0c ∷ [])
unhex-hex_example = unhex-hex (0xab ∷ 0x0c ∷ []) (omega arith)

uint64_key_string-lt_example : lex_lt (uint64_key_string 255) (uint64_key_string 256) ≡ ltb 255 256
uint64_key_string-lt_example = uint64_key_string-lt 255 256 (omega arith) (omega arith)

-- "C0-b0": the limits are compared as text, and the range that is accepted is empty.
accepts_mixed_case :
    parse_sharding_spec (b'C' ∷ b'0' ∷ 45 ∷ b'b' ∷ b'0' ∷ [])
    ≡ ok (record { start = 0xc0 ∷ []; end = 0xb0 ∷ [] } ∷ [])
unfolding parse_sharding_spec parse_parts parse_limits parse_key_range_parts unhex hex_value split
    lex_lt ◌=?◌
accepts_mixed_case = refl
