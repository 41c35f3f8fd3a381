-- ===== src/Router/Key/Ranges.antt =====
-- router/key.go: a key lies in the overlap of two ranges exactly if it lies in both.
use cm.Common.{
  ℕ, List, [], true, not, ◌&&◌, ◌||◌, ◌≡◌, ◌↔◌, ok, arith, ◌=?◌, lex_lt, lex_le, =?_iff,
  lex_lt_trans, lex_lt_irrefl, le_lt_trans, if◌then◌else◌,
}
use cm.Router.Key.{
  KeyRange, contains, key_ranges_intersect, key_ranges_overlap, ends_below, max_key,
}

module _ (a b k : List ℕ) where
  later_start : lex_le (if lex_lt a b then b else a) k ≡ (lex_le a k && lex_le b k)
  later_start = ground (
    arith,
    le_lt_trans a b k,
    le_lt_trans k a b,
    lex_lt_trans k a b,
    le_lt_trans a k b,
    lex_lt_trans k b a,
    le_lt_trans b k a,
  )

  earlier_end :
      ends_below k (if a =? max_key || (not (b =? max_key) && lex_lt b a) then b else a)
      ≡ (ends_below k a && ends_below k b)
  earlier_end = ground (
    arith,
    =?_iff a [],
    =?_iff b [],
    lex_lt_trans k a b,
    lex_lt_trans k b a,
    le_lt_trans b a k,
    le_lt_trans b k a,
    le_lt_trans a k b,
    le_lt_trans k b a,
  )

-- A key lies in the overlap of two ranges exactly if it lies in both.
pub key_ranges_overlap-contains :
    (a b r : KeyRange) (k : List ℕ)
    → key_ranges_overlap a b ≡ ok r
    → contains r k ≡ (contains a k && contains b k)
unfolding key_ranges_overlap contains
key_ranges_overlap-contains a b r k h =
    ground (arith, later_start a.start b.start k, earlier_end a.end b.end k)

-- A range that holds its start.
abbrev IsProper : KeyRange → Type 0
IsProper a = ends_below a.start a.end ≡ true

-- Two ranges intersect exactly if a key lies in both, where neither range is empty.
pub key_ranges_intersect_iff :
    (a b : KeyRange)
    → IsProper a
    → IsProper b
    → (key_ranges_intersect a b ≡ true)
      ↔ ((k : List ℕ) × (contains a k ≡ true) × (contains b k ≡ true))
unfolding key_ranges_intersect contains
key_ranges_intersect_iff a b p q = (
  λ h. (
    if lex_lt a.start b.start then b.start else a.start,
    ground
        (arith, lex_lt_irrefl a.start, lex_lt_irrefl b.start, lex_lt_trans a.start b.start a.start),
    ground (arith, lex_lt_irrefl a.start, lex_lt_irrefl b.start),
  ),
  λ (k, ha, hb). ground (arith, le_lt_trans k a.start b.end, le_lt_trans k b.start a.end),
)
