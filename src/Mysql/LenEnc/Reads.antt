-- ===== src/Mysql/LenEnc/Reads.antt =====
-- mysql/util.go: which bytes `LengthEnodedString` answers, and where it answers the error EOF.
use cm.Common.{
  ℕ, ◌+◌, ◌-◌, ◌%◌, ◌^◌, ◌<◌, ◌≤◌, ◌≡◌, ◌⊎◌, refl, inl, inr, ap, sym, ◌∙◌, true, false, Bool-cases,
  Option, none, some, List, [], ◌++◌, length, take, drop, leb, ltb, length-take, length-drop,
  take-append-drop, drop-drop, ok, err, eof, slice, arith,
}
use cm.Mysql.LenEnc.{LenEncInt, LenEncString, length_encoded_int, length_enoded_string, sub_string}
use cm.Mysql.LenEnc.Bounds.{length_encoded_int_n}

-- The bytes of an answer: nil has none.
abbrev pub bytes_of : Option (List ℕ) → List ℕ
bytes_of none = []
bytes_of (some s) = s

-- The answer is NULL where the length is, its bytes are as many as the length says, and they stand in
-- the slice between the length and the bytes that are left.
abbrev pub Reads : List ℕ → LenEncInt → LenEncString → Type 0
Reads b i s =
    (s.is_null ≡ i.is_null)
    × (length (bytes_of s.str) ≡ i.num)
    × (s.n ≡ i.n + i.num)
    × (b ≡ take i.n b ++ (bytes_of s.str ++ drop s.n b))

null_is_empty :
    (b : List ℕ) (i : LenEncInt) → length_encoded_int b ≡ ok i → 0 < i.num → i.is_null ≡ false
unfolding length_encoded_int
null_is_empty b i e h = grind (arith)

-- What stands in the slice behind the length.
split_at : (b : List ℕ) (m n : ℕ) → b ≡ take m b ++ (take n (drop m b) ++ drop (m + n) b)
split_at b m n =
    sym (take-append-drop m b)
    ∙ ap (λ r. take m b ++ r)
        (sym (take-append-drop n (drop m b)) ∙ ap (λ r. take n (drop m b) ++ r) (drop-drop n m b))

-- Where `LengthEnodedString` finds a length and the length and the string together have less than 2^63
-- bytes, it answers the error EOF, if the slice is shorter than that, and otherwise the bytes behind
-- the length, as many as it says, with the number of all bytes read, and NULL where the length is NULL.
pub length_enoded_string-Reads :
    (b : List ℕ) (i : LenEncInt)
    → length_encoded_int b ≡ ok i
    → i.n + i.num < 2 ^ 63
    → ((length b < i.n + i.num) × (length_enoded_string b ≡ err eof))
      ⊎ ((s : LenEncString) × (length_enoded_string b ≡ ok s) × Reads b i s)
unfolding length_enoded_string sub_string slice
length_enoded_string-Reads b i e small =
    let n = i.n + i.num in
    let (pos, _, within) = length_encoded_int_n b i e in
    let whole : (i.n + i.num) % 2 ^ 64 ≡ i.n + i.num = omega arith in
    let start : (i.n + i.num + 2 ^ 64 - i.num) % 2 ^ 64 ≡ i.n = omega arith in
    let count : i.n + i.num - i.n ≡ i.num = omega arith in
    let valid : leb (2 ^ 63) n ≡ false = ground arith in
    let ordered : leb i.n n ≡ true = ground arith in
    elim (Bool-cases (ltb i.num 1)) [
      | inl empty ↦ inr (
          let none_left : i.num ≡ 0 = ground arith in
          let all : i.n ≡ i.n + i.num = omega (arith, none_left) in
          (
            record { str = none; is_null = i.is_null; n = i.n },
            rw (e, empty) refl,
            (refl, sym none_left, all, sym (take-append-drop i.n b)),
          ))
      | inr some_bytes ↦ elim (Bool-cases (leb n (length b))) [
        | inr short ↦ inl (ground arith, rw (e, some_bytes, whole, valid, short) refl)
        | inl fits ↦ inr (
            let more : 0 < i.num = ground arith in
            let enough : i.num ≤ length b - i.n = ground arith in
            (
              record { str = some (take i.num (drop i.n b)); is_null = false; n = n },
              rw (e, some_bytes, whole, valid, fits, start, ordered, count) refl,
              (
                sym (null_is_empty b i e more),
                omega (arith, length-take i.num (drop i.n b), length-drop i.n b),
                refl,
                split_at b i.n i.num,
              ),
            ))
      ]
    ]
