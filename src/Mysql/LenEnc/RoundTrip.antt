-- ===== src/Mysql/LenEnc/RoundTrip.antt =====
-- mysql/util.go: what `PutLengthEncodedInt` and `PutLengthEncodedString` write is read back.
use cm.Common.{
  ℕ, ◌+◌, ◌*◌, ◌^◌, ◌<◌, ◌≤◌, ◌≡◌, refl, true, false, none, some, List, [], ◌∷◌, ◌++◌, length,
  length-append, ok, IsU64, slice-append, arith, leb, Bool-cases, inl, inr,
}
use mathlib.Core.List.{append_assoc}
use cm.Mysql.LenEnc.{
  length_encoded_int, put_length_encoded_int, length_enoded_string, put_length_encoded_string,
  little_endian, skip_length_enoded_string,
}

-- The three wide forms, given what their bytes add up to.
read_wide_2 :
    (n a b : ℕ) (rest : List ℕ)
    → a + 256 * b ≡ n
    → length_encoded_int (0xfc ∷ a ∷ b ∷ rest) ≡ ok (record { num = n; is_null = false; n = 3 })
unfolding length_encoded_int little_endian
read_wide_2 n a b rest h = ground arith

read_wide_3 :
    (n a b c : ℕ) (rest : List ℕ)
    → a + 256 * (b + 256 * c) ≡ n
    → length_encoded_int (0xfd ∷ a ∷ b ∷ c ∷ rest) ≡ ok (record { num = n; is_null = false; n = 4 })
unfolding length_encoded_int little_endian
read_wide_3 n a b c rest h = ground arith

read_wide_8 :
    (n a b c d e f g h : ℕ) (rest : List ℕ)
    → a + 256 * (b + 256 * (c + 256 * (d + 256 * (e + 256 * (f + 256 * (g + 256 * h)))))) ≡ n
    → length_encoded_int (0xfe ∷ a ∷ b ∷ c ∷ d ∷ e ∷ f ∷ g ∷ h ∷ rest)
      ≡ ok (record { num = n; is_null = false; n = 9 })
unfolding length_encoded_int little_endian
read_wide_8 n a b c d e f g h rest p = ground arith

-- A uint64 is read back as it was written, and the bytes read are those written.
pub length_encoded_int-put :
    (n : ℕ) (rest : List ℕ)
    → IsU64 n
    → length_encoded_int (put_length_encoded_int n ++ rest)
      ≡ ok (record { num = n; is_null = false; n = length (put_length_encoded_int n) })
unfolding put_length_encoded_int
length_encoded_int-put n rest h = elim (Bool-cases (leb n 250)) [
  | inl small ↦ rw small (unfold length_encoded_int in ground arith)
  | inr e ↦ rw e (elim (Bool-cases (leb n 0xffff)) [
    | inl small ↦ rw small (read_wide_2 n _ _ rest (ground arith))
    | inr e ↦ rw e (elim (Bool-cases (leb n 0xffffff)) [
      | inl small ↦ rw small (read_wide_3 n _ _ _ rest (ground arith))
      | inr e ↦ rw (e, lt→leb n h) (read_wide_8 n _ _ _ _ _ _ _ _ rest (omega arith))
    ])
  ])
]
  where
    lt→leb : (n : ℕ) → IsU64 n → leb n 0xffffffffffffffff ≡ true
    lt→leb n h = ground arith

put_length_encoded_int_pos :
    (n : ℕ)
    → IsU64 n
    → (1 ≤ length (put_length_encoded_int n)) × (length (put_length_encoded_int n) ≤ 9)
unfolding put_length_encoded_int
put_length_encoded_int_pos n h = ground arith

-- Go strings are shorter than 2^62 bytes.
pub length_enoded_string-put :
    (b rest : List ℕ)
    → length b < 2 ^ 62
    → 0 < length b
    → length_enoded_string (put_length_encoded_string b ++ rest)
      ≡ ok (record { str = some b; is_null = false; n = length (put_length_encoded_string b) })
unfolding length_enoded_string put_length_encoded_string
length_enoded_string-put b rest h p =
    let head = put_length_encoded_int (length b) in
    ground (
      arith,
      length_encoded_int-put (length b) (b ++ rest),
      append_assoc head b rest,
      put_length_encoded_int_pos (length b),
      length-append head b,
      length-append head (b ++ rest),
      length-append b rest,
      slice-append head b rest,
    )

-- Of an empty string nil is read back.
pub length_enoded_string-put_nil :
    (rest : List ℕ)
    → length_enoded_string (put_length_encoded_string [] ++ rest)
      ≡ ok (record { str = none; is_null = false; n = length (put_length_encoded_string []) })
unfolding length_enoded_string length_encoded_int put_length_encoded_string put_length_encoded_int
length_enoded_string-put_nil rest = refl

pub skip_length_enoded_string-put :
    (b rest : List ℕ)
    → length b < 2 ^ 62
    → skip_length_enoded_string (put_length_encoded_string b ++ rest)
      ≡ ok (length (put_length_encoded_string b))
unfolding skip_length_enoded_string put_length_encoded_string
skip_length_enoded_string-put b rest h =
    let head = put_length_encoded_int (length b) in
    ground (
      arith,
      length_encoded_int-put (length b) (b ++ rest),
      append_assoc head b rest,
      put_length_encoded_int_pos (length b),
      length-append head b,
      length-append head (b ++ rest),
      length-append b rest,
    )

-- A first byte up to 250 is the number.
pub length_encoded_int_small :
    (n : ℕ) (rest : List ℕ)
    → n ≤ 250
    → length_encoded_int (n ∷ rest) ≡ ok (record { num = n; is_null = false; n = 1 })
unfolding length_encoded_int
length_encoded_int_small n rest h = ground arith

-- The byte 251 is NULL.
pub length_enoded_string_null :
    (rest : List ℕ)
    → length_enoded_string (0xfb ∷ rest) ≡ ok (record { str = none; is_null = true; n = 1 })
unfolding length_enoded_string length_encoded_int
length_enoded_string_null rest = refl
