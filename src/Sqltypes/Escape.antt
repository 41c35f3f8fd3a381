-- ===== src/Sqltypes/Escape.antt =====
-- sqltypes/sqltypes.go: a string as a quoted SQL literal, and the two escape tables.
use cm.Common.{
  ℕ, zero, suc, List, [], ◌∷◌, ◌++◌, ◌==◌, if◌then◌else◌, Bool, true, not, ◌&&◌, ltb, ◌<◌, ◌≡◌,
  refl, arith,
}

abbrev pub dont_escape : ℕ
dont_escape = 255

-- `encodeRef`: a byte, and the letter behind the backslash that stands for it.
abbrev pub encode_ref : List (ℕ × ℕ)
encode_ref =
    (0, b'0')
    ∷ (39, 39)
    ∷ (34, 34)
    ∷ (8, b'b')
    ∷ (10, b'n')
    ∷ (13, b'r')
    ∷ (9, b't')
    ∷ (26, b'Z')
    ∷ (92, 92)
    ∷ []

encoded : ℕ → List (ℕ × ℕ) → ℕ
encoded c [] = dont_escape
encoded c ((from, to) ∷ r) = if c == from then to else encoded c r

decoded : ℕ → List (ℕ × ℕ) → ℕ
decoded c [] = dont_escape
decoded c ((from, to) ∷ r) = if c == to then from else decoded c r

-- `SqlEncodeMap[c]` and `SqlDecodeMap[c]` as `init` fills them. No two bytes have one letter, so the
-- order in which the second table is filled makes no difference.
unfoldable pub sql_encode_map : ℕ → ℕ
unfolding encoded
sql_encode_map c = encoded c encode_ref

unfoldable pub sql_decode_map : ℕ → ℕ
unfolding decoded
sql_decode_map c = decoded c encode_ref

-- `encodeSql` of a `String`, between its quotes.
unfoldable pub escape : List ℕ → List ℕ
escape [] = []
escape (c ∷ cs) =
    let to = sql_encode_map c in (if to == dont_escape then c ∷ [] else 92 ∷ to ∷ []) ++ escape cs

unfoldable pub encode_sql : List ℕ → List ℕ
encode_sql s = 39 ∷ (escape s ++ 39 ∷ [])

-- What the two tables promise of one byte.
abbrev inverts : ℕ → Bool
inverts c =
    let to = sql_encode_map c in
    if to == dont_escape
    then not (c == 39) && not (c == 92)
    else ltb to 256 && (sql_decode_map to == c && not (c == dont_escape))

all_below : ℕ → (ℕ → Bool) → Bool
all_below zero p = true
all_below (suc n) p = p n && all_below n p

all_below_sound : (n : ℕ) (p : ℕ → Bool) (c : ℕ) → all_below n p ≡ true → c < n → p c ≡ true
unfolding all_below
all_below_sound zero p c h l = absurd (omega arith)
all_below_sound (suc n) p c h l = ground (arith, all_below_sound n p c)

table : all_below 256 inverts ≡ true
unfolding all_below sql_encode_map sql_decode_map
table = refl

-- An unescaped byte is neither the quote nor the backslash; an escaped one is decoded to itself.
pub inverts-byte : (c : ℕ) → c < 256 → inverts c ≡ true
inverts-byte c h = all_below_sound 256 inverts c table h
