-- ===== src/Proxy/Rows/Build.antt =====
-- proxy/conn_resultset.go and mysql/resultset.go: a row that `buildResultset` writes is read by
-- `ParseText`.
use cm.Common.{
  ℕ, zero, suc, ◌+◌, ◌-◌, ◌/◌, ◌%◌, ◌^◌, ◌<◌, ◌≤◌, ◌≡◌, refl, sym, ap, ◌∙◌, subst, List, [], ◌∷◌,
  ◌++◌, length, Bool, true, false, ◌||◌, ◌==◌, ok, ◌>>=◌, ◌⊎◌, inl, inr, arith, IsU64,
}
use mathlib.Core.List.{append-nil, append_assoc}
use cm.Sqlparser.Query.{append_uint, append_int, decimal_loop}
use cm.Vt.Schema.{TableColumn}
use cm.Mysql.LenEnc.{put_length_encoded_string}
use cm.Mysql.LenEnc.RoundTrip.{
  length_enoded_string-put, length_enoded_string-put_nil, length_enoded_string_null,
}
use cm.Mysql.Field.{Field, dump}
use cm.Mysql.Field.Layout.{At, At-append, slice_from-At, described}
use cm.Mysql.Resultset.{
  Value, RowValue, Floats, null, int64, uint64, float64, bytes, raw, raw_as, raw_integer, raw_float,
  raw_varchar, raw_bytes, integer, floating, varchar, other, kind_of, text_value, parse_text,
  parse_text_loop, has_unsigned_flag,
}
use cm.Mysql.Resultset.Decimal.{parse_uint-append_uint, parse_int-append_int}
use cm.Mysql.Client.{parse_rows, parse_row}
use cm.Proxy.Packets.Read.{read_back}
use cm.Proxy.Rows.{
  encode_cell, encode_first, encode_rows, build_resultset, typed_field, typed_fields, flags_of,
}

decimal_loop-length : (fuel n : ℕ) (s : List ℕ) → length (decimal_loop fuel n s) ≤ fuel + length s
unfolding decimal_loop
decimal_loop-length zero n s = omega arith
decimal_loop-length (suc fuel) n s =
    ground (arith, decimal_loop-length fuel (n / 10) ((b'0' + n % 10) ∷ s))

append_uint-length : (n : ℕ) → length (append_uint n) ≤ 20
unfolding append_uint
append_uint-length n = omega (arith, decimal_loop-length 20 n [])

append_int-length : (n : ℕ) → length (append_int n) ≤ 21
unfolding append_int
append_int-length n = ground (arith, append_uint-length n, append_uint-length (2 ^ 64 - n))

-- The values that a column of a type holds.
pub data Holds (F : Floats) (tc : TableColumn) : Value → Type 0 where
  nothing : Holds F tc null
  unsigned :
      {n : ℕ}
      → kind_of tc.sql_type ≡ integer
      → tc.is_unsigned ≡ true
      → IsU64 n
      → Holds F tc (uint64 n)
  signed :
      {n : ℕ}
      → kind_of tc.sql_type ≡ integer
      → tc.is_unsigned ≡ false
      → IsU64 n
      → Holds F tc (int64 n)
  -- A float64 whose text is read as itself.
  float :
      {x : ℕ}
      → kind_of tc.sql_type ≡ floating
      → F.parse (F.format x) ≡ ok x
      → length (F.format x) < 2 ^ 62
      → Holds F tc (float64 x)
  text : {s : List ℕ} → kind_of tc.sql_type ≡ varchar → length s < 2 ^ 62 → Holds F tc (bytes s)
  blob : {s : List ℕ} → kind_of tc.sql_type ≡ other → length s < 2 ^ 62 → Holds F tc (bytes s)

-- The text of a cell that is not null, and what it is read as.
abbrev CellText : Floats → TableColumn → Value → Type 0
CellText F tc v =
    (s : List ℕ) × (encode_cell F tc.sql_type tc.is_unsigned v ≡ ok (put_length_encoded_string s))
    × (length s < 2 ^ 62)
    × (text_value F (kind_of tc.sql_type) (flags_of v / 32 % 2 == 1) s ≡ ok v)

cell_text :
    (F : Floats) (tc : TableColumn) (v : Value) → Holds F tc v → (v ≡ null) ⊎ CellText F tc v
unfolding encode_cell
cell_text F tc v nothing = inl refl
cell_text F tc v (unsigned {n} k u h) = inr (
  append_uint n,
  unfold raw raw_as raw_integer in rw (k, u),
  omega (arith, append_uint-length n),
  unfold text_value flags_of in rw (k, parse_uint-append_uint n h),
)
cell_text F tc v (signed {n} k u h) = inr (
  append_int n,
  unfold raw raw_as raw_integer in rw (k, u),
  omega (arith, append_int-length n),
  unfold text_value flags_of in rw (k, parse_int-append_int n h),
)
cell_text F tc v (float {x} k p l) =
    inr (F.format x, unfold raw raw_as raw_float in rw k, l, unfold text_value in rw (k, p))
cell_text F tc v (text {s} k l) =
    inr (s, unfold raw raw_as raw_varchar raw_bytes in rw k, l, unfold text_value in rw k)
cell_text F tc v (blob {s} k l) =
    inr (s, unfold raw raw_as raw_bytes in rw k, l, unfold text_value in rw k)

==-refl : (n : ℕ) → (n == n) ≡ true
==-refl n = ground arith

or_false : (b : Bool) → (b || false) ≡ b
or_false true = refl
or_false false = refl

-- The field that a client has of a column whose first value is `v`.
abbrev client_field : TableColumn → Value → Field
client_field tc v = described (dump (typed_field tc v)) (typed_field tc v)

module _ (F : Floats) (p : List ℕ) (pos : ℕ) (tc : TableColumn) (fs : List Field)
    (rest : List ℕ) where
  -- A cell of a text is read by its text.
  text_step :
      (s : List ℕ) (v : Value)
      → length s < 2 ^ 62
      → text_value F (kind_of tc.sql_type) (flags_of v / 32 % 2 == 1) s ≡ ok v
      → At p pos (put_length_encoded_string s ++ rest)
      → parse_text_loop F p pos (client_field tc v ∷ fs) ≡ (
          parse_text_loop F p (pos + length (put_length_encoded_string s)) fs >>= λ vs. ok (v ∷ vs))
  unfolding parse_text_loop has_unsigned_flag
  text_step [] v h t at = rw (
    slice_from-At p pos _ at,
    length_enoded_string-put_nil rest,
    or_false (flags_of v / 32 % 2 == 1),
    t,
  )
  text_step (c ∷ cs) v h t at = rw (
    slice_from-At p pos _ at,
    length_enoded_string-put (c ∷ cs) rest h (omega arith),
    or_false (flags_of v / 32 % 2 == 1),
    t,
  )

  null_step :
      (v : Value)
      → At p pos (0xfb ∷ rest)
      → parse_text_loop F p pos (client_field tc v ∷ fs)
        ≡ (parse_text_loop F p (pos + 1) fs >>= λ vs. ok (null ∷ vs))
  unfolding parse_text_loop
  null_step v at = rw (slice_from-At p pos _ at, length_enoded_string_null rest)

-- Each value is one that its column holds, and there are as many of both.
abbrev pub HoldAll : Floats → List TableColumn → RowValue → Type 0
HoldAll F [] [] = Unit {0}
HoldAll F [] (v ∷ vs) = ⊥
HoldAll F (tc ∷ tcs) [] = ⊥
HoldAll F (tc ∷ tcs) (v ∷ vs) = Holds F tc v × HoldAll F tcs vs

-- The row that is written, and what is read of it wherever it stands.
abbrev Written : Floats → List TableColumn → RowValue → Type 0
Written F tcs vs =
    (row : List ℕ) × (encode_first F tcs vs ≡ ok row)
    × ((p : List ℕ) (pos : ℕ) (rest : List ℕ)
        → At p pos (row ++ rest)
        → parse_text_loop F p pos (read_back (typed_fields tcs vs)) ≡ ok vs)

module _ (F : Floats) (tc : TableColumn) (tcs : List TableColumn) (vs : RowValue) where
  null-Written : Written F tcs vs → Written F (tc ∷ tcs) (null ∷ vs)
  unfolding encode_first encode_cell
  null-Written (row, wrote, read) = (
    0xfb ∷ row,
    rw wrote refl,
    λ p pos rest at.
        null_step F p pos tc (read_back (typed_fields tcs vs)) (row ++ rest) null at
        ∙ rw (read p (pos + 1) rest (At-append p pos (0xfb ∷ []) (row ++ rest) at)),
  )

  text-Written : (v : Value) → CellText F tc v → Written F tcs vs → Written F (tc ∷ tcs) (v ∷ vs)
  unfolding encode_first
  text-Written v (s, cell, h, t) (row, wrote, read) = (
    put_length_encoded_string s ++ row,
    rw (cell, wrote) refl,
    λ p pos rest at.
        let at' : At p pos (put_length_encoded_string s ++ (row ++ rest)) =
          (at.0 ∙ append_assoc (put_length_encoded_string s) row rest, at.1) in
        text_step F p pos tc (read_back (typed_fields tcs vs)) (row ++ rest) s v h t at'
        ∙ rw (
            read p (pos + length (put_length_encoded_string s)) rest
              (At-append p pos (put_length_encoded_string s) (row ++ rest) at')),
  )

encode_first-Written :
    (F : Floats) (tcs : List TableColumn) (vs : RowValue) → HoldAll F tcs vs → Written F tcs vs
encode_first-Written F [] [] h =
    ([], unfold encode_first in refl, λ p pos rest at. unfold parse_text_loop in refl)
encode_first-Written F [] (v ∷ vs) h = absurd h
encode_first-Written F (tc ∷ tcs) [] h = absurd h
encode_first-Written F (tc ∷ tcs) (v ∷ vs) (h, hs) =
    let more = encode_first-Written F tcs vs hs in
    elim (cell_text F tc v h) [
      | inl e ↦ subst (λ w. Written F (tc ∷ tcs) (w ∷ vs)) (sym e) (null-Written F tc tcs vs more)
      | inr cell ↦ text-Written F tc tcs vs v cell more
    ]

length-HoldAll :
    (F : Floats) (tcs : List TableColumn) (vs : RowValue)
    → HoldAll F tcs vs
    → length vs ≡ length tcs
length-HoldAll F [] [] h = refl
length-HoldAll F [] (v ∷ vs) h = absurd h
length-HoldAll F (tc ∷ tcs) [] h = absurd h
length-HoldAll F (tc ∷ tcs) (v ∷ vs) h = ap suc (length-HoldAll F tcs vs h.1)

-- A client that has read the columns of the result that buildResultset makes of one row reads the row's
-- values back, for values that the columns hold: NULL, integers of the column's sign, floating-point
-- numbers whose text is read as themselves, and bytes.
pub parse_rows-build_resultset :
    (F : Floats) (tcs : List TableColumn) (vs : RowValue)
    → HoldAll F tcs vs
    → (build_resultset F tcs (vs ∷ []) >>= λ r.
        parse_rows F false (read_back (typed_fields tcs vs)) r.row_datas)
      ≡ ok (vs ∷ [])
unfolding build_resultset encode_rows parse_rows parse_row parse_text
parse_rows-build_resultset F tcs vs h =
    let (row, wrote, read) = encode_first-Written F tcs vs h in
    let parsed = read row 0 [] (sym (append-nil row), omega arith) in
    rw (length-HoldAll F tcs vs h, ==-refl (length tcs), wrote, parsed)
