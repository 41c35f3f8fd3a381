-- ===== src/Mysql/Field/RoundTrip.antt =====
-- mysql/field.go: what `Dump` writes and what `Parse` reads of it.
use cm.Common.{
  ℕ, ◌+◌, ◌-◌, ◌%◌, ◌^◌, ◌<◌, ◌≤◌, ◌≡◌, refl, sym, ◌∙◌, ap, subst, true, false, none, some, List,
  [], ◌∷◌, ◌++◌, length, take, length-drop, ok, slice, arith, ltb,
}
use cm.Mysql.LenEnc.{put_length_encoded_string, put_length_encoded_int, uint64_to_bytes}
use cm.Mysql.LenEnc.RoundTrip.{length_encoded_int_small}
use cm.Mysql.Field.{Field, parse_default, parse, dump_default, dump_fields, dump}
use cm.Mysql.Field.Layout.{
  At, At-append, slice_from-At, Fits, described, strings_end, parse-dump_fields,
}

dump_of_fresh : (f : Field) → f.field_data ≡ none → dump f ≡ dump_fields f
unfolding dump
dump_of_fresh f h = ground arith

dump_default-none : (f : Field) → f.default_value ≡ none → dump_default f ≡ []
unfolding dump_default
dump_default-none f h = ground arith

dump_default-some :
    (f : Field) (v : List ℕ)
    → f.default_value ≡ some v
    → dump_default f ≡ uint64_to_bytes f.default_value_length ++ v
unfolding dump_default
dump_default-some f v h = ground arith

-- A description without a default value is read back from what Dump writes of it, if it has no packet
-- of its own and its values fit the protocol.
pub parse-dump :
    (f : Field)
    → Fits f
    → f.field_data ≡ none
    → f.default_value ≡ none
    → parse (dump f) ≡ ok (described (dump f) f)
unfolding dump_fields
parse-dump f fits fresh plain =
    subst (λ p. parse p ≡ ok (described p f)) (sym (dump_of_fresh f fresh))
      (let (at, read) = parse-dump_fields f (dump_fields f) refl fits in
        let n = strings_end f + 13 in
        let short : ltb n (length (dump_fields f)) ≡ false = ground (
          arith,
          ap length at.0,
          ap length (dump_default-none f plain),
          length-drop n (dump_fields f),
        ) in
        read ∙ rw short)

eight_bytes :
    (f : Field) (v : List ℕ)
    → f.default_value_length ≡ length v
    → length v ≤ 250
    → uint64_to_bytes f.default_value_length ++ v ≡ length v ∷ 0 ∷ 0 ∷ 0 ∷ 0 ∷ 0 ∷ 0 ∷ 0 ∷ v
unfolding uint64_to_bytes
eight_bytes f v e h = ground arith

-- A length of one byte, and enough bytes behind it.
parse_default-At :
    (p : List ℕ) (pos l : ℕ) (f : Field) (rest : List ℕ)
    → At p pos (l ∷ rest)
    → l ≤ length rest
    → 0 < l
    → l ≤ 250
    → length p < 2 ^ 62
    → parse_default p pos f
      ≡ ok (record f { default_value_length = l; default_value = some (take l rest) })
unfolding parse_default slice
parse_default-At p pos l f rest at enough pos_l short room =
    let (e, h) = At-append p pos (l ∷ []) rest at in
    let measured : length p - (pos + 1) ≡ length rest =
      sym (length-drop (pos + 1) p) ∙ ap length e in
    let whole : (pos + 1 + l) % 2 ^ 64 ≡ pos + 1 + l = omega arith in
    let count : pos + 1 + l - (pos + 1) ≡ l = omega arith in
    rw (slice_from-At p pos _ at, length_encoded_int_small l rest short, whole, slice, count, e)
      (ground arith)

-- Dump writes the length of a default value as eight bytes, and Parse reads it as a length-encoded
-- integer: where it is between 1 and 250, the default value that is read back are the first bytes of
-- the other seven and of the value.
pub parse-dump_default :
    (f : Field) (v : List ℕ)
    → Fits f
    → f.field_data ≡ none
    → f.default_value ≡ some v
    → f.default_value_length ≡ length v
    → 0 < length v
    → length v ≤ 250
    → length (dump f) < 2 ^ 62
    → parse (dump f)
      ≡ ok (record (described (dump f) f) {
        default_value_length = length v;
        default_value = some (take (length v) (0 ∷ 0 ∷ 0 ∷ 0 ∷ 0 ∷ 0 ∷ 0 ∷ v));
      })
unfolding dump_fields
parse-dump_default f v fits fresh has measured pos short room =
    let rest = 0 ∷ 0 ∷ 0 ∷ 0 ∷ 0 ∷ 0 ∷ 0 ∷ v in
    let eq = dump_of_fresh f fresh in
    let (at, read) = parse-dump_fields f (dump f) (eq ∙ unfold dump_fields in refl) fits in
    let at' : At (dump f) (strings_end f + 13) (length v ∷ rest) =
      (at.0 ∙ dump_default-some f v has ∙ eight_bytes f v measured short, at.1) in
    let longer : ltb (strings_end f + 13) (length (dump f)) ≡ true =
      ground (arith, ap length at'.0, length-drop (strings_end f + 13) (dump f)) in
    read
    ∙ rw longer (
        parse_default-At (dump f) (strings_end f + 13) (length v) (described (dump f) f) rest at'
          (omega arith) pos short room)

-- The packet of a description starts with the length of the catalog's name.
pub dump_first : (f : Field) → f.field_data ≡ none → (rest : List ℕ) × (dump f ≡ 3 ∷ rest)
unfolding dump_fields put_length_encoded_string put_length_encoded_int
dump_first f h = (_, dump_of_fresh f h)
