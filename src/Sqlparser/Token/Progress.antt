-- ===== src/Sqlparser/Token/Progress.antt =====
-- sqlparser/token.go: every scanner answers a token, and each token takes characters.
use cm.Common.{
  ℕ, ◌+◌, ◌%◌, ◌≤◌, ◌≡◌, Option, none, some, List, [], ◌∷◌, ◌++◌, length, ◌==◌, if◌then◌else◌, Bool,
  true, false, not, ◌&&◌, ◌||◌, arith,
}
use cm.Sqlparser.Token.{Tokenizer, next, eofchar, id}
use cm.Sqlparser.Token.Words.{
  Token, is_letter, is_digit, scan_identifier, scan_literal_identifier, scan_bind_var, scan_number,
  take_while, taken, bind_var_name, scan_mantissa, scan_exponent, scan_fraction, digit_val,
  octal_end, scan_octal, comment_loop, scan_comment_type1, value_arg, list_arg,
}
use cm.Sqlparser.Keywords.Numbers.{keyword_id}

-- The characters that are to come, the last one included.
abbrev pub remaining : Tokenizer → ℕ
remaining t = length t.stream + (if t.last_char == eofchar then 0 else 1)

pub next-remaining : (t : Tokenizer) → remaining (next t) ≤ length t.stream
unfolding next
next-remaining t = by_stream t.stream t.position
  where
    by_stream :
        (s : List ℕ) (n : ℕ)
        → remaining (next (record { stream = s; last_char = t.last_char; position = n })) ≤ length s
    by_stream [] n = unfold next in ground arith
    by_stream (c ∷ cs) n = unfold next in ground arith

take_while-remaining :
    (p : ℕ → Bool) (buffer : List ℕ) (n ch : ℕ) (s : List ℕ)
    → remaining (take_while p buffer n ch s).1 ≤ length s + (if ch == eofchar then 0 else 1)
unfolding take_while
take_while-remaining p buffer n ch [] = ground arith
take_while-remaining p buffer n ch (d ∷ ds) =
    ground (arith, take_while-remaining p (buffer ++ ch % 256 ∷ []) (n + 1) d ds)

pub taken-remaining :
    (p : ℕ → Bool) (buffer : List ℕ) (t : Tokenizer) → remaining (taken p buffer t).1 ≤ remaining t
unfolding taken
taken-remaining p buffer t = take_while-remaining p buffer t.position t.last_char t.stream

pub next-le : (t : Tokenizer) → remaining (next t) ≤ remaining t
next-le t = omega (arith, next-remaining t)

-- What a token leaves.
abbrev pub left : Token → Tokenizer
left (typ, val, t) = t

abbrev word : ℕ → Bool
word ch = is_letter ch || is_digit ch

abbrev one : ℕ → List ℕ
one ch = ch % 256 ∷ []

by_id :
    (n : ℕ) (k : Option ℕ) (buffer : List ℕ) (u : Tokenizer)
    → remaining u ≤ n
    → remaining (left (elim k [ none ↦ (id, buffer, u) | some k ↦ (k, buffer, u) ])) ≤ n
by_id n none buffer u h = h
by_id n (some k) buffer u h = h

pub scan_identifier-left : (t : Tokenizer) → remaining (left (scan_identifier t)) ≤ length t.stream
unfolding scan_identifier
scan_identifier-left t =
    by_id _ (keyword_id _) _ (taken word (one t.last_char) (next t)).1
      (omega (arith, next-remaining t, taken-remaining word (one t.last_char) (next t)))

pub scan_literal_identifier-left :
    (t : Tokenizer) → remaining (left (scan_literal_identifier t)) ≤ remaining t
unfolding scan_literal_identifier
scan_literal_identifier-left t = ground (
  arith,
  next-remaining t,
  taken-remaining word (one t.last_char) (next t),
  next-remaining (taken word (one t.last_char) (next t)).1,
)

bind_var_name-left :
    (token : ℕ) (buffer : List ℕ) (t : Tokenizer)
    → remaining (left (bind_var_name token buffer t)) ≤ remaining t
unfolding bind_var_name
bind_var_name-left token buffer t =
    ground (arith, taken-remaining (λ ch. word ch || ch == b'.') buffer t)

pub scan_bind_var-left : (t : Tokenizer) → remaining (left (scan_bind_var t)) ≤ length t.stream
unfolding scan_bind_var
scan_bind_var-left t = ground (
  arith,
  bind_var_name-left list_arg (one t.last_char ++ one (next t).last_char) (next (next t)),
  bind_var_name-left value_arg (one t.last_char) (next t),
  next-remaining t,
  next-le (next t),
)

pub scan_mantissa-remaining :
    (base : ℕ) (buffer : List ℕ) (t : Tokenizer)
    → remaining (scan_mantissa base buffer t).1 ≤ remaining t
unfolding scan_mantissa
scan_mantissa-remaining base buffer t = taken-remaining _ buffer t

pub scan_exponent-left :
    (buffer : List ℕ) (t : Tokenizer) → remaining (left (scan_exponent buffer t)) ≤ remaining t
unfolding scan_exponent
scan_exponent-left buffer t = ground (
  arith,
  next-le t,
  next-le (next t),
  scan_mantissa-remaining 10 ((buffer ++ one t.last_char) ++ one (next t).last_char)
      (next (next t)),
  scan_mantissa-remaining 10 (buffer ++ one t.last_char) (next t),
)

pub scan_fraction-left :
    (buffer : List ℕ) (t : Tokenizer) → remaining (left (scan_fraction buffer t)) ≤ remaining t
unfolding scan_fraction
scan_fraction-left buffer t =
    let u = scan_mantissa 10 (buffer ++ one t.last_char) (next t) in
    ground (
      arith,
      next-le t,
      scan_exponent-left u.0 u.1,
      scan_exponent-left buffer t,
      scan_mantissa-remaining 10 (buffer ++ one t.last_char) (next t),
    )

octal_end-left :
    (decimal : Bool) (buffer : List ℕ) (t : Tokenizer)
    → remaining (left (octal_end decimal buffer t)) ≤ remaining t
unfolding octal_end
octal_end-left decimal buffer t = ground (arith, scan_fraction-left buffer t)

pub scan_octal-left :
    (buffer : List ℕ) (t : Tokenizer) → remaining (left (scan_octal buffer t)) ≤ remaining t
unfolding scan_octal
scan_octal-left buffer t =
    let u = scan_mantissa 8 buffer t in
    let v = scan_mantissa 10 u.0 u.1 in
    ground (
      arith,
      scan_mantissa-remaining 8 buffer t,
      scan_mantissa-remaining 10 u.0 u.1,
      octal_end-left true v.0 v.1,
      octal_end-left false u.0 u.1,
    )

take_while-first :
    (p : ℕ → Bool) (buffer : List ℕ) (n ch : ℕ) (s : List ℕ)
    → p ch ≡ true
    → remaining (take_while p buffer n ch s).1 ≤ length s
unfolding take_while
take_while-first p buffer n ch [] h = ground arith
take_while-first p buffer n ch (d ∷ ds) h =
    ground (arith, take_while-remaining p (buffer ++ ch % 256 ∷ []) (n + 1) d ds)

-- Where another letter follows, it is taken too.
pub scan_identifier-next :
    (t : Tokenizer)
    → word (next t).last_char ≡ true
    → remaining (left (scan_identifier t)) ≤ length (next t).stream
unfolding scan_identifier taken
scan_identifier-next t h =
    let u = next t in
    by_id _ (keyword_id _) _ (take_while word (one t.last_char) u.position u.last_char u.stream).1
      (take_while-first word (one t.last_char) u.position u.last_char u.stream h)

pub scan_mantissa-first :
    (t : Tokenizer)
    → is_digit t.last_char ≡ true
    → remaining (scan_mantissa 10 [] t).1 ≤ length t.stream
unfolding scan_mantissa taken
scan_mantissa-first t h =
    take_while-first _ [] t.position t.last_char t.stream
      (unfold is_digit digit_val in ground arith)

pub scan_number-left :
    (t : Tokenizer)
    → is_digit t.last_char ≡ true
    → remaining (left (scan_number false t)) ≤ length t.stream
unfolding scan_number
scan_number-left t h =
    let u = scan_mantissa 10 [] t in
    ground (
      arith,
      next-remaining t,
      next-le (next t),
      scan_mantissa-remaining 16 (one t.last_char ++ one (next t).last_char) (next (next t)),
      scan_octal-left (one t.last_char) (next t),
      scan_fraction-left u.0 u.1,
      scan_mantissa-first t h,
    )

pub scan_number-point : (t : Tokenizer) → remaining (left (scan_number true t)) ≤ remaining t
unfolding scan_number
scan_number-point t =
    let u = scan_mantissa 10 (b'.' ∷ []) t in
    omega (arith, scan_exponent-left u.0 u.1, scan_mantissa-remaining 10 (b'.' ∷ []) t)

pub scan_comment_type1-left :
    (prefix : List ℕ) (t : Tokenizer) → remaining (left (scan_comment_type1 prefix t)) ≤ remaining t
unfolding scan_comment_type1
scan_comment_type1-left prefix t =
    let p : ℕ → Bool = λ ch. not (ch == eofchar) && not (ch == 10) in
    ground (arith, taken-remaining p prefix t, next-le (taken p prefix t).1)

pub comment_loop-left :
    (buffer : List ℕ) (n ch : ℕ) (s : List ℕ)
    → remaining (left (comment_loop buffer n ch s)) ≤ length s + (if ch == eofchar then 0 else 1)
unfolding comment_loop
comment_loop-left buffer n ch [] = ground arith
comment_loop-left buffer n ch (d ∷ ds) = ground (
  arith,
  next-remaining (record { stream = ds; last_char = d; position = n + 1 }),
  comment_loop-left (buffer ++ one ch) (n + 1) d ds,
)
