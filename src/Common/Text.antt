-- ===== src/Common/Text.antt =====
-- Go strings as lists of bytes: equality, the byte order, and `strings.Split` at one byte.

use Prim.Native.Char.{code}
use Prim.Native.Nat.{ℕ, ◌+◌}
use Prim.Native.String.{String}
use mathlib.Core.Path.{◌≡◌, refl}
use mathlib.Core.Logic.{◌↔◌}
use mathlib.Core.Bool.{Bool, true, false, not, ◌&&◌, ◌||◌}
use mathlib.Core.List.{List, [], ◌∷◌, reverse}
use native.Mathlib.Omega.{arith}
use cm.Common.Tests.{leb, ltb, ◌==◌, if◌then◌else◌}

-- The bytes of an ASCII text.
abbrev pub codes : String → List ℕ
codes String.[] = []
codes (String.◌∷◌ c s) = code c ∷ codes s

infix 50 ◌=?◌
unfoldable pub ◌=?◌ : List ℕ → List ℕ → Bool
[] =? [] = true
[] =? (y ∷ ys) = false
(x ∷ xs) =? [] = false
(x ∷ xs) =? (y ∷ ys) = x == y && (xs =? ys)

-- `a < b`
unfoldable pub lex_lt : List ℕ → List ℕ → Bool
lex_lt a [] = false
lex_lt [] (y ∷ ys) = true
lex_lt (x ∷ xs) (y ∷ ys) = ltb x y || (x == y && lex_lt xs ys)

-- `a <= b`
abbrev pub lex_le : List ℕ → List ℕ → Bool
lex_le a b = not (lex_lt b a)

pub =?_iff : (a b : List ℕ) → ((a =? b) ≡ true) ↔ (a ≡ b)
unfolding ◌=?◌
=?_iff [] [] = ground arith
=?_iff [] (y ∷ ys) = ground arith
=?_iff (x ∷ xs) [] = ground arith
=?_iff (x ∷ xs) (y ∷ ys) = ground (arith, =?_iff xs ys)

pub lex_lt_trans : (a b c : List ℕ) → lex_lt a b ≡ true → lex_lt b c ≡ true → lex_lt a c ≡ true
unfolding lex_lt
lex_lt_trans a b [] h k = ground arith
lex_lt_trans [] [] (z ∷ zs) h k = refl
lex_lt_trans [] (y ∷ ys) (z ∷ zs) h k = refl
lex_lt_trans (x ∷ xs) [] (z ∷ zs) h k = ground arith
lex_lt_trans (x ∷ xs) (y ∷ ys) (z ∷ zs) h k = ground (arith, lex_lt_trans xs ys zs)

-- Two strings of which neither is less are equal.
lex_lt_connex : (a b : List ℕ) → lex_lt a b ≡ false → lex_lt b a ≡ false → a ≡ b
unfolding lex_lt
lex_lt_connex [] [] h k = refl
lex_lt_connex [] (y ∷ ys) h k = ground arith
lex_lt_connex (x ∷ xs) [] h k = ground arith
lex_lt_connex (x ∷ xs) (y ∷ ys) h k = ground (arith, lex_lt_connex xs ys)

pub lex_lt_irrefl : (a : List ℕ) → lex_lt a a ≡ false
unfolding lex_lt
lex_lt_irrefl [] = refl
lex_lt_irrefl (x ∷ xs) = ground (arith, lex_lt_irrefl xs)

-- If `a` is not below `b`, then nothing between is: `b <= a < c` gives `b < c`.
pub le_lt_trans : (a b c : List ℕ) → lex_lt a b ≡ false → lex_lt a c ≡ true → lex_lt b c ≡ true
unfolding lex_lt
le_lt_trans a b [] h k = ground arith
le_lt_trans [] [] (z ∷ zs) h k = refl
le_lt_trans (x ∷ xs) [] (z ∷ zs) h k = refl
le_lt_trans [] (y ∷ ys) (z ∷ zs) h k = ground arith
le_lt_trans (x ∷ xs) (y ∷ ys) (z ∷ zs) h k = ground (arith, le_lt_trans xs ys zs)

-- `strings.Split(s, sep)` for a separator of one byte: never empty.
abbrev head_onto : ℕ → List (List ℕ) → List (List ℕ)
head_onto c [] = (c ∷ []) ∷ []
head_onto c (p ∷ ps) = (c ∷ p) ∷ ps

unfoldable pub split : ℕ → List ℕ → List (List ℕ)
split sep [] = [] ∷ []
split sep (c ∷ cs) = if c == sep then [] ∷ split sep cs else head_onto c (split sep cs)

-- `strings.ToLower` of an ASCII text.
unfoldable pub to_lower : List ℕ → List ℕ
to_lower [] = []
to_lower (c ∷ cs) = (if leb b'A' c && leb c b'Z' then c + 32 else c) ∷ to_lower cs

has_prefix : List ℕ → List ℕ → Bool
has_prefix s [] = true
has_prefix [] (p ∷ ps) = false
has_prefix (c ∷ cs) (p ∷ ps) = c == p && has_prefix cs ps

-- `strings.Index(s, sub) >= 0`
pub has_substring : List ℕ → List ℕ → Bool
has_substring [] sub = has_prefix [] sub
has_substring (c ∷ cs) sub = has_prefix (c ∷ cs) sub || has_substring cs sub

-- What stands before the first `c`, or the whole text.
pub before : ℕ → List ℕ → List ℕ
before c [] = []
before c (x ∷ xs) = if x == c then [] else x ∷ before c xs

trim_left : List ℕ → List ℕ
trim_left [] = []
trim_left (c ∷ cs) = if c == 32 || (ltb 8 c && ltb c 14) then trim_left cs else c ∷ cs

-- `strings.TrimSpace`: what is left is turned round twice.
pub trim_space : List ℕ → List ℕ
trim_space s = reverse (trim_left (reverse (trim_left s)))
