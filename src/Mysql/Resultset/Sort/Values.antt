-- ===== src/Mysql/Resultset/Sort/Values.antt =====
-- mysql/resultset_sort.go: the order of values, and how three comparisons fit together.
use cm.Common.{
  ◌≡◌, ap, Option, none, some, ltb, lex_lt, lex_lt_trans, lex_lt_irrefl, le_lt_trans, Bool, true,
  false, ◌||◌, ok, arith,
}
use cm.Mysql.Resultset.{Value, Floats, int64, uint64, float64, string, bytes}
use cm.Mysql.Resultset.Sort.{
  Comparison, less, same, more, opposite, compare_by, int_less, cmp_value,
}

-- A test orders its values up to equivalence.
pub record StrictWeak {A : Type 0} (lt : A → A → Bool) : Type 0 where
  pub irrefl : (a : A) → lt a a ≡ false
  pub trans : (a b c : A) → lt a b ≡ true → lt b c ≡ true → lt a c ≡ true
  pub connex : (a b c : A) → lt a c ≡ true → (lt a b || lt b c) ≡ true

ltb-StrictWeak : StrictWeak ltb
ltb-StrictWeak = record {
  irrefl = λ a. ground arith;
  trans = λ a b c h k. ground arith;
  connex = λ a b c h. ground arith;
}

int_less-StrictWeak : StrictWeak int_less
int_less-StrictWeak = record {
  irrefl = λ a. unfold int_less in ground arith;
  trans = λ a b c h k. unfold int_less in ground arith;
  connex = λ a b c h. unfold int_less in ground arith;
}

lex_lt-StrictWeak : StrictWeak lex_lt
lex_lt-StrictWeak = record {
  irrefl = lex_lt_irrefl;
  trans = lex_lt_trans;
  connex = λ a b c h. ground (arith, le_lt_trans a b c);
}

-- What two comparisons say of the third: `none` where they point to different sides.
abbrev pub joined : Comparison → Comparison → Option Comparison
joined same y = some y
joined less less = some less
joined less same = some less
joined less more = none
joined more more = some more
joined more same = some more
joined more less = none

compare_by-joined :
    {A : Type 0} (lt : A → A → Bool) (o : StrictWeak lt) (a b c : A) (z : Comparison)
    → joined (compare_by (lt a b) (lt b a)) (compare_by (lt b c) (lt c b)) ≡ some z
    → compare_by (lt a c) (lt c a) ≡ z
unfolding compare_by
compare_by-joined lt o a b c z h = ground (
  arith,
  o.irrefl a,
  o.trans a b c,
  o.trans c b a,
  o.connex a b c,
  o.connex c b a,
  o.connex a c b,
  o.connex b a c,
  o.connex b c a,
  o.connex c a b,
  o.trans a c b,
  o.trans b a c,
  o.trans b c a,
  o.trans c a b,
  o.trans a b a,
  o.trans b c b,
  o.irrefl b,
  o.irrefl c,
  o.trans a c a,
)

compare_by-opposite :
    {A : Type 0} (lt : A → A → Bool) (o : StrictWeak lt) (a b : A)
    → compare_by (lt b a) (lt a b) ≡ opposite (compare_by (lt a b) (lt b a))
unfolding compare_by opposite
compare_by-opposite lt o a b = ground (arith, o.irrefl a, o.trans a b a)

pub opposite-opposite : (z : Comparison) → opposite (opposite z) ≡ z
unfolding opposite
opposite-opposite z = ground arith

pub joined-opposite :
    (x y z : Comparison)
    → joined (opposite x) (opposite y) ≡ some z
    → joined x y ≡ some (opposite z)
unfolding opposite
joined-opposite x y z h = ground arith

-- What the code relies on of `<` on the floating-point numbers of a column: none is NaN.
abbrev pub IsOrder : Floats → Type 0
IsOrder F = StrictWeak F.less

module _ (F : Floats) (o : IsOrder F) where
  pub cmp_value-joined :
      (a b c : Value) {x y z : Comparison}
      → cmp_value F a b ≡ ok x
      → cmp_value F b c ≡ ok y
      → joined x y ≡ some z
      → cmp_value F a c ≡ ok z
  unfolding cmp_value
  cmp_value-joined (int64 a) (int64 b) (int64 c) {x} {y} {z} h k j =
      ap ok (compare_by-joined int_less int_less-StrictWeak a b c z (cc))
  cmp_value-joined (uint64 a) (uint64 b) (uint64 c) {x} {y} {z} h k j =
      ap ok (compare_by-joined ltb ltb-StrictWeak a b c z (cc))
  cmp_value-joined (float64 a) (float64 b) (float64 c) {x} {y} {z} h k j =
      ap ok (compare_by-joined F.less o a b c z (cc))
  cmp_value-joined (string a) (string b) (string c) {x} {y} {z} h k j =
      ap ok (compare_by-joined lex_lt lex_lt-StrictWeak a b c z (cc))
  cmp_value-joined (bytes a) (bytes b) (bytes c) {x} {y} {z} h k j =
      ap ok (compare_by-joined lex_lt lex_lt-StrictWeak a b c z (cc))
  cmp_value-joined a b c h k j = ground arith

  pub cmp_value-opposite :
      (a b : Value) {x : Comparison} → cmp_value F a b ≡ ok x → cmp_value F b a ≡ ok (opposite x)
  unfolding cmp_value
  cmp_value-opposite (int64 a) (int64 b) h =
      cc (compare_by-opposite int_less int_less-StrictWeak a b)
  cmp_value-opposite (uint64 a) (uint64 b) h = cc (compare_by-opposite ltb ltb-StrictWeak a b)
  cmp_value-opposite (float64 a) (float64 b) h = cc (compare_by-opposite F.less o a b)
  cmp_value-opposite (string a) (string b) h = cc (compare_by-opposite lex_lt lex_lt-StrictWeak a b)
  cmp_value-opposite (bytes a) (bytes b) h = cc (compare_by-opposite lex_lt lex_lt-StrictWeak a b)
  cmp_value-opposite a b h = unfold opposite in ground arith
