-- ===== src/Mysql/Charset/Agree.antt =====
-- mysql/charset.go: the tables agree with one another.
mod Checks
use cm.Common.{
  ℕ, String, List, [], ◌∷◌, Bool, true, false, ◌&&◌, ◌≡◌, refl, codes, ◌==◌, ◌=?◌, if◌then◌else◌,
  Option, none, some, arith, Bool-cases, inl, inr, ap, sym, ◌∙◌,
}
use cm.Mysql.Charset.{charset_ids, charsets}
use cm.Mysql.Charset.Collations.{collations, name_in, collation_name}
use cm.Mysql.Charset.Names.{collation_id, number_in}

all_named : List (ℕ × String) → Bool
all_named [] = true
all_named ((i, name) ∷ cs) = collation_id (codes name) == i && all_named cs

all_named-collations : all_named collations ≡ true
unfolding all_named collation_id number_in ◌=?◌
all_named-collations = refl

collation_id-name_in :
    (i : ℕ) (name : String) (cs : List (ℕ × String))
    → all_named cs ≡ true
    → name_in i cs ≡ some name
    → collation_id (codes name) ≡ i
unfolding all_named name_in
collation_id-name_in i name [] h e = cc
collation_id-name_in i name ((j, n) ∷ cs) h e = ground (arith, collation_id-name_in i name cs)

-- CollationNames gives the number of every collation that Collations names.
pub collation_id-collation_name :
    (i : ℕ) (name : String) → collation_name i ≡ some name → collation_id (codes name) ≡ i
unfolding collation_name
collation_id-collation_name i name h = collation_id-name_in i name collations all_named-collations h

-- The collation that Charsets names is the one that CharsetIds numbers.
all_default : List (String × ℕ) → List (String × String) → Bool
all_default [] [] = true
all_default [] (s ∷ ss) = false
all_default (i ∷ is) [] = false
all_default ((c, i) ∷ is) ((d, name) ∷ ss) =
    codes c =? codes d && (collation_id (codes name) == i && all_default is ss)

charsets-Agree : all_default charset_ids charsets ≡ true
unfolding all_default collation_id number_in ◌=?◌
charsets-Agree = refl
