-- ===== src/Mysql/Charset/Agree/Checks.antt =====
-- The tables of collations at a number.
use cm.Common.{◌≡◌, refl, some}
use cm.Mysql.Charset.Collations.{collation_name, name_in}

utf8_name : collation_name 33 ≡ some "utf8_general_ci"
unfolding collation_name name_in
utf8_name = refl
