-- ===== src/Sqlparser/Keywords/Numbers.antt =====
-- sqlparser/token.go: the numbers of the words that the tokenizer knows. The numbers are those that
-- goyacc gave the tokens, in sql.go.
use cm.Common.{ℕ, String, List, [], ◌∷◌, ◌++◌, codes, ◌=?◌, Option, none, some, if◌then◌else◌}

abbrev pub lower_numbers : List (String × ℕ)
lower_numbers =
    ("by", 57357)
    ∷ ("for", 57359)
    ∷ ("in", 57369)
    ∷ ("to", 57428)
    ∷ ("order", 57356)
    ∷ ("using", 57432)
    ∷ ("as", 57367)
    ∷ ("distinct", 57366)
    ∷ ("global", 57394)
    ∷ ("index", 57426)
    ∷ ("inner", 57404)
    ∷ ("describe", 57434)
    ∷ ("limit", 57358)
    ∷ ("natural", 57407)
    ∷ ("ignore", 57429)
    ∷ ("rename", 57423)
    ∷ ("values", 57376)
    ∷ ("when", 57416)
    ∷ ("else", 57418)
    ∷ ("names", 57393)
    ∷ ("key", 57379)
    ∷ ("lock", 57382)
    ∷ ("unique", 57431)
    ∷ ("from", 57352)
    ∷ ("not", 57413)
    ∷ ("on", 57410)
    ∷ ("all", 57365)
    ∷ ("desc", 57375)
    ∷ ("drop", 57422)
    ∷ ("intersect", 57399)
    ∷ ("minus", 57397)
    ∷ ("right", 57403)
    ∷ ("select", 57347)
    ∷ ("null", 57373)
    ∷ ("show", 57433)
    ∷ ("begin", 57360)
    ∷ ("rollback", 57362)
    ∷ ("commit", 57361)
    ∷ ("straight_join", 57401)
    ∷ ("then", 57417)
    ∷ ("duplicate", 57378)
    ∷ ("end", 57419)
    ∷ ("if", 57430)
    ∷ ("left", 57402)
    ∷ ("union", 57396)
    ∷ ("use", 57408)
    ∷ ("table", 57425)
    ∷ ("alter", 57421)
    ∷ ("cross", 57406)
    ∷ ("is", 57370)
    ∷ ("join", 57400)
    ∷ ("view", 57427)
    ∷ ("where", 57353)
    ∷ ("asc", 57374)
    ∷ ("delete", 57350)
    ∷ ("force", 57409)
    ∷ ("or", 57411)
    ∷ ("case", 57415)
    ∷ ("create", 57420)
    ∷ ("group", 57354)
    ∷ ("having", 57355)
    ∷ ("insert", 57348)
    ∷ ("like", 57371)
    ∷ ("replace", 57351)
    ∷ ("and", 57412)
    ∷ ("default", 57380)
    ∷ ("except", 57398)
    ∷ ("explain", 57435)
    ∷ ("between", 57372)
    ∷ ("set", 57381)
    ∷ ("session", 57395)
    ∷ ("start", 57363)
    ∷ ("transaction", 57364)
    ∷ ("outer", 57405)
    ∷ ("update", 57349)
    ∷ ("analyze", 57424)
    ∷ ("exists", 57368)
    ∷ ("into", 57377)
    ∷ []

abbrev pub upper_numbers : List (String × ℕ)
upper_numbers =
    ("BY", 57357)
    ∷ ("FOR", 57359)
    ∷ ("IN", 57369)
    ∷ ("TO", 57428)
    ∷ ("AS", 57367)
    ∷ ("DISTINCT", 57366)
    ∷ ("INDEX", 57426)
    ∷ ("INNER", 57404)
    ∷ ("ORDER", 57356)
    ∷ ("USING", 57432)
    ∷ ("DESCRIBE", 57434)
    ∷ ("LIMIT", 57358)
    ∷ ("NATURAL", 57407)
    ∷ ("IGNORE", 57429)
    ∷ ("RENAME", 57423)
    ∷ ("VALUES", 57376)
    ∷ ("WHEN", 57416)
    ∷ ("ELSE", 57418)
    ∷ ("GLOBAL", 57394)
    ∷ ("KEY", 57379)
    ∷ ("LOCK", 57382)
    ∷ ("UNIQUE", 57431)
    ∷ ("FROM", 57352)
    ∷ ("ALL", 57365)
    ∷ ("DESC", 57375)
    ∷ ("DROP", 57422)
    ∷ ("INTERSECT", 57399)
    ∷ ("NOT", 57413)
    ∷ ("ON", 57410)
    ∷ ("MINUS", 57397)
    ∷ ("RIGHT", 57403)
    ∷ ("SELECT", 57347)
    ∷ ("DUPLICATE", 57378)
    ∷ ("END", 57419)
    ∷ ("IF", 57430)
    ∷ ("LEFT", 57402)
    ∷ ("NULL", 57373)
    ∷ ("NAMES", 57393)
    ∷ ("SHOW", 57433)
    ∷ ("STRAIGHT_JOIN", 57401)
    ∷ ("THEN", 57417)
    ∷ ("UNION", 57396)
    ∷ ("USE", 57408)
    ∷ ("ALTER", 57421)
    ∷ ("CROSS", 57406)
    ∷ ("IS", 57370)
    ∷ ("JOIN", 57400)
    ∷ ("TABLE", 57425)
    ∷ ("ASC", 57374)
    ∷ ("DELETE", 57350)
    ∷ ("FORCE", 57409)
    ∷ ("OR", 57411)
    ∷ ("BEGIN", 57360)
    ∷ ("ROLLBACK", 57362)
    ∷ ("COMMIT", 57361)
    ∷ ("VIEW", 57427)
    ∷ ("WHERE", 57353)
    ∷ ("CASE", 57415)
    ∷ ("CREATE", 57420)
    ∷ ("AND", 57412)
    ∷ ("DEFAULT", 57380)
    ∷ ("EXCEPT", 57398)
    ∷ ("EXPLAIN", 57435)
    ∷ ("GROUP", 57354)
    ∷ ("REPLACE", 57351)
    ∷ ("HAVING", 57355)
    ∷ ("INSERT", 57348)
    ∷ ("LIKE", 57371)
    ∷ ("BETWEEN", 57372)
    ∷ ("SET", 57381)
    ∷ ("SESSION", 57395)
    ∷ ("START", 57363)
    ∷ ("TRANSACTION", 57364)
    ∷ ("OUTER", 57405)
    ∷ ("UPDATE", 57349)
    ∷ ("ANALYZE", 57424)
    ∷ ("EXISTS", 57368)
    ∷ ("INTO", 57377)
    ∷ []

unfoldable pub number_of : List ℕ → List (String × ℕ) → Option ℕ
number_of word [] = none
number_of word ((k, n) ∷ ks) = if word =? codes k then some n else number_of word ks

-- `keywords[word]`
unfoldable pub keyword_id : List ℕ → Option ℕ
keyword_id word = number_of word (lower_numbers ++ upper_numbers)
