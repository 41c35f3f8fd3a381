-- ===== src/Sqlparser/Keywords.antt =====
-- sqlparser/token.go: the words that the tokenizer knows.
pub mod Numbers
use cm.Common.{String, List, [], ◌∷◌, ℕ, codes, ◌=?◌, Bool, false, ◌||◌}

abbrev pub keywords_lower : List String
keywords_lower =
    "by" ∷ "for" ∷ "in" ∷ "to" ∷ "order" ∷ "using" ∷ "as" ∷ "distinct" ∷ "global" ∷ "index"
    ∷ "inner" ∷ "describe" ∷ "limit" ∷ "natural" ∷ "ignore" ∷ "rename" ∷ "values" ∷ "when" ∷ "else"
    ∷ "names" ∷ "key" ∷ "lock" ∷ "unique" ∷ "from" ∷ "not" ∷ "on" ∷ "all" ∷ "desc" ∷ "drop"
    ∷ "intersect" ∷ "minus" ∷ "right" ∷ "select" ∷ "null" ∷ "show" ∷ "begin" ∷ "rollback" ∷ "commit"
    ∷ "straight_join" ∷ "then" ∷ "duplicate" ∷ "end" ∷ "if" ∷ "left" ∷ "union" ∷ "use" ∷ "table"
    ∷ "alter" ∷ "cross" ∷ "is" ∷ "join" ∷ "view" ∷ "where" ∷ "asc" ∷ "delete" ∷ "force" ∷ "or"
    ∷ "case" ∷ "create" ∷ "group" ∷ "having" ∷ "insert" ∷ "like" ∷ "replace" ∷ "and" ∷ "default"
    ∷ "except" ∷ "explain" ∷ "between" ∷ "set" ∷ "session" ∷ "start" ∷ "transaction" ∷ "outer"
    ∷ "update" ∷ "analyze" ∷ "exists" ∷ "into" ∷ []

abbrev pub keywords_upper : List String
keywords_upper =
    "BY" ∷ "FOR" ∷ "IN" ∷ "TO" ∷ "AS" ∷ "DISTINCT" ∷ "INDEX" ∷ "INNER" ∷ "ORDER" ∷ "USING"
    ∷ "DESCRIBE" ∷ "LIMIT" ∷ "NATURAL" ∷ "IGNORE" ∷ "RENAME" ∷ "VALUES" ∷ "WHEN" ∷ "ELSE" ∷ "GLOBAL"
    ∷ "KEY" ∷ "LOCK" ∷ "UNIQUE" ∷ "FROM" ∷ "ALL" ∷ "DESC" ∷ "DROP" ∷ "INTERSECT" ∷ "NOT" ∷ "ON"
    ∷ "MINUS" ∷ "RIGHT" ∷ "SELECT" ∷ "DUPLICATE" ∷ "END" ∷ "IF" ∷ "LEFT" ∷ "NULL" ∷ "NAMES" ∷ "SHOW"
    ∷ "STRAIGHT_JOIN" ∷ "THEN" ∷ "UNION" ∷ "USE" ∷ "ALTER" ∷ "CROSS" ∷ "IS" ∷ "JOIN" ∷ "TABLE"
    ∷ "ASC" ∷ "DELETE" ∷ "FORCE" ∷ "OR" ∷ "BEGIN" ∷ "ROLLBACK" ∷ "COMMIT" ∷ "VIEW" ∷ "WHERE"
    ∷ "CASE" ∷ "CREATE" ∷ "AND" ∷ "DEFAULT" ∷ "EXCEPT" ∷ "EXPLAIN" ∷ "GROUP" ∷ "REPLACE" ∷ "HAVING"
    ∷ "INSERT" ∷ "LIKE" ∷ "BETWEEN" ∷ "SET" ∷ "SESSION" ∷ "START" ∷ "TRANSACTION" ∷ "OUTER"
    ∷ "UPDATE" ∷ "ANALYZE" ∷ "EXISTS" ∷ "INTO" ∷ []

unfoldable pub listed : List ℕ → List String → Bool
listed word [] = false
listed word (k ∷ ks) = word =? codes k || listed word ks

-- `_, ok := keywords[word]`
unfoldable pub is_keyword : List ℕ → Bool
is_keyword word = listed word keywords_lower || listed word keywords_upper
