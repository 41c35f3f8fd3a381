-- ===== src/Vt/Schema.antt =====
-- vt/schema/schema.go: tables, their columns and their indexes.
use cm.Common.{
  ℕ, suc, ◌+◌, String, List, [], ◌∷◌, ◌++◌, length, Bool, Option, none, some, codes, ◌==◌, ◌=?◌,
  if◌then◌else◌, Result, ok, panic, ◌>>=◌, to_lower, has_substring, before, trim_space, index_at,
}

-- `CACHE_NONE`, `CACHE_RW` and `CACHE_W`.
pub data CacheType : Type 0 where
  cache_none cache_rw cache_w : CacheType

-- A default is the bytes that the server gave, or nil.
pub record TableColumn : Type 0 where
  pub name : List ℕ
  pub sql_type : ℕ
  pub is_auto : Bool
  pub default_value : Option (List ℕ)
  pub collation : List ℕ
  pub is_unsigned : Bool

pub record Index : Type 0 where
  pub name : List ℕ
  pub columns : List (List ℕ)
  pub cardinality : List ℕ
  pub data_columns : List (List ℕ)

pub record Table : Type 0 where
  pub name : List ℕ
  pub columns : List TableColumn
  pub indexes : List Index
  pub pk_columns : List ℕ
  pub cache_type : CacheType

abbrev types_map : List (String × ℕ)
types_map =
    ("int", 3)
    ∷ ("long", 3)
    ∷ ("bigint", 8)
    ∷ ("short", 2)
    ∷ ("tiny", 1)
    ∷ ("tinyint", 1)
    ∷ ("smallint", 1)
    ∷ ("varbinary", 15)
    ∷ ("blob", 252)
    ∷ ("datetime", 12)
    ∷ ("date", 10)
    ∷ ("timestamp", 7)
    ∷ ("data", 10)
    ∷ ("float", 4)
    ∷ ("double", 5)
    ∷ ("enum", 247)
    ∷ ("text", 254)
    ∷ ("varchar", 15)
    ∷ ("string", 254)
    ∷ ("char", 254)
    ∷ []

type_in : List ℕ → List (String × ℕ) → Result ℕ
type_in s [] = panic
type_in s ((name, t) ∷ ts) = if s =? codes name then ok t else type_in s ts

-- An unknown type ends the program: `log.Fatalf`.
str2mysql_type : List ℕ → Result ℕ
str2mysql_type s = type_in s types_map

-- `columnType[:endPos]` where a parenthesis stands behind the first character.
base_type : List ℕ → List ℕ
base_type [] = []
base_type (c ∷ cs) = if c == b'(' then c ∷ cs else c ∷ before b'(' cs

new_column : List ℕ → List ℕ → List ℕ → Option (List ℕ) → List ℕ → Result TableColumn
new_column name column_type collation defval extra = do
  let lower = to_lower column_type
  t ← str2mysql_type (trim_space (base_type lower))
  let is_auto = extra =? codes "auto_increment"
  ok (record {
    name = to_lower name;
    sql_type = t;
    is_auto = is_auto;
    default_value = if is_auto then none else defval;
    collation = collation;
    is_unsigned = has_substring lower (codes "unsigned");
  })

add_column : Table → List ℕ → List ℕ → List ℕ → Option (List ℕ) → List ℕ → Result Table
add_column ta name column_type collation defval extra = do
  c ← new_column name column_type collation defval extra
  ok (record ta { columns = ta.columns ++ c ∷ [] })

-- The position of a name, counted from `i`; -1 is `none`.
unfoldable pub position : List ℕ → ℕ → List (List ℕ) → Option ℕ
position name i [] = none
position name i (c ∷ cs) = if c =? name then some i else position name (suc i) cs

pub column_names : List TableColumn → List (List ℕ)
column_names [] = []
column_names (c ∷ cs) = c.name ∷ column_names cs

-- `Table.FindColumn`
pub find_table_column : Table → List ℕ → Option ℕ
find_table_column ta name = position name 0 (column_names ta.columns)

unfoldable pub get_pk_column : Table → ℕ → Result TableColumn
get_pk_column ta i = do c ← index_at ta.pk_columns i; index_at ta.columns c

unfoldable pub find_column : Index → List ℕ → Option ℕ
find_column idx name = position name 0 idx.columns

pub find_data_column : Index → List ℕ → Option ℕ
find_data_column idx name = position name 0 idx.data_columns

new_index : List ℕ → Index
new_index name = record { name = name; columns = []; cardinality = []; data_columns = [] }

add_index : Table → List ℕ → Table
add_index ta name = record ta { indexes = ta.indexes ++ new_index name ∷ [] }

-- A cardinality of 0 becomes the column's place.
add_index_column : Index → List ℕ → ℕ → Index
add_index_column idx name cardinality = record idx {
  columns = idx.columns ++ name ∷ [];
  cardinality =
      idx.cardinality
      ++ (if cardinality == 0 then length idx.cardinality + 1 else cardinality) ∷ [];
}
