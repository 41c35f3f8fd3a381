-- ===== src/Proxy/Cache/Fill.antt =====
-- proxy/conn_query.go: the rows that the cache answers, and those that it takes: `writeCacheResults` and
-- `fillCacheAndReturnResults`.
use cm.Common.{
  ℕ, suc, List, [], ◌∷◌, length, Bool, true, false, ◌&&◌, ◌||◌, Option, none, some, ◌==◌, ◌=?◌,
  if◌then◌else◌, bad_conn, Result, ok, err, panic, ◌>>=◌, index_at, map,
}
use cm.Sqlparser.Analyzer.{PlanValue}
use cm.Vt.Schema.{Table, cache_none, cache_rw, cache_w}
use cm.Vt.Planbuilder.{ExecPlan}
use cm.Vt.Tabletserver.RowCache.{Memcache, RcResult, is_none}
use cm.Vt.Tabletserver.RowCache as RowCache
use cm.Mysql.Resultset.{Floats, RowValue, Resultset}
use cm.Mysql.Client.{QueryResult}
use cm.Proxy.Cache.Keys.{pk_values_to_strings, generate_select_sql}
use cm.Proxy.Rows.{apply_filter, get_field_names, build_resultset}

-- A table and the prefix of its keys in memcache.
pub record TableInfo : Type 0 where
  pub table : Table
  pub prefix : List ℕ

-- What a statement sends: a set of results under a status, or the counts of an OK packet.
pub data Sent : Type 0 where
  rows : ℕ → Resultset → Sent
  counts : ℕ → ℕ → ℕ → Sent

abbrev pub is_cached : TableInfo → Bool
is_cached ti = elim ti.table.cache_type [ cache_none ↦ false | cache_rw ↦ true | cache_w ↦ true ]

-- A nil slice has no elements.
abbrev pub values_of {ℓ} : {A : Type ℓ} → Option (List A) → List A
values_of none = []
values_of (some vs) = vs

-- `items[key]`; in a map a later entry of a key counts, and entries of one key are equal.
unfoldable pub item_of : List ℕ → List (List ℕ × RcResult) → Option RcResult
item_of key [] = none
item_of key ((k, r) ∷ rs) = if k =? key then some r else item_of key rs

unfoldable pub is_in : List ℕ → List (List ℕ) → Bool
is_in key [] = false
is_in key (k ∷ ks) = k =? key || is_in key ks

-- How many of the entries of the map have a row.
unfoldable pub count_rows : List (List ℕ) → List (List ℕ × RcResult) → ℕ
count_rows seen [] = 0
count_rows seen ((k, r) ∷ rs) =
    let rest = count_rows (k ∷ seen) rs in if is_in k seen || is_none r.row then rest else suc rest

-- The rows of the keys, filtered: every key has one where the code comes here.
cached_rows : List (Option ℕ) → List (List ℕ) → List (List ℕ × RcResult) → Result (List RowValue)
cached_rows columns [] items = ok []
cached_rows columns (key ∷ keys) items = elim (item_of key items) [
  | none ↦ panic
  | some r ↦ apply_filter columns (values_of r.row) >>= λ row.
      cached_rows columns keys items >>= λ rest. ok (row ∷ rest)
]

pub write_cache_results :
    Floats → ExecPlan → TableInfo → ℕ → List (List ℕ) → List (List ℕ × RcResult) → Result Sent
write_cache_results F plan ti status keys items = do
  let columns = values_of plan.column_numbers
  values ← cached_rows (map some columns) keys items
  names ← get_field_names columns ti.table.columns
  r ← build_resultset F names values
  ok (rows status r)

-- What the shards answer to a query: no connection, or a result for each shard.
abbrev pub Execute : Type 0
Execute = List ℕ → Result (Option (List QueryResult))

-- The error of `generateSelectSql` is dropped, and its empty text is sent.
unfoldable pub row_sql : Table → List PlanValue → Result (List ℕ)
row_sql ta vs = elim (generate_select_sql ta vs) [ ok sql ↦ ok sql | err e ↦ ok [] | panic ↦ panic ]

-- The set of results of the first shard; the other shards are not asked for theirs.
unfoldable pub first_result : Option (List QueryResult) → Result (ℕ × Resultset)
first_result none = err bad_conn
first_result (some []) = panic
first_result (some (v ∷ vs)) = elim v.resultset [ none ↦ panic | some r ↦ ok (v.status, r) ]

module _ (m : Memcache) (F : Floats) where
  open m use {Store}

  -- The row is cached where it is the only one, for the one key.
  unfoldable pub cache_row :
      TableInfo → List PlanValue → List (List ℕ) → Resultset → Store → Result Store
  cache_row ti vs keys r s =
      if length r.values == 1 && (length keys == 1 && is_cached ti)
      then (do
        pks ← pk_values_to_strings ti.table.pk_columns vs
        key ← index_at pks 0
        row ← index_at r.row_datas 0
        ok (RowCache.set m ti.prefix key row 0 s))
      else ok s

  unfoldable pub fill_cache_and_return_results :
      Execute → ExecPlan → TableInfo → ℕ → List (List ℕ) → Store → Result (Sent × Store)
  fill_cache_and_return_results execute plan ti status keys s = do
    let vs = values_of plan.pk_values
    let columns = values_of plan.column_numbers
    sql ← row_sql ti.table vs
    answer ← execute sql
    (status', result) ← first_result answer
    if length result.values == 0 then ok (rows status' result, s) else (do
      row ← index_at result.values 0
      filtered ← apply_filter (map some columns) row
      names ← get_field_names columns ti.table.columns
      r ← build_resultset F names (filtered ∷ [])
      s' ← cache_row ti vs keys result s
      ok (rows status r, s'))
