-- ===== src/Proxy/Cache/Handlers.antt =====
-- proxy/conn_query.go: `handleSelect` and `handleExec`. An answer is what the statement sends, and the
-- store of the cache that it leaves. The lock on the first key is held over the calls that it guards, so
-- each of these handlers is one step of its key.
use cm.Common.{
  ℕ, List, [], ◌∷◌, length, Bool, true, false, not, ◌&&◌, Option, none, some, codes, ltb, ◌==◌,
  if◌then◌else◌, bad_conn, table_not_found, column_count, no_rows, Result, ok, err, panic, ◌>>=◌,
  index_at, has_substring, to_lower,
}
use cm.Sqlparser.Ast.{Statement, Select, OrderBy, no_orders, orders}
use cm.Sqlparser.Format.{format_val}
use cm.Sqlparser.Tracked.{query_of}
use cm.Vt.Schema.{Table, cache_none}
use cm.Vt.Planbuilder.{ExecPlan, PlanType, plan_pk_in}
use cm.Vt.Planbuilder.Plan.{analyze_sql}
use cm.Vt.Tabletserver.RowCache.{Memcache, RcResult, is_none}
use cm.Vt.Tabletserver.RowCache as RowCache
use cm.Mysql.Resultset.{Floats, Resultset}
use cm.Mysql.Resultset.Sort.{SortKey, with_columns}
use cm.Proxy.Cache.Keys.{pk_values_to_strings}
use cm.Proxy.Rows.Empty.{new_empty_resultset}
use cm.Proxy.Rows.Merge.{merge_select_result, merge_exec_result}
use cm.Proxy.Cache.Fill.{
  TableInfo, Sent, rows, counts, is_cached, values_of, count_rows, write_cache_results, Execute,
  fill_cache_and_return_results,
}

-- What `getTableSchema` answers of a table that the cache's schema does not know.
system_table : List ℕ → Option Table
system_table name =
    if has_substring (to_lower name) (codes "information_schema")
    then some (record {
      name = name;
      columns = [];
      indexes = [];
      pk_columns = [];
      cache_type = cache_none;
    })
    else none

-- The tables of the session's database, where its schema is known.
abbrev Tables : Type 0
Tables = Option (List ℕ → Option TableInfo)

get_table_info : Tables → List ℕ → Option TableInfo
get_table_info none name = none
get_table_info (some tables) name = tables name

get_table_schema : Tables → List ℕ → Option Table
get_table_schema none name = none
get_table_schema (some tables) name = elim (tables name) [
  | none ↦ system_table name
  | some ti ↦ some ti.table
]

get_plan_and_table_info :
    (List ℕ → Option (List ℕ)) → Tables → Statement → Result (ExecPlan × Option TableInfo)
get_plan_and_table_info parse_float tables stmt = do
  plan ← analyze_sql parse_float stmt (get_table_schema tables)
  ok (plan, get_table_info tables plan.table_name)

unfoldable pub is_pk_in : PlanType → Bool
is_pk_in plan_pk_in = true
is_pk_in p = false

-- `ti != nil && len(plan.PKValues) > 0 && ti.CacheType != schema.CACHE_NONE`
unfoldable pub uses_cache : ExecPlan → Option TableInfo → Option TableInfo
uses_cache plan none = none
uses_cache plan (some ti) =
    if ltb 0 (length (values_of plan.pk_values)) && is_cached ti then some ti else none

-- `sort.Sort` is Go's: it sorts the rows of a result by keys.
abbrev pub Sorter : Type 0
Sorter = List SortKey → Resultset → Resultset

sort_keys : OrderBy → List SortKey
sort_keys no_orders = []
sort_keys (orders e direction os) =
    record { name = (query_of (format_val false e)).query; direction = direction; column = 0 }
    ∷ sort_keys os

-- A key that is no field's name leaves the rows as they are, as the error is dropped.
sort_select_result : Sorter → OrderBy → Resultset → Resultset
sort_select_result sorter no_orders r = r
sort_select_result sorter (orders e d os) r =
    elim (with_columns r.field_names (sort_keys (orders e d os))) [
      | ok keys ↦ sorter keys r
      | err _ ↦ r
      | panic ↦ r
    ]

-- Past the cache: the statement goes to the shards as it is.
pub pass_select : Execute → Sorter → ℕ → Select → List ℕ → Result Sent
pass_select execute sorter status stmt sql = do
  answer ← execute sql
  elim answer [
    | none ↦ ok (rows status (new_empty_resultset stmt.select_exprs))
    | some rs ↦ merge_select_result status rs >>= λ merged.
        let (status', r) = merged in ok (rows status' (sort_select_result sorter stmt.order_by r))
  ]

unfoldable pub pass_exec : Execute → List ℕ → Result Sent
pass_exec execute sql = do
  answer ← execute sql
  elim answer [
    | none ↦ err bad_conn
    | some rs ↦ let c = merge_exec_result rs in ok (counts c.status c.affected_rows c.insert_id)
  ]

-- An answer next to a store that is left as it was.
abbrev pub with_store {ℓ} : {S : Type ℓ} → S → Result Sent → Result (Sent × S)
with_store s r = r >>= λ sent. ok (sent, s)

module _ (m : Memcache) (F : Floats) (execute : Execute) where
  open m use {Store}

  unfoldable pub handle_select :
      Sorter → ℕ → Select → List ℕ → ExecPlan → Option TableInfo → Store → Result (Sent × Store)
  handle_select sorter status stmt sql plan ti s = elim (uses_cache plan ti) [
    | none ↦ with_store s (pass_select execute sorter status stmt sql)
    | some t ↦ pk_values_to_strings t.table.pk_columns (values_of plan.pk_values) >>= λ pks.
        RowCache.get m F t.prefix pks t.table.columns s >>= λ items.
        if count_rows [] items == length pks
        then with_store s (write_cache_results F plan t status pks items)
        else if is_pk_in plan.plan_id && length pks == 1
        then fill_cache_and_return_results m F execute plan t status pks s
        else with_store s (pass_select execute sorter status stmt sql)
  ]

module _ (m : Memcache) where
  open m use {Store}

  unfoldable pub invalid_cache : TableInfo → List (List ℕ) → Store → Store
  invalid_cache ti [] s = s
  invalid_cache ti (key ∷ keys) s = invalid_cache ti keys (RowCache.delete m ti.prefix key s)

  -- The store that the statement finds once the keys of its plan are made invalid.
  unfoldable pub invalidate : ExecPlan → TableInfo → Store → Result Store
  invalidate plan ti s =
      let vs = values_of plan.pk_values in
      if not (length ti.table.pk_columns == length vs)
      then err column_count
      else if length vs == 0
      then err no_rows
      else (do
        pks ← pk_values_to_strings ti.table.pk_columns vs
        key ← index_at pks 0
        ok (invalid_cache ti pks s))

  -- The answer, and the store: it is changed before the shards are asked.
  unfoldable pub handle_exec :
      Execute → List ℕ → Bool → Result (ExecPlan × Option TableInfo) → Store → Result Sent × Store
  handle_exec execute sql true planned s = (pass_exec execute sql, s)
  handle_exec execute sql false panic s = (panic, s)
  handle_exec execute sql false (err e) s = (err e, s)
  handle_exec execute sql false (ok (plan, none)) s = (err table_not_found, s)
  handle_exec execute sql false (ok (plan, some ti)) s =
      if is_cached ti
      then elim (invalidate plan ti s) [
        | panic ↦ (panic, s)
        | err e ↦ (err e, s)
        | ok s' ↦ (pass_exec execute sql, s')
      ]
      else (pass_exec execute sql, s)
