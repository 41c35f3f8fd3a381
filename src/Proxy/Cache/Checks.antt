-- ===== src/Proxy/Cache/Checks.antt =====
-- A table of one row behind a cache that is a function, and the theorems there.
use cm.Common.{
  ℕ, ◌≡◌, refl, sym, ap, ◌∙◌, arith, List, [], ◌∷◌, index_at, map, slice_from, slice, ok-injective,
  false, not, ◌&&◌, Option, none, some, codes, ◌=?◌, ◌==◌, if◌then◌else◌, ok, panic, ◌>>=◌,
}
use cm.Sqlparser.Query.{numeric, string}
use cm.Sqlparser.Analyzer.{digits_in, digit_val, sql_value, value_list, values, no_values}
use cm.Sqlparser.Ast.{Select, no_selects, no_tables, nil_where, no_vals, no_orders, nil_limit}
use cm.Vt.Schema.{TableColumn, cache_rw}
use cm.Vt.Planbuilder.{ExecPlan, new_plan, plan_pk_in}
use cm.Vt.Tabletserver.RowCache.{
  RcResult, get, decode_item, decode_row, Memcache, Content, is_none, rc_deleted,
}
use cm.Vt.Tabletserver.RowCache as RowCache
use cm.Mysql.Resultset.{Floats, Resultset, int64}
use cm.Proxy.Cache.Store.{keys_of}
use cm.Proxy.Rows.{
  apply_filter, get_field_names, build_resultset, encode_first, encode_rows, encode_cell, flags_of,
}
use cm.Mysql.Resultset.Decimal.{parse_int, parse_uint, as_positive}
use cm.Mysql.Charset.Names.{collation_id}
use cm.Sqlparser.Query.{append_int, append_uint, decimal_loop, encode_sql_value}
use cm.Mysql.LenEnc.{
  length_enoded_string, length_encoded_int, put_length_encoded_string, put_length_encoded_int,
}
use cm.Mysql.Resultset.{
  parse_text, parse_text_loop, has_unsigned_flag, text_value, raw, raw_as, raw_integer, kind_of,
}
use cm.Proxy.Rows.{typed_field}
use cm.Proxy.Rows.Merge.{merge_exec_result, merge_counts, add_counts}
use cm.Proxy.Cache.Fill.{
  rows, counts, is_in, item_of, first_result, count_rows, fill_cache_and_return_results, row_sql,
  cache_row, TableInfo, Sent, Execute,
}
use cm.Proxy.Cache.Handlers.{
  invalidate, invalid_cache, pass_exec, is_pk_in, uses_cache, handle_select, handle_exec,
}
use cm.Proxy.Cache.Coherence.{
  Step-Coherent, World, Coherent, Step, start, after, selected, executed, Truthful,
  Reachable-Coherent,
}
use cm.Proxy.Cache.Served.{get-Coherent}
use cm.Proxy.Cache.Keys.{
  list_parts, generate_select_sql, pk_conditions, as_sql_value, keys_loop, parts_of, key_part,
  underscored, value_string, pk_values_to_strings,
}
use cm.Proxy.Cache.Keys.Unique.{pk_values_to_strings-injective}

abbrev Items : Type 0
Items = List ℕ → Option Content

abbrev memory : Memcache
memory = record {
  Store = Items;
  content = λ s j. s j;
  cas_of = λ s j. 0;
  set = λ k c s j. if k =? j then some c else s j;
  add = λ k c s j. if (k =? j) && is_none (s j) then some c else s j;
  cas = λ k c n s j. if (k =? j) && (not (is_none (s j)) && 0 == n) then some c else s j;
  content-set = λ k c s j. refl;
  content-add = λ k c s j. refl;
  content-cas = λ k c n s j. refl;
}

abbrev no_floats : Floats
no_floats = record {
  format = λ x. [];
  shortest = λ x. [];
  parse = λ s. panic;
  from_float32 = λ x. x;
  of_int = λ x. x;
  of_uint = λ x. x;
  to_uint = λ x. x;
  less = λ x y. false;
}

abbrev id_column : TableColumn
id_column = record {
  name = codes "id";
  sql_type = 3;
  is_auto = false;
  default_value = none;
  collation = codes "utf8_general_ci";
  is_unsigned = false;
}

abbrev got : List (List ℕ × RcResult)
got = (codes "7--", record { row = some (int64 7 ∷ []); cas = 0 }) ∷ []

abbrev people : TableInfo
people = record {
  table = record {
    name = codes "people";
    columns = id_column ∷ [];
    indexes = [];
    pk_columns = 0 ∷ [];
    cache_type = cache_rw;
  };
  prefix = codes "p.";
}

-- where id in (7)
abbrev plan_of_7 : ExecPlan
plan_of_7 = record (new_plan plan_pk_in) {
  table_name = codes "people";
  column_numbers = some (0 ∷ []);
  pk_values = some (sql_value (numeric (codes "7")) ∷ []);
}

abbrev row_7 : List ℕ
row_7 = 1 ∷ b'7' ∷ []

abbrev result_7 : Resultset
result_7 = record {
  fields = [];
  field_names = [];
  values = (int64 7 ∷ []) ∷ [];
  row_datas = row_7 ∷ [];
}

abbrev servers : Execute
servers sql =
    ok (
      some
        (record { status = 2; insert_id = 0; affected_rows = 0; resultset = some result_7 } ∷ []))

-- The servers' rows before and after a statement that removes the row.
abbrev held : List ℕ → Option (List ℕ)
held key = if codes "7--" =? key then some row_7 else none

abbrev removed : List ℕ → Option (List ℕ)
removed key = none

abbrev any_select : Select
any_select = record {
  comments = [];
  distinct = [];
  select_exprs = no_selects;
  from = no_tables;
  where_clause = nil_where;
  group_by = no_vals;
  having = nil_where;
  order_by = no_orders;
  limit = nil_limit;
  lock = [];
}

abbrev nothing_stored : Items
nothing_stored key = none

abbrev empty : World memory no_floats people
empty = record { store = nothing_stored; rows = held }

keys_of_7 : keys_of memory people plan_of_7 ≡ ok (codes "7--" ∷ [])
unfolding pk_values_to_strings keys_loop parts_of key_part value_string underscored
keys_of_7 = refl

answer_of : (sql : List ℕ) → (servers sql >>= first_result) ≡ ok (2, result_7)
unfolding first_result
answer_of sql = refl

held_7 : held (codes "7--") ≡ some row_7
unfolding ◌=?◌
held_7 = refl

only : {a b : List ℕ} → ok (a ∷ []) ≡ ok (b ∷ []) → a ≡ b
only h = cc

servers_tell : Truthful memory no_floats people servers plan_of_7 held
servers_tell key row one =
    let same : codes "7--" ≡ key = only (sym keys_of_7 ∙ one.keyed) in
    let told : (2, result_7) ≡ (one.status, one.result) =
      ok-injective (sym (answer_of one.sql) ∙ one.answered) in
    let taken : ok row_7 ≡ ok row = ap (λ p. index_at (p.1.row_datas) 0) told ∙ one.taken in
    ap held (sym same) ∙ held_7 ∙ ap (λ r. some r) (ok-injective taken)

abbrev cached_7 : Items
cached_7 = RowCache.set memory (codes "p.") (codes "7--") row_7 0 nothing_stored

abbrev sent_7 : Sent
sent_7 = rows 2 (record {
  fields = some (typed_field id_column (int64 7)) ∷ [];
  field_names = [];
  values = [];
  row_datas = row_7 ∷ [];
})

select_7 :
    handle_select memory no_floats servers
      (λ ks r. r)
      2
      any_select
      []
      plan_of_7
      (some people)
      nothing_stored
    ≡ ok (sent_7, cached_7)
unfolding handle_select uses_cache pk_values_to_strings keys_loop parts_of key_part value_string
    underscored RowCache.get RowCache.set count_rows is_pk_in fill_cache_and_return_results row_sql
    generate_select_sql pk_conditions as_sql_value encode_sql_value first_result apply_filter
    get_field_names build_resultset encode_first encode_rows encode_cell raw raw_as raw_integer
    kind_of cache_row put_length_encoded_string put_length_encoded_int append_int append_uint
    decimal_loop collation_id flags_of
select_7 = refl

abbrev full : World memory no_floats people
full = record { store = cached_7; rows = held }

selects : Step memory no_floats people empty full
selects = selected servers (λ ks r. r) 2 any_select [] plan_of_7 sent_7 servers_tell select_7

abbrev after_delete : Items
after_delete = RowCache.delete memory (codes "p.") (codes "7--") cached_7

delete_7 : invalidate memory plan_of_7 people cached_7 ≡ ok after_delete
unfolding invalidate pk_values_to_strings keys_loop parts_of key_part value_string underscored
    invalid_cache
delete_7 = refl

exec_7 :
    handle_exec memory servers [] false (ok (plan_of_7, some people)) cached_7
    ≡ (ok (counts 2 0 0), after_delete)
unfolding handle_exec invalidate pk_values_to_strings keys_loop parts_of key_part value_string
    underscored invalid_cache pass_exec merge_exec_result merge_counts add_counts
exec_7 = refl

no_others : (key : List ℕ) → is_in key (codes "7--" ∷ []) ≡ false → removed key ≡ held key
unfolding is_in
no_others key h = ground arith

abbrev emptied : World memory no_floats people
emptied = record { store = after_delete; rows = removed }

deletes : Step memory no_floats people full emptied
deletes =
    executed servers [] plan_of_7 (codes "7--" ∷ []) (ok (counts 2 0 0)) refl keys_of_7 exec_7
      delete_7 no_others

empty-Coherent : Coherent memory no_floats people empty
empty-Coherent key = tt

Reachable-Coherent_example : Coherent memory no_floats people emptied
Reachable-Coherent_example =
    Reachable-Coherent memory no_floats people (after (after start selects) deletes) empty-Coherent

full-Coherent : Coherent memory no_floats people full
full-Coherent = Step-Coherent memory no_floats people selects empty-Coherent

got_7 : get memory no_floats (codes "p.") (codes "7--" ∷ []) people.table.columns cached_7 ≡ ok got
unfolding get RowCache.set ◌=?◌ decode_item decode_row parse_text parse_text_loop slice_from
    length_enoded_string length_encoded_int has_unsigned_flag text_value kind_of slice parse_int
    parse_uint as_positive digits_in digit_val
got_7 = refl

found_7 : item_of (codes "7--") got ≡ some (record { row = some (int64 7 ∷ []); cas = 0 })
unfolding item_of ◌=?◌
found_7 = refl

get-Coherent_example :
    (b : List ℕ) × (held (codes "7--") ≡ some b)
    × (decode_row no_floats b people.table.columns ≡ ok (int64 7 ∷ []))
get-Coherent_example =
    get-Coherent memory no_floats people full (codes "7--" ∷ []) (codes "7--")
      {r = record { row = some (int64 7 ∷ []); cas = 0 }} full-Coherent got_7 found_7 refl

pk_values_to_strings-injective_example :
    ((key : List ℕ) × (pk_values_to_strings
          (0 ∷ 1 ∷ [])
          (sql_value (numeric (codes "7")) ∷ sql_value (string (codes "x")) ∷ [])
        ≡ ok (key ∷ [])))
    × (map value_string (numeric (codes "7") ∷ string (codes "x") ∷ [])
        ≡ map value_string (string (codes "7") ∷ string (codes "x") ∷ []))
pk_values_to_strings-injective_example =
    pk_values_to_strings-injective (0 ∷ 1 ∷ []) (numeric (codes "7") ∷ string (codes "x") ∷ [])
      (string (codes "7") ∷ string (codes "x") ∷ []) (omega arith) refl refl
      (unfold value_string in omega arith) (unfold value_string in omega arith)
      (unfold pk_values_to_strings keys_loop parts_of key_part value_string underscored in refl)

-- A space and an underscore make one key of two rows.
keys_collide :
    pk_values_to_strings (0 ∷ []) (sql_value (string (codes "a b")) ∷ [])
    ≡ pk_values_to_strings (0 ∷ []) (sql_value (string (codes "a_b")) ∷ [])
unfolding pk_values_to_strings keys_loop parts_of key_part value_string underscored
keys_collide = refl

-- A list of values is one key, which is no row's.
list_is_one_key :
    pk_values_to_strings (0 ∷ []) (
      value_list (
        values
          (sql_value (numeric (codes "7")))
          (values (sql_value (numeric (codes "8"))) no_values))
      ∷ [])
    ≡ ok (codes "7--8--" ∷ [])
unfolding pk_values_to_strings keys_loop parts_of list_parts key_part value_string underscored
list_is_one_key = refl
