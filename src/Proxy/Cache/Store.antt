-- ===== src/Proxy/Cache/Store.antt =====
-- proxy/conn_query.go: what `handleSelect` and `invalidCache` do to the store of the row cache.
use cm.Common.{
  ℕ, ◌≡◌, refl, sym, ap, ◌∙◌, Answers, Answers-if, Answers-bind, Answers-ok, List, [], ◌∷◌, ◌++◌,
  length, Bool, true, false, not, ◌&&◌, none, some, ltb, =?_iff, ◌==◌, if◌then◌else◌, arith, Result,
  ok, err, panic, ◌>>=◌, ok-injective, index_at, map,
}
use cm.Vt.Planbuilder.{ExecPlan}
use cm.Vt.Tabletserver.RowCache.{Memcache, Content, is_none, rc_deleted, max_key_len}
use cm.Vt.Tabletserver.RowCache as RowCache
use cm.Vt.Tabletserver.RowCache.Laws.{content-delete}
use cm.Sqlparser.Ast.{Select}
use cm.Mysql.Resultset.{Floats, Resultset}
use cm.Proxy.Rows.{apply_filter, get_field_names, build_resultset}
use cm.Proxy.Cache.Keys.{pk_values_to_strings}
use cm.Proxy.Cache.Fill.{
  TableInfo, Sent, Execute, values_of, is_in, is_cached, row_sql, first_result,
  fill_cache_and_return_results, cache_row, count_rows,
}
use cm.Proxy.Cache.Handlers.{
  Sorter, invalid_cache, invalidate, handle_select, handle_exec, uses_cache, with_store, pass_exec,
  is_pk_in,
}

if_cached :
    {A : Type 0} (P : A → Type 0) (b : Bool) (ti : TableInfo) (x : Result A)
    (f : TableInfo → Result A)
    → Answers P x
    → Answers P (f ti)
    → Answers P (elim (if b then some ti else none) [ none ↦ x | some t ↦ f t ])
if_cached P true ti x f h k = k
if_cached P false ti x f h k = h

single :
    (keys : List (List ℕ)) (key : List ℕ)
    → length keys ≡ 1
    → index_at keys 0 ≡ ok key
    → keys ≡ (key ∷ [])
single [] key h k = cc
single (k' ∷ []) key h k = ap (λ x. x ∷ []) (ok-injective k)
single (k' ∷ (k'' ∷ ks)) key h k = absurd (cc h)

module _ (m : Memcache) (ti : TableInfo) where
  open m use {Store, content}

  -- Invalidating keys marks them all, but for those that are too long to be stored.
  pub content-invalid_cache :
      (keys : List (List ℕ)) (j : List ℕ) (s : Store)
      → content (invalid_cache m ti keys s) (ti.prefix ++ j) ≡ (
          if is_in j keys && not (ltb max_key_len (length j))
          then some (rc_deleted, [])
          else content s (ti.prefix ++ j))
  unfolding invalid_cache is_in
  content-invalid_cache [] j s = refl
  content-invalid_cache (k ∷ ks) j s = ground (
    arith,
    content-invalid_cache ks j (RowCache.delete m ti.prefix k s),
    content-delete m ti.prefix k j s,
    =?_iff k j,
    λ (e : k ≡ j). ap (λ (l : List ℕ). length l) e,
  )

  -- The keys of a plan.
  abbrev pub keys_of : ExecPlan → Result (List (List ℕ))
  keys_of plan = pk_values_to_strings ti.table.pk_columns (values_of plan.pk_values)

  -- The store that `invalidate` leaves.
  pub invalidate-Answers :
      (plan : ExecPlan) (s : Store)
      → Answers
          (λ s'.
            (keys : List (List ℕ)) × (keys_of plan ≡ ok keys) × (invalid_cache m ti keys s ≡ s'))
          (invalidate m plan ti s)
  unfolding invalidate
  invalidate-Answers plan s =
      Answers-if _ (not (length ti.table.pk_columns == length (values_of plan.pk_values))) _ _
        (λ _. tt)
        (λ _.
          Answers-if _ (length (values_of plan.pk_values) == 0) _ _ (λ _. tt)
            (λ _.
              Answers-bind _ (keys_of plan) _
                (λ pks e. Answers-bind _ (index_at pks 0) _ (λ _ _. (pks, e, refl)))))

  -- A statement that the servers are asked: its keys are invalid first.
  pub handle_exec-asked :
      (execute : Execute) (sql : List ℕ) (plan : ExecPlan) (keys : List (List ℕ)) (s : Store)
      {s' : Store}
      → is_cached ti ≡ true
      → keys_of plan ≡ ok keys
      → invalidate m plan ti s ≡ ok s'
      → handle_exec m execute sql false (ok (plan, some ti)) s
        ≡ (pass_exec execute sql, invalid_cache m ti keys s)
  unfolding handle_exec
  handle_exec-asked execute sql plan keys s cached pks inv =
      let (ks, same, e) = Answers-ok _ _ _ (invalidate-Answers plan s) inv in
      ap (λ b. if b then asked (invalidate m plan ti s) else (pass_exec execute sql, s)) cached
      ∙ ap asked (
          inv
          ∙ ap (λ s''. ok s'')
              (sym e ∙ ap (λ k. invalid_cache m ti k s) (ok-injective (sym same ∙ pks))))
    where
      asked : Result Store → Result Sent × Store
      asked panic = (panic, s)
      asked (err e) = (err e, s)
      asked (ok s') = (pass_exec execute sql, s')

module _ (m : Memcache) (F : Floats) (ti : TableInfo) (execute : Execute) (plan : ExecPlan) where
  open m use {Store, content}

  -- The one row that the servers answer for the one key of a plan.
  pub record OneRow (key row : List ℕ) : Type 0 where
    pub sql : List ℕ
    pub status : ℕ
    pub result : Resultset
    pub keyed : keys_of m ti plan ≡ ok (key ∷ [])
    pub asked : row_sql ti.table (values_of plan.pk_values) ≡ ok sql
    pub answered : (execute sql >>= first_result) ≡ ok (status, result)
    pub alone : length result.values ≡ 1
    pub taken : index_at result.row_datas 0 ≡ ok row

  -- What a select does to the store: nothing, or it adds that row.
  pub data Filled (s s' : Store) : Type 0 where
    kept : s' ≡ s → Filled s s'
    filled :
        (key row : List ℕ)
        → OneRow key row
        → s' ≡ RowCache.set m ti.prefix key row 0 s
        → Filled s s'

  abbrev pub Leaves : Store → Sent × Store → Type 0
  Leaves s p = Filled s (p.1)

  with_store-Leaves : (s : Store) (r : Result Sent) → Answers (Leaves s) (with_store s r)
  with_store-Leaves s r = Answers-bind _ r _ (λ _ _. kept refl)

  cache_row-Filled :
      (sql : List ℕ) (status : ℕ) (keys : List (List ℕ)) (r : Resultset) (s : Store)
      → keys_of m ti plan ≡ ok keys
      → row_sql ti.table (values_of plan.pk_values) ≡ ok sql
      → (execute sql >>= first_result) ≡ ok (status, r)
      → Answers (Filled s) (cache_row m F ti (values_of plan.pk_values) keys r s)
  unfolding cache_row
  cache_row-Filled sql status keys r s pks made asked =
      Answers-if _ (length r.values == 1 && (length keys == 1 && is_cached ti)) _ _
        (λ one. Answers-bind _ (keys_of m ti plan) _ (λ again e.
          Answers-bind _ (index_at again 0) _ (λ key k.
            Answers-bind _ (index_at r.row_datas 0) _ (λ row t.
              filled key row
                (record {
                  sql = sql;
                  status = status;
                  result = r;
                  keyed =
                      pks
                      ∙ ap (λ l. ok l)
                          (single keys key (ground arith)
                            (ap (λ l. index_at l 0) (ok-injective (sym pks ∙ e)) ∙ k));
                  asked = made;
                  answered = asked;
                  alone = ground arith;
                  taken = t;
                })
                refl))))
        (λ _. kept refl)

  fill-Leaves :
      (status : ℕ) (keys : List (List ℕ)) (s : Store)
      → keys_of m ti plan ≡ ok keys
      → Answers (Leaves s) (fill_cache_and_return_results m F execute plan ti status keys s)
  unfolding fill_cache_and_return_results
  fill-Leaves status keys s pks =
      Answers-bind _ (row_sql ti.table (values_of plan.pk_values)) _ (λ sql made.
        Answers-bind _ (execute sql) _ (λ answer asked.
          Answers-bind _ (first_result answer) _ (λ found first.
            Answers-if _ (length found.1.values == 0) _ _ (λ _. kept refl)
              (λ _. Answers-bind _ (index_at found.1.values 0) _ (λ _ _.
                Answers-bind _ (apply_filter (map some (values_of plan.column_numbers)) _) _ (λ _ _.
                  Answers-bind _ (get_field_names (values_of plan.column_numbers) ti.table.columns)
                    _
                    (λ _ _. Answers-bind _ (build_resultset F _ _) _ (λ _ _.
                      Answers-bind _ (cache_row m F ti (values_of plan.pk_values) keys found.1 s) _
                        (λ s' c.
                          Answers-ok _ _ s'
                            (cache_row-Filled sql (found.0) keys (found.1) s pks made
                              (ap (λ x. x >>= first_result) asked ∙ first))
                            c)))))))))

  pub handle_select-Leaves :
      (sorter : Sorter) (status : ℕ) (stmt : Select) (sql : List ℕ) (s : Store)
      → Answers (Leaves s) (handle_select m F execute sorter status stmt sql plan (some ti) s)
  unfolding handle_select uses_cache
  handle_select-Leaves sorter status stmt sql s =
      if_cached (Leaves s) (ltb 0 (length (values_of plan.pk_values)) && is_cached ti) ti _ _
        (with_store-Leaves s _)
        (Answers-bind _ (keys_of m ti plan) _ (λ pks e.
          Answers-bind _ (RowCache.get m F ti.prefix pks ti.table.columns s) _ (λ items _.
            Answers-if _ (count_rows [] items == length pks) _ _ (λ _. with_store-Leaves s _)
              (λ _.
                Answers-if _ (is_pk_in plan.plan_id && length pks == 1) _ _
                  (λ _. fill-Leaves status pks s e) (λ _. with_store-Leaves s _)))))
