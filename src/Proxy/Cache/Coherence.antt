-- ===== src/Proxy/Cache/Coherence.antt =====
-- proxy/conn_query.go and vt/tabletserver/rowcache.go: the row cache of a table beside the rows that
-- the servers hold, while statements run one after the other on each key.
use cm.Common.{
  ℕ, zero, suc, ◌≡◌, refl, sym, ap, ◌∙◌, Answers-ok, List, [], ◌++◌, length, Bool, true, false, not,
  ◌&&◌, Option, none, some, ltb, ◌=?◌, =?_iff, if◌then◌else◌, arith, inl, inr, ◌⊎◌, Result, ok,
  subst,
}
use cm.Vt.Planbuilder.{ExecPlan}
use cm.Vt.Tabletserver.RowCache.{Memcache, Content, is_none, rc_deleted, max_key_len}
use cm.Vt.Tabletserver.RowCache.Laws.{content-add_row}
use cm.Sqlparser.Ast.{Select}
use cm.Mysql.Resultset.{Floats}
use cm.Proxy.Cache.Fill.{TableInfo, Sent, Execute, is_in, is_cached}
use cm.Proxy.Cache.Handlers.{Sorter, invalid_cache, invalidate, handle_select, handle_exec}
use cm.Proxy.Cache.Store.{
  OneRow, Filled, kept, filled, keys_of, handle_select-Leaves, content-invalid_cache,
  handle_exec-asked,
}

module _ (m : Memcache) (F : Floats) (ti : TableInfo) where
  open m use {Store, content}

  -- The cache, and the packet of the row that the servers hold for a key, if there is one. A row is
  -- taken by its key.
  pub record World : Type 0 where
    pub store : Store
    pub rows : List ℕ → Option (List ℕ)

  -- An item is the servers' row, but for the one flag that marks that there is none.
  abbrev pub Agrees : List ℕ → Option Content → Option (List ℕ) → Type 0
  Agrees key none row = Unit {0}
  Agrees key (some (zero, b)) row = (row ≡ some b) × (ltb max_key_len (length key) ≡ false)
  Agrees key (some (suc zero, b)) row = Unit {0}
  Agrees key (some (suc (suc f), b)) row = (row ≡ some b) × (ltb max_key_len (length key) ≡ false)

  abbrev pub Coherent : World → Type 0
  Coherent w = (key : List ℕ) → Agrees key (content w.store (ti.prefix ++ key)) (w.rows key)

  -- What a row of the servers is: what they answer for its key alone.
  abbrev pub Truthful : Execute → ExecPlan → (List ℕ → Option (List ℕ)) → Type 0
  Truthful execute plan held =
      (key row : List ℕ) → OneRow m F ti execute plan key row → held key ≡ some row

  -- Only rows of these keys change.
  abbrev pub Changes :
      List (List ℕ) → (List ℕ → Option (List ℕ)) → (List ℕ → Option (List ℕ)) → Type 0
  Changes keys held held' = (key : List ℕ) → is_in key keys ≡ false → held' key ≡ held key

  -- Only rows that there were none of appear.
  abbrev pub Adds : (List ℕ → Option (List ℕ)) → (List ℕ → Option (List ℕ)) → Type 0
  Adds held held' = (key row : List ℕ) → held key ≡ some row → held' key ≡ some row

  -- Memcache drops some of its items.
  abbrev pub Forgets : Store → Store → Type 0
  Forgets s s' =
      (key : List ℕ)
      → (content s' (ti.prefix ++ key) ≡ none)
        ⊎ (content s' (ti.prefix ++ key) ≡ content s (ti.prefix ++ key))

  -- One step: a select of the table, a statement that changes rows of its plan's keys and is asked of the
  -- servers once the keys are invalid, one that only adds rows and leaves the cache, and memcache's own.
  pub data Step : World → World → Type 0 where
    selected :
        (execute : Execute) (sorter : Sorter) (status : ℕ) (stmt : Select) (sql : List ℕ)
        (plan : ExecPlan) (sent : Sent) {s s' : Store} {held : List ℕ → Option (List ℕ)}
        → Truthful execute plan held
        → handle_select m F execute sorter status stmt sql plan (some ti) s ≡ ok (sent, s')
        → Step (record { store = s; rows = held }) (record { store = s'; rows = held })
    executed :
        (execute : Execute) (sql : List ℕ) (plan : ExecPlan) (keys : List (List ℕ))
        (answer : Result Sent) {s s' invalid : Store} {held held' : List ℕ → Option (List ℕ)}
        → is_cached ti ≡ true
        → keys_of m ti plan ≡ ok keys
        → handle_exec m execute sql false (ok (plan, some ti)) s ≡ (answer, s')
        → invalidate m plan ti s ≡ ok invalid
        → Changes keys held held'
        → Step (record { store = s; rows = held }) (record { store = s'; rows = held' })
    added :
        {s : Store} {held held' : List ℕ → Option (List ℕ)}
        → Adds held held'
        → Step (record { store = s; rows = held }) (record { store = s; rows = held' })
    forgotten :
        {s s' : Store} {held : List ℕ → Option (List ℕ)}
        → Forgets s s'
        → Step (record { store = s; rows = held }) (record { store = s'; rows = held })

  pub data Reachable (w : World) : World → Type 0 where
    start : Reachable w w
    after : {v u : World} → Reachable w v → Step v u → Reachable w u

  Agrees-moves :
      (key : List ℕ) (c c' : Option Content) (r r' : Option (List ℕ))
      → c' ≡ c
      → r' ≡ r
      → Agrees key c r
      → Agrees key c' r'
  Agrees-moves key c c' r r' e f h =
      subst (λ x. Agrees key x r') (sym e) (subst (λ x. Agrees key c x) (sym f) h)

  Agrees-if :
      (j : List ℕ) (b : Bool) (x y : Option Content) (r : Option (List ℕ))
      → (b ≡ true → Agrees j x r)
      → (b ≡ false → Agrees j y r)
      → Agrees j (if b then x else y) r
  Agrees-if j true x y r h k = h refl
  Agrees-if j false x y r h k = k refl

  Agrees-filled :
      (j key row : List ℕ) (c : Option Content) (held : List ℕ → Option (List ℕ))
      (c' : Option Content)
      → c' ≡ (
          if (key =? j) && (is_none c && not (ltb max_key_len (length key)))
          then some (0, row)
          else c)
      → held key ≡ some row
      → Agrees j c (held j)
      → Agrees j c' (held j)
  Agrees-filled j key row c held c' e h a =
      subst (λ x. Agrees j x (held j)) (sym e)
        (Agrees-if j (key =? j && (is_none c && not (ltb max_key_len (length key)))) _ _ _
          (λ y.
            let same : key ≡ j = ground (arith, =?_iff key j) in
            (
              ap held (sym same) ∙ h,
              ap (λ k. ltb max_key_len (length k)) (sym same) ∙ ground arith,
            ))
          (λ _. a))

  Agrees-adds :
      (j : List ℕ) (c : Option Content) (r r' : Option (List ℕ))
      → ((row : List ℕ) → r ≡ some row → r' ≡ some row)
      → Agrees j c r
      → Agrees j c r'
  Agrees-adds j none r r' h a = tt
  Agrees-adds j (some (zero, b)) r r' h (a, l) = (h b a, l)
  Agrees-adds j (some (suc zero, b)) r r' h a = tt
  Agrees-adds j (some (suc (suc f), b)) r r' h (a, l) = (h b a, l)

  Agrees-invalid :
      (j : List ℕ) (i : Bool) (c c' : Option Content) (r r' : Option (List ℕ))
      → c' ≡ (if i && not (ltb max_key_len (length j)) then some (rc_deleted, []) else c)
      → (i ≡ false → r' ≡ r)
      → Agrees j c r
      → Agrees j c' r'
  Agrees-invalid j false c c' r r' e h a = Agrees-moves j c c' r r' e (h refl) a
  Agrees-invalid j true none c' r r' e h a =
      subst (λ x. Agrees j x r') (sym e)
        (Agrees-if j (not (ltb max_key_len (length j))) _ _ _ (λ _. tt) (λ _. tt))
  Agrees-invalid j true (some (zero, b)) c' r r' e h a =
      subst (λ x. Agrees j x r')
        (sym (e ∙ ap (λ l. if not l then some (rc_deleted, []) else some (0, b)) (a.1))) tt
  Agrees-invalid j true (some (suc zero, b)) c' r r' e h a =
      subst (λ x. Agrees j x r') (sym e)
        (Agrees-if j (not (ltb max_key_len (length j))) _ _ _ (λ _. tt) (λ _. tt))
  Agrees-invalid j true (some (suc (suc f), b)) c' r r' e h a =
      subst (λ x. Agrees j x r')
        (sym (e ∙ ap (λ l. if not l then some (rc_deleted, []) else some (suc (suc f), b)) (a.1)))
        tt

  Filled-Coherent :
      (execute : Execute) (plan : ExecPlan) {s s' : Store} {held : List ℕ → Option (List ℕ)}
      → Truthful execute plan held
      → Filled m F ti execute plan s s'
      → Coherent (record { store = s; rows = held })
      → Coherent (record { store = s'; rows = held })
  Filled-Coherent execute plan t (kept e) c j =
      Agrees-moves j _ _ _ _ (ap (λ x. content x (ti.prefix ++ j)) e) refl (c j)
  Filled-Coherent execute plan {held = held} t (filled key row one e) c j =
      Agrees-filled j key row (content _ (ti.prefix ++ j)) held _
        (ap (λ x. content x (ti.prefix ++ j)) e ∙ content-add_row m ti.prefix key j row _)
        (t key row one) (c j)

  executed-Coherent :
      (keys : List (List ℕ)) (s : Store) {held held' : List ℕ → Option (List ℕ)}
      → Changes keys held held'
      → Coherent (record { store = s; rows = held })
      → Coherent (record { store = invalid_cache m ti keys s; rows = held' })
  executed-Coherent keys s ch c j =
      Agrees-invalid j (is_in j keys) _ _ _ _ (content-invalid_cache m ti keys j s) (ch j) (c j)

  pub Step-Coherent : {w v : World} → Step w v → Coherent w → Coherent v
  Step-Coherent (selected execute sorter status stmt sql plan sent t h) c j =
      Filled-Coherent execute plan t
        (Answers-ok _ _ (sent, _)
          (handle_select-Leaves m F ti execute plan sorter status stmt sql _) h)
        c j
  Step-Coherent (executed execute sql plan keys answer cached pks h inv ch) c j =
      Agrees-moves j _ _ _ _
        (ap (λ p. content (p.1) (ti.prefix ++ j))
          (sym h ∙ handle_exec-asked m ti execute sql plan keys _ cached pks inv))
        refl (executed-Coherent keys _ ch c j)
  Step-Coherent (added adds) c j = Agrees-adds j _ _ _ (adds j) (c j)
  Step-Coherent (forgotten {held = held} f) c j = elim (f j) [
    | inl e ↦ subst (λ x. Agrees j x (held j)) (sym e) tt
    | inr e ↦ Agrees-moves j _ _ _ _ e refl (c j)
  ]

  -- The cache never holds another row than the servers: each row in it is the one that they hold for its
  -- key, after any number of selects, of statements that change rows of their plans' keys, of statements
  -- that add rows and of items that memcache drops, where it was so before.
  pub Reachable-Coherent : {w v : World} → Reachable w v → Coherent w → Coherent v
  Reachable-Coherent start c = c
  Reachable-Coherent (after r s) c = Step-Coherent s (Reachable-Coherent r c)
