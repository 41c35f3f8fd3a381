-- ===== src/Proxy/Cache/Served.antt =====
-- proxy/conn_query.go and vt/tabletserver/rowcache.go: the rows that the cache answers.
use cm.Common.{
  ℕ, zero, suc, ◌≡◌, refl, ap, ◌∙◌, subst, List, [], ◌∷◌, ◌++◌, length, Bool, true, false, Option,
  some, ltb, ◌==◌, ◌=?◌, =?_iff, if◌then◌else◌, arith, Result, ok, err, panic, Answers, Answers-if,
  Answers-bind, Answers-option, Answers-ok,
}
use cm.Mysql.Resultset.{Floats, RowValue}
use cm.Vt.Tabletserver.RowCache.{
  Memcache, Content, RcResult, decode_row, decode_item, max_key_len, rc_deleted, get,
}
use cm.Proxy.Cache.Fill.{TableInfo, item_of}
use cm.Proxy.Cache.Coherence.{World, Agrees, Coherent}

some_injective : {A : Type 0} {a b : A} → some a ≡ some b → a ≡ b
some_injective h = cc

module _ (m : Memcache) (F : Floats) (ti : TableInfo) where
  open m use {Store, content}

  -- A row of an answer is the servers' row of its key, decoded.
  abbrev IsServed : World m F ti → List ℕ → RcResult → Type 0
  IsServed w key r =
      (row : RowValue)
      → r.row ≡ some row
      → (b : List ℕ) × (w.rows key ≡ some b) × (decode_row F b ti.table.columns ≡ ok row)

  AllServed : World m F ti → List (List ℕ × RcResult) → Type 0
  AllServed w items = (key : List ℕ) (r : RcResult) → item_of key items ≡ some r → IsServed w key r

  Agrees-row :
      (key : List ℕ) (f : ℕ) (b : List ℕ) (row : Option (List ℕ))
      → (f == rc_deleted) ≡ false
      → Agrees m F ti key (some (f, b)) row
      → row ≡ some b
  Agrees-row key zero b row h (a, _) = a
  Agrees-row key (suc zero) b row h a = absurd (cc h)
  Agrees-row key (suc (suc f)) b row h (a, _) = a

  decoded-IsServed :
      (w : World m F ti) (key b : List ℕ) (n : ℕ) (r : Result RowValue)
      → w.rows key ≡ some b
      → decode_row F b ti.table.columns ≡ r
      → Answers (IsServed w key) (elim r [
        | ok row ↦ ok (record { row = some row; cas = n })
        | err e ↦ panic
        | panic ↦ panic
      ])
  decoded-IsServed w key b n panic held d = tt
  decoded-IsServed w key b n (err e) held d = tt
  decoded-IsServed w key b n (ok v) held d =
      λ row h. (b, held, d ∙ ap (λ x. ok x) (some_injective h))

  decode_item-IsServed :
      (w : World m F ti) (key : List ℕ) (item : Content) (n : ℕ)
      → Agrees m F ti key (some item) (w.rows key)
      → Answers (IsServed w key) (decode_item F item n ti.table.columns)
  unfolding decode_item
  decode_item-IsServed w key (f, b) n a =
      Answers-if _ (f == rc_deleted) _ _ (λ _ row h. absurd (cc h))
        (λ e. decoded-IsServed w key b n _ (Agrees-row key f b (w.rows key) e a) refl)

  cons-AllServed :
      (w : World m F ti) (k : List ℕ) (r : RcResult) (more : List (List ℕ × RcResult))
      → IsServed w k r
      → AllServed w more
      → AllServed w ((k, r) ∷ more)
  unfolding AllServed item_of
  cons-AllServed w k r more h hs key r' = by_test (k =? key) refl
    where
      by_test :
          (b : Bool)
          → (k =? key) ≡ b
          → (if b then some r else item_of key more) ≡ some r'
          → IsServed w key r'
      by_test true e found =
          let same : k ≡ key = ground (arith, =?_iff k key) in
          subst (λ x. IsServed w key x) (some_injective found) (subst (λ x. IsServed w x r) same h)
      by_test false e found = hs key r' found

  get-AllServed :
      (w : World m F ti) (keys : List (List ℕ))
      → Coherent m F ti w
      → Answers (AllServed w) (get m F ti.prefix keys ti.table.columns w.store)
  unfolding get AllServed item_of
  get-AllServed w [] c = λ key r h. absurd (cc h)
  get-AllServed w (key ∷ keys) c =
      Answers-if _ (ltb max_key_len (length key)) _ _ (λ _. get-AllServed w keys c)
        (λ _.
          Answers-option _ (content w.store (ti.prefix ++ key)) _ _ (λ _. get-AllServed w keys c)
            (λ item e. Answers-bind _ (decode_item F item _ ti.table.columns) _ (λ r d.
              Answers-bind _ (get m F ti.prefix keys ti.table.columns w.store) _ (λ more g.
                cons-AllServed w key r more
                  (Answers-ok _ _ r
                    (decode_item-IsServed w key item _
                      (subst (λ x. Agrees m F ti key x (w.rows key)) e (c key)))
                    d)
                  (Answers-ok _ _ more (get-AllServed w keys c) g)))))

  -- Where the cache agrees with the servers, each row that `Get` answers is the row that the servers hold
  -- for its key, as ParseText reads it.
  pub get-Coherent :
      (w : World m F ti) (keys : List (List ℕ)) {items : List (List ℕ × RcResult)} (key : List ℕ)
      {r : RcResult} {row : RowValue}
      → Coherent m F ti w
      → get m F ti.prefix keys ti.table.columns w.store ≡ ok items
      → item_of key items ≡ some r
      → r.row ≡ some row
      → (b : List ℕ) × (w.rows key ≡ some b) × (decode_row F b ti.table.columns ≡ ok row)
  unfolding AllServed
  get-Coherent w keys key c g found has =
      Answers-ok _ _ _ (get-AllServed w keys c) g key _ found _ has
