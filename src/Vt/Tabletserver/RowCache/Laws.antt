-- ===== src/Vt/Tabletserver/RowCache/Laws.antt =====
-- vt/tabletserver/rowcache.go: what the operations leave under each key.
use cm.Common.{
  ℕ, ◌≡◌, refl, List, [], ◌∷◌, ◌++◌, length, not, ◌&&◌, some, ltb, ◌=?◌, if◌then◌else◌, arith,
}
use cm.Vt.Tabletserver.RowCache.{Memcache, is_none, rc_deleted, max_key_len, set, delete}

=?-append : (p a b : List ℕ) → ((p ++ a) =? (p ++ b)) ≡ (a =? b)
unfolding ◌=?◌
=?-append [] a b = refl
=?-append (c ∷ p) a b = ground (arith, =?-append p a b)

module _ (m : Memcache) (prefix : List ℕ) where
  open m use {Store, content}

  -- An invalidated key is marked, and no other is touched.
  pub content-delete :
      (key j : List ℕ) (s : Store)
      → content (delete m prefix key s) (prefix ++ j) ≡ (
          if (key =? j) && not (ltb max_key_len (length key))
          then some (rc_deleted, [])
          else content s (prefix ++ j))
  unfolding delete
  content-delete key j s = ground (
    arith,
    m.content-set (prefix ++ key) (rc_deleted, []) s (prefix ++ j),
    =?-append prefix key j,
  )

  -- A row is only put under a key that has nothing.
  pub content-add_row :
      (key j row : List ℕ) (s : Store)
      → content (set m prefix key row 0 s) (prefix ++ j) ≡ (
          if (key =? j) && (is_none (content s (prefix ++ j)) && not (ltb max_key_len (length key)))
          then some (0, row)
          else content s (prefix ++ j))
  unfolding set
  content-add_row key j row s =
      ground (arith, m.content-add (prefix ++ key) (0, row) s (prefix ++ j), =?-append prefix key j)
