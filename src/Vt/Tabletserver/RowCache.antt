-- ===== src/Vt/Tabletserver/RowCache.antt =====
-- vt/tabletserver/rowcache.go: the rows of a table in memcache. The memcache client is no part of this
-- repository: `Memcache` is what its documentation says of the operations. A call that memcache refuses
-- ends the program (`log.Fatalf`); that, time and the pool of connections are left out, and an item may
-- be gone at any time.
pub mod Laws
use cm.Common.{
  ℕ, ◌^◌, List, [], ◌∷◌, ◌++◌, length, Bool, true, false, not, ◌&&◌, Option, none, some, ltb, ◌==◌,
  ◌=?◌, if◌then◌else◌, Result, ok, err, panic, ◌>>=◌, ◌≡◌, map,
}
use cm.Vt.Schema.{TableColumn}
use cm.Mysql.Field.{Field}
use cm.Mysql.Resultset.{Floats, RowValue, parse_text}

-- Flags and bytes.
abbrev pub Content : Type 0
Content = ℕ × List ℕ

abbrev pub is_none {ℓ} : {A : Type ℓ} → Option A → Bool
is_none none = true
is_none (some a) = false

pub record Memcache : Type 1 where
  pub Store : Type 0
  pub content : Store → List ℕ → Option Content
  pub cas_of : Store → List ℕ → ℕ
  pub set : List ℕ → Content → Store → Store
  pub add : List ℕ → Content → Store → Store
  pub cas : List ℕ → Content → ℕ → Store → Store
  pub content-set :
      (k : List ℕ) (c : Content) (s : Store) (j : List ℕ)
      → content (set k c s) j ≡ (if k =? j then some c else content s j)
  pub content-add :
      (k : List ℕ) (c : Content) (s : Store) (j : List ℕ)
      → content (add k c s) j ≡ (if (k =? j) && is_none (content s j) then some c else content s j)
  pub content-cas :
      (k : List ℕ) (c : Content) (n : ℕ) (s : Store) (j : List ℕ)
      → content (cas k c n s) j ≡ (
          if (k =? j) && (not (is_none (content s j)) && cas_of s j == n)
          then some c
          else content s j)

abbrev pub rc_deleted : ℕ
rc_deleted = 1

abbrev pub max_key_len : ℕ
max_key_len = 200

-- `RCResult`: the row is nil where the item marks an invalidated row.
pub record RcResult : Type 0 where
  pub row : Option RowValue
  pub cas : ℕ

-- The fields that `decodeRow` makes of the columns.
abbrev pub column_field : TableColumn → Field
column_field tc = record {
  field_data = none;
  schema = [];
  table = [];
  org_table = [];
  name = [];
  org_name = [];
  charset = 0;
  column_length = 0;
  type = tc.sql_type;
  flag = 0;
  decimal = 0;
  is_unsigned = tc.is_unsigned;
  default_value_length = 0;
  default_value = none;
}

unfoldable pub decode_row : Floats → List ℕ → List TableColumn → Result RowValue
decode_row F b tcs = parse_text F b (map column_field tcs)

-- A row that is corrupt ends the program.
unfoldable pub decode_item : Floats → Content → ℕ → List TableColumn → Result RcResult
decode_item F (flags, b) n tcs =
    if flags == rc_deleted then ok (record { row = none; cas = n }) else elim (decode_row F b tcs) [
      | ok row ↦ ok (record { row = some row; cas = n })
      | err e ↦ panic
      | panic ↦ panic
    ]

module _ (m : Memcache) (F : Floats) (prefix : List ℕ) where
  open m use {Store, content, cas_of}

  -- The results by key, of the keys that are found; a key that is too long is not looked for.
  unfoldable pub get : List (List ℕ) → List TableColumn → Store → Result (List (List ℕ × RcResult))
  get [] tcs s = ok []
  get (key ∷ keys) tcs s =
      let rest = get keys tcs s in
      if ltb max_key_len (length key) then rest else elim (content s (prefix ++ key)) [
        | none ↦ rest
        | some item ↦ decode_item F item (cas_of s (prefix ++ key)) tcs >>= λ r.
            rest >>= λ more. ok ((key, r) ∷ more)
      ]

module _ (m : Memcache) (prefix : List ℕ) where
  open m use {Store}

  unfoldable pub set : List ℕ → List ℕ → ℕ → Store → Store
  set key row n s =
      if ltb max_key_len (length key)
      then s
      else if n == 0
      then m.add (prefix ++ key) (0, row) s
      else m.cas (prefix ++ key) (0, row) n s

  unfoldable pub delete : List ℕ → Store → Store
  delete key s =
      if ltb max_key_len (length key) then s else m.set (prefix ++ key) (rc_deleted, []) s
