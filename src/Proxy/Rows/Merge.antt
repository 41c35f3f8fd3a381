-- ===== src/Proxy/Rows/Merge.antt =====
-- proxy/conn_query.go: `mergeExecResult`, `mergeSelectResult` and `limitSelectResult`. A status is a
-- uint16 and its `|` is bitwise. An int64 is its 64-bit pattern.
pub mod Concat
use Prim.Native.Nat.{bit_or}
use cm.Common.{
  ℕ, ◌+◌, ◌-◌, ◌%◌, ◌^◌, List, [], ◌∷◌, ◌++◌, length, Bool, true, false, not, ◌&&◌, Option, none,
  some, ltb, leb, ◌==◌, if◌then◌else◌, is_negative, Result, ok, err, panic, ◌>>=◌, index_at, take,
  drop,
}
use cm.Mysql.Resultset.{RowValue, Resultset}
use cm.Mysql.Client.{QueryResult}

-- What `mergeExecResult` gathers: the status, the affected rows and the inserted id.
pub record Counts : Type 0 where
  pub status : ℕ
  pub affected_rows : ℕ
  pub insert_id : ℕ

-- One round of the loop.
unfoldable pub add_counts : Counts → QueryResult → Counts
add_counts r v = record {
  status = bit_or r.status v.status;
  affected_rows = (r.affected_rows + v.affected_rows) % 2 ^ 64;
  insert_id =
      if r.insert_id == 0
      then v.insert_id
      else if ltb v.insert_id r.insert_id
      then v.insert_id
      else r.insert_id;
}

unfoldable pub merge_counts : Counts → List QueryResult → Counts
merge_counts r [] = r
merge_counts r (v ∷ vs) = merge_counts (add_counts r v) vs

unfoldable pub merge_exec_result : List QueryResult → Counts
merge_exec_result rs = merge_counts (record { status = 0; affected_rows = 0; insert_id = 0 }) rs

-- The loop over `rs[i].Values`: each value's packet is appended with it.
pub append_rows : Resultset → List RowValue → List (List ℕ) → Result Resultset
append_rows r [] datas = ok r
append_rows r (v ∷ vs) [] = panic
append_rows r (v ∷ vs) (d ∷ ds) =
    append_rows (record r { values = r.values ++ v ∷ []; row_datas = r.row_datas ++ d ∷ [] }) vs ds

-- A result without a set of results is a nil pointer.
pub append_results : ℕ → Resultset → List QueryResult → Result (ℕ × Resultset)
append_results status r [] = ok (status, r)
append_results status r (v ∷ vs) = elim v.resultset [
  | none ↦ panic
  | some s ↦
      append_rows r s.values s.row_datas >>= λ r'. append_results (bit_or status v.status) r' vs
]

-- The shards' results, before they are sorted: the session's status and the first result's fields.
pub merge_select_result : ℕ → List QueryResult → Result (ℕ × Resultset)
merge_select_result status [] = panic
merge_select_result status (v ∷ vs) = elim v.resultset [
  | none ↦ panic
  | some r ↦ append_results (bit_or status v.status) r vs
]

-- `xs[lo:hi]`
slice_rows {ℓ} : {A : Type ℓ} → ℕ → ℕ → List A → Result (List A)
slice_rows lo hi xs =
    if leb lo hi && leb hi (length xs) then ok (take (hi - lo) (drop lo xs)) else panic

-- The end of `limitSelectResult`, where the offset and the count are read.
limit_rows : ℕ → ℕ → Resultset → Result Resultset
limit_rows offset count r = do
  let total = (offset + count) % 2 ^ 64
  let beyond = not (is_negative total) && ltb (length r.values) total
  let count = if beyond then (length r.values + 2 ^ 64 - offset) % 2 ^ 64 else count
  let hi = (offset + count) % 2 ^ 64
  values ← slice_rows offset hi r.values
  row_datas ← slice_rows offset hi r.row_datas
  ok (record r { values = values; row_datas = row_datas })
