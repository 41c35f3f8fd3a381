-- ===== src/Proxy/Rows/Merge/Concat.antt =====
-- proxy/conn_query.go: what `mergeSelectResult` answers of the shards' results.
use Prim.Native.Nat.{bit_or}
use cm.Common.{ℕ, ◌≡◌, sym, ap, ◌∙◌, List, [], ◌∷◌, ◌++◌, length, some, arith, ok}
use mathlib.Core.List.{append_assoc, append-nil}
use cm.Mysql.Resultset.{RowValue, Resultset}
use cm.Mysql.Client.{QueryResult}
use cm.Proxy.Rows.Merge.{append_rows, append_results, merge_select_result}

-- The results have these sets of results, and each has a packet for each row.
abbrev Sets : List QueryResult → List Resultset → Type 0
Sets [] [] = Unit {0}
Sets [] (s ∷ ss) = ⊥
Sets (v ∷ vs) [] = ⊥
Sets (v ∷ vs) (s ∷ ss) =
    (v.resultset ≡ some s) × (length s.values ≡ length s.row_datas) × Sets vs ss

abbrev pub all_values : List Resultset → List RowValue
all_values [] = []
all_values (s ∷ ss) = s.values ++ all_values ss

abbrev all_row_datas : List Resultset → List (List ℕ)
all_row_datas [] = []
all_row_datas (s ∷ ss) = s.row_datas ++ all_row_datas ss

abbrev all_statuses : ℕ → List QueryResult → ℕ
all_statuses status [] = status
all_statuses status (v ∷ vs) = all_statuses (bit_or status v.status) vs

-- A set of results with further rows.
abbrev pub with_rows : Resultset → List RowValue → List (List ℕ) → Resultset
with_rows r vs ds = record r { values = r.values ++ vs; row_datas = r.row_datas ++ ds }

with_rows-with_rows :
    (r : Resultset) (vs ws : List RowValue) (ds es : List (List ℕ))
    → with_rows (with_rows r vs ds) ws es ≡ with_rows r (vs ++ ws) (ds ++ es)
with_rows-with_rows r vs ws ds es =
    ap (λ x. record r { values = x; row_datas = (r.row_datas ++ ds) ++ es })
      (append_assoc r.values vs ws)
    ∙ ap (λ x. record r { values = r.values ++ (vs ++ ws); row_datas = x })
        (append_assoc r.row_datas ds es)

with_rows-nil : (r : Resultset) → with_rows r [] [] ≡ r
with_rows-nil r =
    ap (λ x. record r { values = x; row_datas = r.row_datas ++ [] }) (append-nil r.values)
    ∙ ap (λ x. record r { row_datas = x }) (append-nil r.row_datas)

append_rows-with_rows :
    (r : Resultset) (vs : List RowValue) (ds : List (List ℕ))
    → length vs ≡ length ds
    → append_rows r vs ds ≡ ok (with_rows r vs ds)
unfolding append_rows
append_rows-with_rows r [] [] h = ap (λ x. ok x) (sym (with_rows-nil r))
append_rows-with_rows r [] (d ∷ ds) h = absurd (cc h)
append_rows-with_rows r (v ∷ vs) [] h = absurd (cc h)
append_rows-with_rows r (v ∷ vs) (d ∷ ds) h =
    append_rows-with_rows (with_rows r (v ∷ []) (d ∷ [])) vs ds (omega arith)
    ∙ ap (λ x. ok x) (with_rows-with_rows r (v ∷ []) vs (d ∷ []) ds)

append_results-with_rows :
    (status : ℕ) (r : Resultset) (vs : List QueryResult) (ss : List Resultset)
    → Sets vs ss
    → append_results status r vs
      ≡ ok (all_statuses status vs, with_rows r (all_values ss) (all_row_datas ss))
unfolding append_results
append_results-with_rows status r [] [] h = ap (λ x. ok (status, x)) (sym (with_rows-nil r))
append_results-with_rows status r [] (s ∷ ss) h = absurd h
append_results-with_rows status r (v ∷ vs) [] h = absurd h
append_results-with_rows status r (v ∷ vs) (s ∷ ss) (has, same, rest) =
    rw (has, append_rows-with_rows r s.values s.row_datas same)
      (append_results-with_rows (bit_or status v.status) (with_rows r s.values s.row_datas) vs ss
          rest
        ∙ ap (λ x. ok (all_statuses (bit_or status v.status) vs, x))
            (with_rows-with_rows r s.values (all_values ss) s.row_datas (all_row_datas ss)))

-- The merged set of results has the first shard's columns, the rows of all shards in their order, each
-- with its packet, and the session's and the shards' statuses by a bitwise or, where each shard has
-- answered a set of results with a packet for each row.
pub merge_select_result-append :
    (status : ℕ) (v : QueryResult) (vs : List QueryResult) (s : Resultset) (ss : List Resultset)
    → Sets (v ∷ vs) (s ∷ ss)
    → merge_select_result status (v ∷ vs)
      ≡ ok (
        all_statuses status (v ∷ vs),
        record s { values = all_values (s ∷ ss); row_datas = all_row_datas (s ∷ ss) },
      )
unfolding merge_select_result
merge_select_result-append status v vs s ss (has, same, rest) =
    rw has (append_results-with_rows (bit_or status v.status) s vs ss rest)
