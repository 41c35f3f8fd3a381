-- ===== src/Sqlparser/Query/Splice.antt =====
-- sqlparser/parsed_query.go: splicing at the tracked places against substitution in the writes.
use cm.Common.{
  ℕ, ◌+◌, List, [], ◌∷◌, ◌++◌, length, ◌≡◌, refl, sym, ap, ◌∙◌, arith, Result, ok, err, panic,
  ◌>>=◌, slice, slice_from, length-append, slice-append, drop-append,
}
use mathlib.Core.List.{append-nil, append_assoc}
use cm.Sqlparser.Format.{Write, text, arg}
use cm.Sqlparser.Tracked.{BindLocation, query_of, new_tracked_buffer}
use cm.Sqlparser.Tracked.Writes.{flat, locations, run-flat}
use cm.Sqlparser.Query.{
  BindVars, BindValue, fetch_bind_var, encode_value, generate_loop, generate_query,
}

abbrev onto : List ℕ → Result (List ℕ) → Result (List ℕ)
onto s more = do rest ← more; ok (s ++ rest)

-- The writes with each argument replaced by the value of its variable.
unfoldable pub substitute : List Write → BindVars → Result (List ℕ)
substitute [] vars = ok []
substitute (text s ∷ ws) vars = onto s (substitute ws vars)
substitute (arg name ∷ ws) vars = do
  v ← fetch_bind_var name vars
  s ← encode_value v
  rest ← substitute ws vars
  ok (s ++ rest)

onto-onto : (a b : List ℕ) (more : Result (List ℕ)) → onto a (onto b more) ≡ onto (a ++ b) more
onto-onto a b panic = refl
onto-onto a b (err e) = refl
onto-onto a b (ok s) = ap ok (sym (append_assoc a b s))

onto-nil : (more : Result (List ℕ)) → onto [] more ≡ more
onto-nil panic = refl
onto-nil (err e) = refl
onto-nil (ok s) = refl

slice_from-append : (a b : List ℕ) → slice_from (a ++ b) (length a) ≡ ok b
unfolding slice_from
slice_from-append a b = ground (arith, length-append a b, drop-append a b)

slice_at :
    (q a b c : List ℕ) (n m : ℕ)
    → q ≡ a ++ (b ++ c)
    → n ≡ length a
    → m ≡ n + length b
    → slice q n m ≡ ok b
slice_at q a b c n m e p k = rw (e, k, p) (slice-append a b c)

-- The text before an argument goes in front of the whole answer.
onto-value :
    (before : List ℕ) (value more : Result (List ℕ))
    → (value >>= λ s. more >>= λ rest. ok (before ++ s ++ rest))
      ≡ onto before (value >>= λ s. more >>= λ rest. ok (s ++ rest))
onto-value before panic more = refl
onto-value before (err e) more = refl
onto-value before (ok s) panic = refl
onto-value before (ok s) (err e) = refl
onto-value before (ok s) (ok rest) = ap ok (append_assoc before s rest)

onto-argument :
    (before : List ℕ) (supplied : Result BindValue) (more : Result (List ℕ))
    → (supplied >>= λ v. encode_value v >>= λ s. more >>= λ rest. ok (before ++ s ++ rest))
      ≡ onto before (supplied >>= λ v. encode_value v >>= λ s. more >>= λ rest. ok (s ++ rest))
onto-argument before panic more = refl
onto-argument before (err e) more = refl
onto-argument before (ok v) more = onto-value before (encode_value v) more

-- The loop stands behind `before`, and `pending` is the text since then.
generate_loop-substitute :
    (ws : List Write) (vars : BindVars) (before pending q : List ℕ) (n m : ℕ)
    → q ≡ before ++ (pending ++ flat ws)
    → n ≡ length before
    → m ≡ n + length pending
    → generate_loop q vars n (locations m ws) ≡ onto pending (substitute ws vars)
unfolding generate_loop flat locations substitute
generate_loop-substitute [] vars before pending q n m e p k =
    rw (e, p, append-nil pending, slice_from-append before pending) refl
generate_loop-substitute (text s ∷ ws) vars before pending q n m e p k =
    generate_loop-substitute ws vars before (pending ++ s) q n (m + length s)
      (e ∙ ap (λ z. before ++ z) (sym (append_assoc pending s (flat ws)))) p
      (omega (arith, k, length-append pending s))
    ∙ sym (onto-onto pending s (substitute ws vars))
generate_loop-substitute (arg name ∷ ws) vars before pending q n m e p k =
    let e' : q ≡ (before ++ pending) ++ (name ++ flat ws) =
      e ∙ sym (append_assoc before pending (name ++ flat ws)) in
    let rest =
      generate_loop-substitute ws vars ((before ++ pending) ++ name) [] q (m + length name)
        (m + length name) (e' ∙ sym (append_assoc (before ++ pending) name (flat ws)))
        (omega (arith, k, p, length-append before pending, length-append (before ++ pending) name))
        (omega arith)
      ∙ onto-nil (substitute ws vars) in
    rw
      (
        slice_at q before pending (name ++ flat ws) n m e p k,
        slice_at q (before ++ pending) name (flat ws) m (m + length name) e'
            (omega (arith, k, p, length-append before pending)) refl,
        rest,
      )
      (onto-argument pending (fetch_bind_var name vars) (substitute ws vars))

-- The early return on a query without arguments is no special case.
generate_query-loop :
    (q : List ℕ) (locs : List BindLocation) (vars : BindVars)
    → generate_query (record { query = q; bind_locations = locs }) vars
      ≡ generate_loop q vars 0 locs
unfolding generate_query
generate_query-loop q [] vars = unfold generate_loop in sym (slice_from-append [] q)
generate_query-loop q (l ∷ ls) vars = ground arith

-- `GenerateQuery` on the query of any writes answers what substitution in the writes answers: it
-- never slices out of range, and it fails exactly where the first bad argument does.
pub generate_query-substitute :
    (ws : List Write) (vars : BindVars) → generate_query (query_of ws) vars ≡ substitute ws vars
generate_query-substitute ws vars =
    generate_query-loop (query_of ws).query (query_of ws).bind_locations vars
    ∙ rw (run-flat ws new_tracked_buffer) (
        generate_loop-substitute ws vars [] [] (flat ws) 0 0 refl refl refl
        ∙ onto-nil (substitute ws vars))
