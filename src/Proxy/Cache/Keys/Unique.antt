-- ===== src/Proxy/Cache/Keys/Unique.antt =====
-- proxy/conn_query.go: the key of a row in the cache, made of the values of its primary key.
use cm.Common.{
  ℕ, suc, ◌+◌, ◌-◌, ◌%◌, ◌<◌, ◌≡◌, ◌≢◌, refl, sym, ap, ◌∙◌, List, [], ◌∷◌, ◌++◌, length, true,
  false, codes, ◌==◌, Result, ok, ◌>>=◌, map, All, arith,
}
use mathlib.Core.List.{append_assoc, append-nil}
use native.Mathlib.Nat.{mod-eq_of_lt}
use cm.Sqlparser.Query.{SqlValue}
use cm.Sqlparser.Analyzer.{PlanValue, sql_value}
use cm.Proxy.Cache.Keys.{
  value_string, underscored, key_part, parts_of, keys_loop, pk_values_to_strings,
}

-- The parts of a key's values.
abbrev joined_parts : List SqlValue → List ℕ
joined_parts [] = []
joined_parts (v ∷ vs) = key_part v ++ joined_parts vs

abbrev scalars : List SqlValue → List PlanValue
scalars vs = map (λ v. sql_value v) vs

>>=-ok : {A : Type 0} (r : Result A) → (r >>= λ a. ok a) ≡ r
>>=-ok r = ground arith

-- A value that ends the primary key closes the key, and another goes on with it.
keys_loop-closes :
    (n i : ℕ) (acc : List ℕ) (v : SqlValue) (vs : List PlanValue)
    → suc i ≡ n
    → keys_loop n i acc (sql_value v ∷ vs)
      ≡ (keys_loop n (suc i) [] vs >>= λ rest. ok (underscored (acc ++ key_part v) ∷ rest))
unfolding keys_loop parts_of
keys_loop-closes n i acc v vs h =
    let some_columns : (n == 0) ≡ false = ground arith in
    let small : i % n ≡ i = mod-eq_of_lt (omega arith) in
    let last : (i % n == n - 1) ≡ true = ground arith in rw (some_columns, last)

keys_loop-goes_on :
    (n i : ℕ) (acc : List ℕ) (v : SqlValue) (vs : List PlanValue)
    → suc i < n
    → keys_loop n i acc (sql_value v ∷ vs) ≡ keys_loop n (suc i) (acc ++ key_part v) vs
unfolding keys_loop parts_of
keys_loop-goes_on n i acc v vs h =
    let some_columns : (n == 0) ≡ false = ground arith in
    let more : (i % n == n - 1) ≡ false = ground arith in rw (some_columns, more) (>>=-ok _)

keys_loop-scalars :
    (n i : ℕ) (acc : List ℕ) (v : SqlValue) (vs : List SqlValue)
    → i + length (v ∷ vs) ≡ n
    → keys_loop n i acc (scalars (v ∷ vs)) ≡ ok (underscored (acc ++ joined_parts (v ∷ vs)) ∷ [])
keys_loop-scalars n i acc v [] h =
    keys_loop-closes n i acc v [] (omega arith)
    ∙ unfold keys_loop in ap (λ k. ok (underscored (acc ++ k) ∷ [])) (sym (append-nil (key_part v)))
keys_loop-scalars n i acc v (w ∷ vs) h =
    keys_loop-goes_on n i acc v (scalars (w ∷ vs)) (omega arith)
    ∙ keys_loop-scalars n (suc i) (acc ++ key_part v) w vs (omega arith)
    ∙ ap (λ k. ok (underscored k ∷ [])) (append_assoc acc (key_part v) (joined_parts (w ∷ vs)))

one_key :
    (columns : List ℕ) (vs : List SqlValue)
    → length columns ≡ length vs
    → 0 < length vs
    → pk_values_to_strings columns (scalars vs) ≡ ok (underscored (joined_parts vs) ∷ [])
unfolding pk_values_to_strings
one_key columns [] h k = absurd (omega arith)
one_key columns (v ∷ vs) h k = keys_loop-scalars (length columns) 0 [] v vs (omega arith)

-- A character that neither a space is replaced by nor a value ends with.
abbrev IsInner : ℕ → Type 0
IsInner c = (c ≢ b'-') × (c ≢ b' ')

-- No space and no dash.
abbrev IsUnspaced : SqlValue → Type 0
IsUnspaced v = All IsInner (value_string v)

underscored-same : (s t : List ℕ) → All IsInner s → underscored (s ++ t) ≡ s ++ underscored t
unfolding underscored
underscored-same [] t h = refl
underscored-same (c ∷ s) t (h, hs) =
    let kept : (c == b' ') ≡ false = ground arith in rw (kept, underscored-same s t hs)

-- Where texts without dashes are followed by one, they are equal where the wholes are.
same_head :
    (s t x y : List ℕ)
    → All IsInner s
    → All IsInner t
    → s ++ (b'-' ∷ x) ≡ t ++ (b'-' ∷ y)
    → (s ≡ t) × (x ≡ y)
same_head [] [] x y hs ht e = (refl, cc)
same_head [] (d ∷ t) x y hs (h, ht) e = absurd (h.0 (cc))
same_head (c ∷ s) [] x y (h, hs) ht e = absurd (h.0 (cc))
same_head (c ∷ s) (d ∷ t) x y (h, hs) (k, ht) e = let (p, q) = same_head s t x y hs ht cc in (cc, q)

key_starts :
    (v : SqlValue) (vs : List SqlValue)
    → IsUnspaced v
    → underscored (joined_parts (v ∷ vs))
      ≡ value_string v ++ (b'-' ∷ (b'-' ∷ underscored (joined_parts vs)))
unfolding key_part
key_starts v vs h =
    ap underscored (append_assoc (value_string v) (codes "--") (joined_parts vs))
    ∙ underscored-same (value_string v) (codes "--" ++ joined_parts vs) h
    ∙ unfold underscored in refl

same_key : {k l : List ℕ} → ok (k ∷ []) ≡ ok (l ∷ []) → k ≡ l
same_key h = cc

joined-injective :
    (vs ws : List SqlValue)
    → length vs ≡ length ws
    → All IsUnspaced vs
    → All IsUnspaced ws
    → underscored (joined_parts vs) ≡ underscored (joined_parts ws)
    → map value_string vs ≡ map value_string ws
joined-injective [] [] n hv hw e = refl
joined-injective [] (w ∷ ws) n hv hw e = absurd (cc n)
joined-injective (v ∷ vs) [] n hv hw e = absurd (cc n)
joined-injective (v ∷ vs) (w ∷ ws) n (h, hv) (k, hw) e =
    let (text, tail) =
      same_head (value_string v) (value_string w) _ _ h k
        (sym (key_starts v vs h) ∙ e ∙ key_starts w ws k) in
    rw (text, joined-injective vs ws (omega arith) hv hw (cc tail))

-- The values of a primary key make exactly one key, and two rows have the same key only where the
-- texts of their values are the same, for texts without spaces and dashes and as many values as
-- columns, of which there is at least one.
pub pk_values_to_strings-injective :
    (columns : List ℕ) (vs ws : List SqlValue)
    → 0 < length columns
    → length columns ≡ length vs
    → length columns ≡ length ws
    → All IsUnspaced vs
    → All IsUnspaced ws
    → pk_values_to_strings columns (scalars vs) ≡ pk_values_to_strings columns (scalars ws)
    → ((key : List ℕ) × (pk_values_to_strings columns (scalars vs) ≡ ok (key ∷ [])))
      × (map value_string vs ≡ map value_string ws)
pk_values_to_strings-injective columns vs ws some_columns n k hv hw e =
    let of_vs = one_key columns vs n (omega arith) in
    let of_ws = one_key columns ws k (omega arith) in
    (
      (underscored (joined_parts vs), of_vs),
      joined-injective vs ws (omega arith) hv hw (same_key (sym of_vs ∙ e ∙ of_ws)),
    )
