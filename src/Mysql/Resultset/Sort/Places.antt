-- ===== src/Mysql/Resultset/Sort/Places.antt =====
-- mysql/resultset_sort.go: the swaps of a sort move each row together with its packet.
use cm.Common.{
  ℕ, ◌≡◌, refl, ◌∙◌, ap, sym, List, some, get_elem?, set, get_elem?-set, index_at, ◌==◌,
  if◌then◌else◌, ok, >>=-eq-ok, ok-injective, Bool-cases, inl, inr, arith,
}
use cm.Mysql.Resultset.{Resultset}
use cm.Mysql.Resultset.Sort.{swap, swap_rows, Swaps, unsorted, swapped}

-- Two sets of results hold the same rows at places that a bijection takes to each other: `from k` is
-- where the row at `k` of `t` stands in `r`, and `to` is its inverse.
pub record Rearranged (r t : Resultset) : Type 0 where
  pub from : ℕ → ℕ
  pub to : ℕ → ℕ
  pub to_from : (k : ℕ) → to (from k) ≡ k
  pub from_to : (k : ℕ) → from (to k) ≡ k
  pub fields : t.fields ≡ r.fields
  pub values : (k : ℕ) → get_elem? t.values k ≡ get_elem? r.values (from k)
  pub row_datas : (k : ℕ) → get_elem? t.row_datas k ≡ get_elem? r.row_datas (from k)

transpose : ℕ → ℕ → ℕ → ℕ
transpose i j k = if k == i then j else if k == j then i else k

transpose-transpose : (i j k : ℕ) → transpose i j (transpose i j k) ≡ k
unfolding transpose
transpose-transpose i j k = ground arith

index_at-eq-ok {ℓ} :
    {A : Type ℓ} {x : A} (xs : List A) (i : ℕ) → index_at xs i ≡ ok x → get_elem? xs i ≡ some x
index_at-eq-ok xs i h = ground arith

get_elem?-set-set {ℓ} :
    {A : Type ℓ} (i j : ℕ) (xs : List A) (x y : A)
    → get_elem? xs i ≡ some x
    → get_elem? xs j ≡ some y
    → (k : ℕ) → get_elem? (set (set xs i y) j x) k ≡ get_elem? xs (transpose i j k)
unfolding transpose
get_elem?-set-set i j xs x y at_i at_j k =
    let second : get_elem? (set xs i y) j ≡ some y = ground (arith, get_elem?-set xs i j y at_i) in
    get_elem?-set (set xs i y) j k x second ∙ elim (Bool-cases (k == j)) [
      | inl e ↦ rw e (elim (Bool-cases (k == i)) [
        | inl f ↦ let same : j ≡ i = ground arith in rw f (sym (ap (get_elem? xs) same ∙ at_i))
        | inr f ↦ rw f (sym at_i)
      ])
      | inr n ↦ rw n (
          get_elem?-set xs i k y at_i
          ∙ elim (Bool-cases (k == i)) [ inl f ↦ rw f (sym at_j) | inr f ↦ rw f refl ])
    ]

get_elem?-swap {ℓ} :
    {A : Type ℓ} (i j : ℕ) (xs ys : List A)
    → swap i j xs ≡ ok ys
    → (k : ℕ) → get_elem? ys k ≡ get_elem? xs (transpose i j k)
unfolding swap
get_elem?-swap i j xs ys h k =
    let (x, atx, h) = >>=-eq-ok (index_at xs i) _ h in
    let (y, aty, h) = >>=-eq-ok (index_at xs j) _ h in
    let at_i = index_at-eq-ok xs i atx in
    let at_j = index_at-eq-ok xs j aty in
    ap (λ l. get_elem? l k) (sym (ok-injective h)) ∙ get_elem?-set-set i j xs x y at_i at_j k

-- However a sort swaps the rows, the result holds the same rows at other places, each with the packet
-- that it had, and the columns are as they were.
pub Swaps-Rearranged : {r t : Resultset} → Swaps r t → Rearranged r t
unfolding swap_rows
Swaps-Rearranged unsorted = record {
  from = λ k. k;
  to = λ k. k;
  to_from = λ k. refl;
  from_to = λ k. refl;
  fields = refl;
  values = λ k. refl;
  row_datas = λ k. refl;
}
Swaps-Rearranged (swapped {s} i j before step) =
    let old = Swaps-Rearranged before in
    let (values, swapped_values, step) = >>=-eq-ok (swap i j s.values) _ step in
    let (row_datas, swapped_data, step) = >>=-eq-ok (swap i j s.row_datas) _ step in
    let eq = ok-injective step in
    record {
      from = λ k. old.from (transpose i j k);
      to = λ k. transpose i j (old.to k);
      to_from = λ k. ap (transpose i j) (old.to_from (transpose i j k)) ∙ transpose-transpose i j k;
      from_to = λ k. ap old.from (transpose-transpose i j (old.to k)) ∙ old.from_to k;
      fields = ap (λ u. u.fields) (sym eq) ∙ old.fields;
      values = λ k.
          ap (λ u. get_elem? u.values k) (sym eq)
          ∙ get_elem?-swap i j s.values values swapped_values k
          ∙ old.values (transpose i j k);
      row_datas = λ k.
          ap (λ u. get_elem? u.row_datas k) (sym eq)
          ∙ get_elem?-swap i j s.row_datas row_datas swapped_data k
          ∙ old.row_datas (transpose i j k);
    }
