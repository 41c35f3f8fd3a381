-- ===== src/Mysql/Resultset/Sort/Order.antt =====
-- mysql/resultset_sort.go: `Less` orders the rows that it can compare.
use cm.Common.{
  ◌≡◌, refl, ◌∙◌, ap, sym, List, [], ◌∷◌, some, index_at, Bool, true, false, ◌&&◌, Result, ok,
  ◌>>=◌, >>=-eq-ok, ok-injective, arith,
}
use cm.Mysql.Resultset.{RowValue, Value, Floats}
use cm.Mysql.Resultset.Sort.{
  SortKey, Comparison, less, same, more, opposite, cmp_value, directed, rows_less,
}
use cm.Mysql.Resultset.Sort.Values.{
  IsOrder, joined, joined-opposite, opposite-opposite, cmp_value-joined, cmp_value-opposite,
}

-- What the loop answers of a key's comparison, and of what the later keys answer.
abbrev decided : Comparison → Result Comparison → Result Comparison
decided c later = elim c [ less ↦ ok less | more ↦ ok more | same ↦ later ]

module _ {x y z : Comparison} {first second third : Result Comparison} where
  decided-joined :
      (p q : Comparison)
      → decided p first ≡ ok x
      → decided q second ≡ ok y
      → joined x y ≡ some z
      → (first ≡ ok x → second ≡ ok y → third ≡ ok z)
      → (s : Comparison) × (joined p q ≡ some s) × (decided s third ≡ ok z)
  decided-joined less less h k j later = (less, refl, ground arith)
  decided-joined less same h k j later = (less, refl, ground arith)
  decided-joined less more h k j later = absurd (ground arith)
  decided-joined same less h k j later = (less, refl, ground arith)
  decided-joined same same h k j later = (same, refl, later h k)
  decided-joined same more h k j later = (more, refl, ground arith)
  decided-joined more less h k j later = absurd (ground arith)
  decided-joined more same h k j later = (more, refl, ground arith)
  decided-joined more more h k j later = (more, refl, ground arith)

module _ {x : Comparison} {first second : Result Comparison} where
  decided-opposite :
      (p : Comparison)
      → decided p first ≡ ok x
      → (first ≡ ok x → second ≡ ok (opposite x))
      → decided (opposite p) second ≡ ok (opposite x)
  unfolding opposite
  decided-opposite less h later = ground arith
  decided-opposite same h later = later h
  decided-opposite more h later = ground arith

module _ (F : Floats) (o : IsOrder F) where
  directed-joined :
      (k : SortKey) (x y : Comparison) {z : Comparison}
      → joined (directed k x) (directed k y) ≡ some z
      → (w : Comparison) × (joined x y ≡ some w) × (directed k w ≡ z)
  unfolding directed
  directed-joined k x y {z} h =
      (directed k z, ground (arith, joined-opposite x y z), ground (arith, opposite-opposite z))

  directed-opposite :
      (k : SortKey) (x : Comparison) → directed k (opposite x) ≡ opposite (directed k x)
  unfolding directed opposite
  directed-opposite k less = ground arith
  directed-opposite k same = ground arith
  directed-opposite k more = ground arith

  -- The rows compared by all keys: `Less` asks whether the first is less.
  rows_compare : List SortKey → RowValue → RowValue → Result Comparison
  rows_compare [] v1 v2 = ok same
  rows_compare (k ∷ ks) v1 v2 = do
    a ← index_at v1 k.column
    b ← index_at v2 k.column
    c ← cmp_value F a b
    elim (directed k c) [ less ↦ ok less | more ↦ ok more | same ↦ rows_compare ks v1 v2 ]

  abbrev is_less : Comparison → Bool
  is_less less = true
  is_less same = false
  is_less more = false

  rows_less-compare :
      (ks : List SortKey) (v1 v2 : RowValue)
      → rows_less F ks v1 v2 ≡ (rows_compare ks v1 v2 >>= λ c. ok (is_less c))
  unfolding rows_less rows_compare
  rows_less-compare [] v1 v2 = refl
  rows_less-compare (k ∷ ks) v1 v2 = ground (arith, rows_less-compare ks v1 v2)

  compare_by_key :
      (k : SortKey) (ks : List SortKey) (v1 v2 : RowValue) {a b : Value} {c : Comparison}
      {r : Result Comparison}
      → index_at v1 k.column ≡ ok a
      → index_at v2 k.column ≡ ok b
      → cmp_value F a b ≡ ok c
      → decided (directed k c) (rows_compare ks v1 v2) ≡ r
      → rows_compare (k ∷ ks) v1 v2 ≡ r
  unfolding rows_compare
  compare_by_key k ks v1 v2 at_1 at_2 compared h = rw (at_1, at_2, compared) h

  rows_compare-joined :
      (ks : List SortKey) (u v w : RowValue) (x y : Comparison) {z : Comparison}
      → rows_compare ks u v ≡ ok x
      → rows_compare ks v w ≡ ok y
      → joined x y ≡ some z
      → rows_compare ks u w ≡ ok z
  unfolding rows_compare
  rows_compare-joined [] u v w x y h h' j = cc
  rows_compare-joined (k ∷ ks) u v w x y h h' j =
      let (a, at_u, h) = >>=-eq-ok (index_at u k.column) _ h in
      let (b, at_v, h) = >>=-eq-ok (index_at v k.column) _ h in
      let (c, cmp_u, h) = >>=-eq-ok (cmp_value F a b) _ h in
      let (b', at_v', h') = >>=-eq-ok (index_at v k.column) _ h' in
      let (d, at_w, h') = >>=-eq-ok (index_at w k.column) _ h' in
      let (e, cmp_w, h') = >>=-eq-ok (cmp_value F b' d) _ h' in
      let same_b : b' ≡ b = cc in
      let (s, joins, answers) =
        decided-joined (directed k c) (directed k e) h h' j
          (λ p q. rows_compare-joined ks u v w x y p q j) in
      let (t, joins', is_s) = directed-joined k c e joins in
      let compared : cmp_value F a d ≡ ok t =
        cmp_value-joined F o a b d cmp_u (ap (λ f. cmp_value F f d) (sym same_b) ∙ cmp_w) joins' in
      compare_by_key k ks u w at_u at_w compared
        (ap (λ g. decided g (rows_compare ks u w)) is_s ∙ answers)

  rows_compare-opposite :
      (ks : List SortKey) (u v : RowValue) {x : Comparison}
      → rows_compare ks u v ≡ ok x
      → rows_compare ks v u ≡ ok (opposite x)
  unfolding rows_compare
  rows_compare-opposite [] u v h = unfold opposite in cc
  rows_compare-opposite (k ∷ ks) u v {x} h =
      let (a, at_u, h) = >>=-eq-ok (index_at u k.column) _ h in
      let (b, at_v, h) = >>=-eq-ok (index_at v k.column) _ h in
      let (c, cmp_u, h) = >>=-eq-ok (cmp_value F a b) _ h in
      compare_by_key k ks v u at_v at_u (cmp_value-opposite F o a b cmp_u) (
        ap (λ g. decided g (rows_compare ks v u)) (directed-opposite k c)
        ∙ decided-opposite (directed k c) h (λ p. rows_compare-opposite ks u v p))

  compare_of_less :
      (ks : List SortKey) (u v : RowValue) (b : Bool)
      → rows_less F ks u v ≡ ok b
      → (c : Comparison) × (rows_compare ks u v ≡ ok c) × (is_less c ≡ b)
  compare_of_less ks u v b h =
      let (c, e, is) = >>=-eq-ok (rows_compare ks u v) _ (sym (rows_less-compare ks u v) ∙ h) in
      (c, e, ok-injective is)

  less_of_compare :
      (ks : List SortKey) (u v : RowValue) (c : Comparison) (b : Bool)
      → rows_compare ks u v ≡ ok c
      → is_less c ≡ b
      → rows_less F ks u v ≡ ok b
  less_of_compare ks u v c b h is = rows_less-compare ks u v ∙ rw h (ap ok is)

  joined-less :
      (x y : Comparison)
      → is_less x ≡ is_less y
      → (z : Comparison) × (joined x y ≡ some z) × (is_less z ≡ is_less x)
  joined-less less less h = (less, refl, refl)
  joined-less less same h = absurd (ground arith)
  joined-less less more h = absurd (ground arith)
  joined-less same y h = (y, refl, sym h)
  joined-less more less h = absurd (ground arith)
  joined-less more same h = (more, refl, refl)
  joined-less more more h = (more, refl, refl)

  -- Two answers of `Less` that agree are the answer for the outer rows.
  rows_less-agree :
      (ks : List SortKey) (u v w : RowValue) (b : Bool)
      → rows_less F ks u v ≡ ok b
      → rows_less F ks v w ≡ ok b
      → rows_less F ks u w ≡ ok b
  rows_less-agree ks u v w b h k =
      let (x, cx, is_x) = compare_of_less ks u v b h in
      let (y, cy, is_y) = compare_of_less ks v w b k in
      let (z, joins, is_z) = joined-less x y (is_x ∙ sym is_y) in
      less_of_compare ks u w z b (rows_compare-joined ks u v w x y cx cy joins) (is_z ∙ is_x)

  rows_less-asym :
      (ks : List SortKey) (u v : RowValue) (b : Bool)
      → rows_less F ks u v ≡ ok b
      → (rows_less F ks v u >>= λ c. ok (b && c)) ≡ ok false
  unfolding opposite
  rows_less-asym ks u v b h =
      let (x, cx, is_x) = compare_of_less ks u v b h in
      rw (less_of_compare ks v u (opposite x) _ (rows_compare-opposite ks u v cx) refl)
        (ground arith)

-- Where the floating-point numbers are ordered, Less is a strict order up to ties on the rows that it
-- compares: when it gives the same answer on `u` and `v` as on `v` and `w`, it gives that answer on `u`
-- and `w`, and it does not call both `u` less than `v` and `v` less than `u`.
pub rows_less-order :
    (F : Floats)
    → IsOrder F
    → (ks : List SortKey) (u v w : RowValue) (b : Bool) → rows_less F ks u v ≡ ok b
    → rows_less F ks v w ≡ ok b
    → (rows_less F ks u w ≡ ok b) × ((rows_less F ks v u >>= λ c. ok (b && c)) ≡ ok false)
rows_less-order F o ks u v w b h k =
    (rows_less-agree F o ks u v w b h k, rows_less-asym F o ks u v b h)
