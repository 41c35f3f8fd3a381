-- ===== src/Router/NumKey/Chain.antt =====
-- router/numkey.go: the ranges of an accepted sharding spec follow one another without a gap.
use cm.Common.{
  ℕ, suc, ◌+◌, ◌<◌, ◌≤◌, ◌≡◌, refl, List, [], ◌∷◌, length, ltb, leb, ◌&&◌, Result, ok, err, panic,
  ◌=?◌, split, arith, Bool-cases, inl, inr, ◌≢◌, sym, ap, >>=-eq-ok, ok-injective,
}
use cm.Router.NumKey.{
  NumKeyRange, min_num_key, max_num_key, limit, parse_int, parse_limits, parse_parts,
  parse_num_sharding_spec, positive, negative, magnitude,
}

-- Each range starts where the one before it ends, and none is empty.
abbrev pub Chain : ℕ → List NumKeyRange → Type 0
Chain lo [] = Unit {0}
Chain lo (r ∷ rs) = (r.start ≡ lo) × (lo < r.end) × (r.end ≤ max_num_key) × Chain r.end rs

-- Where a chain ends.
abbrev pub chain_end : ℕ → List NumKeyRange → ℕ
chain_end lo [] = lo
chain_end lo (r ∷ rs) = chain_end r.end rs

positive-le : (r : Result ℕ) (v : ℕ) → positive r ≡ ok v → v ≤ max_num_key
unfolding positive
positive-le (ok n) v e = ground arith
positive-le (err x) v e = cc
positive-le panic v e = cc

negative-le : (r : Result ℕ) (v : ℕ) → negative r ≡ ok v → v ≤ max_num_key
unfolding negative
negative-le (ok n) v e = ground arith
negative-le (err x) v e = cc
negative-le panic v e = cc

parse_int-le : (s : List ℕ) (v : ℕ) → parse_int s ≡ ok v → v ≤ max_num_key
unfolding parse_int
parse_int-le [] v e = cc
parse_int-le (c ∷ cs) v e = ground (
  arith,
  negative-le (magnitude cs) v,
  positive-le (magnitude cs) v,
  positive-le (magnitude (c ∷ cs)) v,
)

limit-le : (d : ℕ) (p : List ℕ) (v : ℕ) → d ≤ max_num_key → limit d p ≡ ok v → v ≤ max_num_key
limit-le d [] v h e = ground arith
limit-le d (c ∷ cs) v h e = parse_int-le (c ∷ cs) v e

-- One limit that is accepted.
parse_limits-cons :
    (old : ℕ) (p : List ℕ) (ps : List (List ℕ)) (krs : List NumKeyRange)
    → parse_limits old (p ∷ ps) ≡ ok krs
    → (n : ℕ) × (more : List NumKeyRange) × (limit max_num_key p ≡ ok n)
      × (old < n)
      × (parse_limits n ps ≡ ok more)
      × (krs ≡ record { start = old; end = n } ∷ more)
unfolding parse_limits
parse_limits-cons old p ps krs e = elim (Bool-cases (p =? [] && ltb 0 (length ps))) [
  | inl bad ↦ cc (rw bad at e)
  | inr good ↦
      let (n, el, e') = >>=-eq-ok (limit max_num_key p) _ (rw good at e) in
      elim (Bool-cases (leb n old)) [
        | inl bad ↦ cc (rw bad at e')
        | inr less ↦
            let (more, em, e'') = >>=-eq-ok (parse_limits n ps) _ (rw less at e') in
            (n, more, el, ground arith, em, sym (ok-injective e''))
      ]
]

parse_limits-Chain :
    (old : ℕ) (ps : List (List ℕ)) (krs : List NumKeyRange)
    → parse_limits old ps ≡ ok krs
    → Chain old krs × (length krs ≡ length ps)
parse_limits-Chain old [] [] e = (tt, refl)
parse_limits-Chain old [] (r ∷ krs) e = unfold parse_limits in cc
parse_limits-Chain old (p ∷ ps) krs e =
    let (n, more, el, less, em, eq) = parse_limits-cons old p ps krs e in
    let (chain, len) = parse_limits-Chain n ps more em in
    rw eq ((refl, less, limit-le max_num_key p n (omega arith) el, chain), ap suc len)

parse_parts-Chain :
    (ps : List (List ℕ)) (krs : List NumKeyRange)
    → parse_parts ps ≡ ok krs
    → (lo : ℕ) × Chain lo krs × (length krs + 1 ≡ length ps) × (krs ≢ [])
unfolding parse_parts
parse_parts-Chain [] krs e = cc
parse_parts-Chain (p ∷ []) krs e = cc
parse_parts-Chain (first ∷ p ∷ ps) krs e =
    let (old, _, e') = >>=-eq-ok (limit min_num_key first) _ e in
    let (chain, len) = parse_limits-Chain old (p ∷ ps) krs e' in
    (old, chain, omega (arith, len), λ z. absurd (omega (arith, len, ap length z)))

-- The ranges of an accepted spec follow one another without a gap, none is empty, and there is one
-- for each limit but the first.
pub parse_num_sharding_spec-Chain :
    (spec : List ℕ) (krs : List NumKeyRange)
    → parse_num_sharding_spec spec ≡ ok krs
    → (lo : ℕ) × Chain lo krs × (length krs + 1 ≡ length (split b'-' spec)) × (krs ≢ [])
unfolding parse_num_sharding_spec
parse_num_sharding_spec-Chain spec krs e = parse_parts-Chain (split b'-' spec) krs e
