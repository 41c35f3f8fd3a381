-- ===== src/Router/Shard/Partition.antt =====
-- router/shard.go: over a chain of ranges, `FindForKey` finds the only range that holds the key.
use cm.Common.{
  ℕ, zero, suc, ◌+◌, ◌<◌, ◌≤◌, ◌≡◌, ◌≢◌, ◌⊎◌, refl, ◌∙◌, ap, inl, inr, List, [], ◌∷◌, get_elem?,
  ltb, ◌==◌, true, false, some, ok, arith, Bool-cases,
}
use cm.Router.NumKey.{NumKeyRange, contains, max_num_key, parse_num_sharding_spec}
use cm.Router.NumKey.Chain.{Chain, chain_end, parse_num_sharding_spec-Chain}
use cm.Router.Shard.{Value, num_value, find_from, num_find_for_key}

-- A chain that starts above a key does not hold it.
below-Chain :
    (lo v : ℕ) (rs : List NumKeyRange)
    → Chain lo rs
    → v < lo
    → (j : ℕ) (r : NumKeyRange) → get_elem? rs j ≡ some r
    → contains r v ≡ false
unfolding contains
below-Chain lo v [] c h j r e = cc
below-Chain lo v (x ∷ xs) c h zero r e = ground arith
below-Chain lo v (x ∷ xs) c h (suc j) r e = below-Chain x.end v xs c.3 (omega arith) j r e

-- The key lies within the chain. The last range takes the largest int64 in if it ends there.
abbrev Within : ℕ → ℕ → List NumKeyRange → Type 0
Within lo v rs = (lo ≤ v) × ((v < chain_end lo rs) ⊎ (chain_end lo rs ≡ max_num_key)) × (rs ≢ [])

-- `i` is the index of the only range that holds the key, and `find_from` finds it.
abbrev FindsOnly : ℕ → ℕ → List NumKeyRange → ℕ → Type 0
FindsOnly v k rs i =
    (find_from (λ r. contains r v) k rs ≡ ok (k + i))
    × ((j : ℕ) (r : NumKeyRange) → get_elem? rs j ≡ some r → contains r v ≡ (j == i))

Chain-at_max : (lo : ℕ) (rs : List NumKeyRange) → Chain lo rs → lo ≡ max_num_key → rs ≡ []
Chain-at_max lo [] c e = refl
Chain-at_max lo (r ∷ rs) c e = absurd (omega arith)

-- The ranges behind one that holds the key do not.
behind :
    (v : ℕ) (x : NumKeyRange) (xs : List NumKeyRange)
    → Chain x.end xs
    → contains x v ≡ true
    → (j : ℕ) (r : NumKeyRange) → get_elem? xs j ≡ some r
    → contains r v ≡ false
behind v x xs c here j r e = elim (Bool-cases (ltb v x.end)) [
  | inl below ↦ below-Chain x.end v xs c (ground arith) j r e
  | inr last ↦
      let none_left : xs ≡ [] = Chain-at_max x.end xs c (unfold contains in ground arith) in
      cc (rw none_left at e)
]

only_here :
    (v : ℕ) (x : NumKeyRange) (xs : List NumKeyRange)
    → Chain x.end xs
    → contains x v ≡ true
    → (j : ℕ) (r : NumKeyRange) → get_elem? (x ∷ xs) j ≡ some r
    → contains r v ≡ (j == 0)
only_here v x xs c here zero r e = ground arith
only_here v x xs c here (suc j) r e = behind v x xs c here j r e ∙ ground arith

only_later :
    (v i : ℕ) (x : NumKeyRange) (xs : List NumKeyRange)
    → contains x v ≡ false
    → ((j : ℕ) (r : NumKeyRange) → get_elem? xs j ≡ some r → contains r v ≡ (j == i))
    → (j : ℕ) (r : NumKeyRange) → get_elem? (x ∷ xs) j ≡ some r
    → contains r v ≡ (j == suc i)
only_later v i x xs later only zero r e = ground arith
only_later v i x xs later only (suc j) r e = only j r e ∙ ground arith

-- The key that a chain holds and its first range does not lies in the rest.
Within-rest :
    (lo v : ℕ) (x : NumKeyRange) (xs : List NumKeyRange)
    → Within lo v (x ∷ xs)
    → Chain lo (x ∷ xs)
    → contains x v ≡ false
    → Within x.end v xs
unfolding contains
Within-rest lo v x [] w c later = absurd (ground arith)
Within-rest lo v x (y ∷ ys) w c later = (ground arith, w.1, λ e. cc)

find-Chain :
    (lo v k : ℕ) (rs : List NumKeyRange)
    → Chain lo rs
    → Within lo v rs
    → (i : ℕ) × FindsOnly v k rs i
unfolding find_from
find-Chain lo v k [] c w = absurd (w.2 refl)
find-Chain lo v k (x ∷ xs) c w = elim (Bool-cases (contains x v)) [
  | inl here ↦ (0, (rw here (ap ok (omega arith)), only_here v x xs c.3 here))
  | inr later ↦
      let (i, (found, only)) =
        find-Chain x.end v (k + 1) xs c.3 (Within-rest lo v x xs w c later) in
      (suc i, (rw later (found ∙ ap ok (omega arith)), only_later v i x xs later only))
]

-- The key lies between the first limit and the last.
abbrev Covers : List NumKeyRange → ℕ → Type 0
Covers [] v = ⊥
Covers (r ∷ rs) v = (r.start ≤ v) × ((v < chain_end r.end rs) ⊎ (chain_end r.end rs ≡ max_num_key))

Within-Covers : (lo v : ℕ) (rs : List NumKeyRange) → Chain lo rs → Covers rs v → Within lo v rs
Within-Covers lo v [] c w = absurd w
Within-Covers lo v (r ∷ rs) c w = (omega arith, w.1, λ e. cc)

-- Under the ranges of an accepted spec, a key between the first limit and the last belongs to one
-- range and no other, and `FindForKey` answers its index. The largest int64 belongs to the last
-- range where that ends at `MaxNumKey`.
pub num_find_for_key-partition :
    (spec : List ℕ) (shards : List NumKeyRange) (key : Value) (v : ℕ)
    → parse_num_sharding_spec spec ≡ ok shards
    → num_value key ≡ ok v
    → Covers shards v
    → (i : ℕ) × (num_find_for_key shards key ≡ ok i)
      × ((j : ℕ) (r : NumKeyRange) → get_elem? shards j ≡ some r → contains r v ≡ (j == i))
unfolding num_find_for_key
num_find_for_key-partition spec shards key v parsed value covers =
    let (lo, chain, _, _) = parse_num_sharding_spec-Chain spec shards parsed in
    let (i, (found, only)) =
      find-Chain lo v 0 shards chain (Within-Covers lo v shards chain covers) in
    (i, rw value (found ∙ ap ok (omega arith)), only)
