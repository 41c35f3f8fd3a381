-- ===== src/Mysql/LenEnc/Bounds.antt =====
-- mysql/util.go: when the readers panic, and how many bytes they take.
use cm.Common.{
  ℕ, zero, suc, ◌+◌, ◌*◌, ◌<◌, ◌≤◌, ◌≡◌, refl, none, some, List, [], ◌∷◌, length, ok, panic, slice,
  arith, get_elem?, ◌==◌, if◌then◌else◌, ◌>>=◌, index_at, inl, inr, ◌≢◌, ◌↔◌, ◌⊎◌,
}
use cm.Mysql.LenEnc.{
  LenEncInt, length_encoded_int, length_enoded_string, sub_string, skip_length_enoded_string,
  little_endian,
}

get_elem?-cases :
    {A : Type 0} (b : List A) (i : ℕ)
    → ((length b ≤ i) × (get_elem? b i ≡ none))
      ⊎ ((i < length b) × ((x : A) × (get_elem? b i ≡ some x)))
get_elem?-cases [] i = inl (omega arith, refl)
get_elem?-cases (x ∷ b) zero = inr (omega arith, (x, refl))
get_elem?-cases (x ∷ b) (suc i) = elim (get_elem?-cases b i) [
  | inl (h, e) ↦ inl (omega arith, e)
  | inr (h, e) ↦ inr (omega arith, e)
]

little_endian_short :
    (k : ℕ) (b : List ℕ) (i : ℕ) → length b < i + suc k → little_endian (suc k) b i ≡ panic
unfolding little_endian
little_endian_short zero b i h = ground (arith, get_elem?-cases b i)
little_endian_short (suc k) b i h =
    ground (arith, get_elem?-cases b i, little_endian_short k b (i + 1))

little_endian_long :
    (k : ℕ) (b : List ℕ) (i : ℕ) → i + k ≤ length b → (n : ℕ) × (little_endian k b i ≡ ok n)
unfolding little_endian
little_endian_long zero b i h = (0, refl)
little_endian_long (suc k) b i h = elim (get_elem?-cases b i) [
  | inl (p, e) ↦ absurd (omega arith)
  | inr (p, (x, e)) ↦
      let (n, q) = little_endian_long k b (i + 1) (omega arith) in
      (x + 256 * n, rw (e, index_at, q, little_endian))
]

-- How many bytes the first one announces.
abbrev pub needed : List ℕ → ℕ
needed [] = 1
needed (b ∷ bs) = if b == 0xfc then 3 else if b == 0xfd then 4 else if b == 0xfe then 9 else 1

needed_pos : (b : List ℕ) → 1 ≤ needed b
needed_pos [] = omega arith
needed_pos (b ∷ bs) = ground arith

length_encoded_int_short : (b : List ℕ) → length b < needed b → length_encoded_int b ≡ panic
unfolding length_encoded_int
length_encoded_int_short [] h = refl
length_encoded_int_short (b ∷ bs) h = ground (
  arith,
  little_endian_short 1 (b ∷ bs) 1,
  little_endian_short 2 (b ∷ bs) 1,
  little_endian_short 7 (b ∷ bs) 1,
)

length_encoded_int_long : (b : List ℕ) → needed b ≤ length b → length_encoded_int b ≢ panic
unfolding length_encoded_int
length_encoded_int_long [] h = absurd (omega arith)
length_encoded_int_long (b ∷ bs) h = ground (
  arith,
  little_endian_long 2 (b ∷ bs) 1,
  little_endian_long 3 (b ∷ bs) 1,
  little_endian_long 8 (b ∷ bs) 1,
)

-- `LengthEncodedInt` panics exactly on a slice that ends before the number that it announces.
pub length_encoded_int_panics :
    (b : List ℕ) → (length_encoded_int b ≡ panic) ↔ (length b < needed b)
length_encoded_int_panics b =
    (λ e. ground (arith, length_encoded_int_long b), length_encoded_int_short b)

n-eq-needed : (b : List ℕ) (i : LenEncInt) → length_encoded_int b ≡ ok i → i.n ≡ needed b
unfolding length_encoded_int
n-eq-needed [] i e = cc
n-eq-needed (b ∷ bs) i e = ground arith

pub length_encoded_int_n :
    (b : List ℕ) (i : LenEncInt)
    → length_encoded_int b ≡ ok i
    → (1 ≤ i.n) × (i.n ≡ needed b) × (i.n ≤ length b)
length_encoded_int_n b i e =
    ground (arith, n-eq-needed b i e, needed_pos b, length_encoded_int_short b)

-- `SkipLengthEnodedString` skips what `LengthEnodedString` reads, and fails where it fails.
pub skip_length_enoded_string_lem :
    (b : List ℕ)
    → length_enoded_string b ≢ panic
    → skip_length_enoded_string b ≡ (length_enoded_string b >>= λ s. ok s.n)
unfolding length_enoded_string skip_length_enoded_string sub_string slice
skip_length_enoded_string_lem b h = ground arith
