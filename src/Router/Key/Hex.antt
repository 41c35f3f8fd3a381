-- ===== src/Router/Key/Hex.antt =====
-- router/key.go: hexadecimal ids are read back, and a uint64 keeps its order as a key.
use cm.Common.{
  ℕ, ◌+◌, ◌*◌, ◌/◌, ◌%◌, ◌<◌, ◌≤◌, ◌≡◌, refl, ap, ◌∙◌, List, [], ◌∷◌, Bool, false, ok, ltb, All,
  IsByte, IsU64, arith, lex_lt, ◌^◌, ◌==◌, ◌&&◌, ◌||◌,
}
use native.Mathlib.Nat.{mod-eq_of_lt, mod-lt, div-add-mod, mul-add-mod_self_left}
use cm.Router.Key.{hex, unhex, hex_digit, hex_value, uint64_key_string}

hex_value-hex_digit : (d : ℕ) → d < 16 → hex_value (hex_digit d) ≡ ok d
unfolding hex_value hex_digit
hex_value-hex_digit d h = ground arith

-- `Unhex` reads back what `Hex` prints, for every string of bytes.
pub unhex-hex : (k : List ℕ) → All IsByte k → unhex (hex k) ≡ ok k
unfolding hex unhex
unhex-hex [] h = refl
unhex-hex (b ∷ bs) h =
    ground (arith, hex_value-hex_digit (b / 16), hex_value-hex_digit (b % 16), unhex-hex bs h.1)

abbrev digits_lt : ℕ → ℕ → Bool → Bool
digits_lt a b rest = ltb a b || (a == b && rest)

mul_gap : (a b m : ℕ) → a < b → m * a + m ≤ m * b
mul_gap a b m h = grind arith

-- One more byte in front of what is compared already.
more_digits :
    (a b x y i j m : ℕ)
    → x < m
    → y < m
    → i ≡ m * a + x
    → j ≡ m * b + y
    → digits_lt a b (ltb x y) ≡ ltb i j
more_digits a b x y i j m p q r s = ground (arith, mul_gap a b m, mul_gap b a m)

mod-mul : (i m : ℕ) → 0 < m → i % (m * 256) ≡ m * (i / m % 256) + i % m
mod-mul i m h =
    let q = i / m in
    let t = m * (q % 256) + i % m in
    let small : t < m * 256 = grind (arith, mul_gap (q % 256) 256 m (omega arith), mod-lt i h) in
    let whole : i ≡ m * 256 * (q / 256) + t =
      omega (arith, div-add-mod i m, ap (λ (x : ℕ). m * x) (div-add-mod q 256)) in
    ap (λ n. n % (m * 256)) whole ∙ mul-add-mod_self_left (m * 256) (q / 256) t ∙ mod-eq_of_lt small

digits_at :
    (m i j : ℕ)
    → 0 < m
    → digits_lt (i / m % 256) (j / m % 256) (ltb (i % m) (j % m))
      ≡ ltb (i % (m * 256)) (j % (m * 256))
digits_at m i j h =
    more_digits _ _ (i % m) (j % m) _ _ m (mod-lt i h) (mod-lt j h) (mod-mul i m h) (mod-mul j m h)

-- Keys compare as strings the way their numbers compare.
pub uint64_key_string-lt :
    (i j : ℕ) → IsU64 i → IsU64 j → lex_lt (uint64_key_string i) (uint64_key_string j) ≡ ltb i j
unfolding uint64_key_string lex_lt
uint64_key_string-lt i j h k =
    let e : digits_lt (i % 256) (j % 256) false ≡ ltb (i % 256) (j % 256) = ground arith in
    rw (
      e,
      digits_at (2 ^ 8) i j (omega arith),
      digits_at (2 ^ 16) i j (omega arith),
      digits_at (2 ^ 24) i j (omega arith),
      digits_at (2 ^ 32) i j (omega arith),
      digits_at (2 ^ 40) i j (omega arith),
      digits_at (2 ^ 48) i j (omega arith),
      digits_at (2 ^ 56) i j (omega arith),
      mod-eq_of_lt h,
      mod-eq_of_lt k,
    )
