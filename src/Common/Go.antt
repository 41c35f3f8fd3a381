-- ===== src/Common/Go.antt =====
-- Go's outcomes: a value, an error that the caller sees, or a run-time panic.
-- A byte slice is a list of numbers below 256. An `int` is its 64-bit pattern: a pattern of
-- 2^63 or more is a negative number, which no slice bound allows.
use Prim.Native.Nat.{ℕ, ◌+◌, ◌-◌, ◌^◌, ◌<◌}
use mathlib.Core.Path.{◌≡◌, refl, ap}
use mathlib.Core.Bool.{Bool, ◌&&◌}
use mathlib.Core.List.{List, ◌++◌}
use mathlib.Core.Option.{none, some}
use native.Mathlib.Omega.{arith}
use cm.Common.Tests.{leb, if◌then◌else◌}
use cm.Common.Lists.{length, take, drop, get_elem?, length-append, drop-append, take-append}

pub data Error : Type 0 where
  eof malform_packet bad_conn invalid_length invalid_sequence unknown_type : Error
  bad_hex bad_number malformed_spec no_overlap key_error : Error
  missing_bind_var unexpected_list empty_list unexpected_arg unsupported_type : Error
  no_rows column_count unexpected_node negative_limit table_not_found column_not_found : Error
  row_subquery too_complex invalid_sql invalid_autocommit : Error

pub data Result {u} (A : Type u) : Type u where
  panic : Result A
  err : Error → Result A
  ok : A → Result A

infixl 5 ◌>>=◌
abbrev pub ◌>>=◌ {u v} : {B : Type v} {A : Type u} → Result A → (A → Result B) → Result B
panic >>= next = panic
err e >>= next = err e
ok a >>= next = next a

abbrev pub IsByte : ℕ → Type 0
IsByte b = b < 256

abbrev pub IsU64 : ℕ → Type 0
IsU64 n = n < 2 ^ 64

-- The sign of an `int`.
abbrev pub is_negative : ℕ → Bool
is_negative n = leb (2 ^ 63) n

-- `b[i]`
abbrev pub index_at {ℓ} : {A : Type ℓ} → List A → ℕ → Result A
index_at xs i = elim (get_elem? xs i) [ none ↦ panic | some x ↦ ok x ]

-- `b[lo:hi]`
unfoldable pub slice : List ℕ → ℕ → ℕ → Result (List ℕ)
slice b lo hi = if leb lo hi && leb hi (length b) then ok (take (hi - lo) (drop lo b)) else panic

-- `b[lo:]`
unfoldable pub slice_from : List ℕ → ℕ → Result (List ℕ)
slice_from b lo = if leb lo (length b) then ok (drop lo b) else panic

pub slice-append :
    (head b rest : List ℕ)
    → slice (head ++ (b ++ rest)) (length head) (length head + length b) ≡ ok b
unfolding slice
slice-append head b rest = ground (
  arith,
  length-append head (b ++ rest),
  length-append b rest,
  drop-append head (b ++ rest),
  take-append b rest,
  λ (e : length head + length b - length head ≡ length b). ap (λ n. take n (b ++ rest)) e,
)

-- A chain that answers has its first step answer.
pub >>=-eq-ok {u v} :
    {B : Type v} {A : Type u} {b : B} (r : Result A) (next : A → Result B)
    → (r >>= next) ≡ ok b
    → (a : A) × (r ≡ ok a) × (next a ≡ ok b)
>>=-eq-ok panic next e = cc
>>=-eq-ok (err _) next e = cc
>>=-eq-ok (ok a) next e = (a, refl, e)

pub ok-injective {ℓ} : {A : Type ℓ} {a b : A} → ok a ≡ ok b → a ≡ b
ok-injective h = cc

pub >>=-assoc {u v w} :
    {C : Type w} {B : Type v} {A : Type u} (r : Result A) (f : A → Result B) (g : B → Result C)
    → ((r >>= f) >>= g) ≡ (r >>= λ a. f a >>= g)
>>=-assoc panic f g = refl
>>=-assoc (err e) f g = refl
>>=-assoc (ok a) f g = refl
