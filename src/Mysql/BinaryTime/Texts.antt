-- ===== src/Mysql/BinaryTime/Texts.antt =====
-- mysql/util.go: what the texts of dates and times are like.
use cm.Common.{
  ℕ, List, [], ◌∷◌, ◌++◌, get_elem?, ◌≡◌, ◌≢◌, refl, subst, sym, ◌∙◌, ◌⊎◌, inl, inr, ap, arith,
  some, Bool, true, false, ◌==◌, if◌then◌else◌, Result, ok, >>=-eq-ok, ok-injective, index_at,
}
use cm.Mysql.LenEnc.{little_endian}
use cm.Mysql.BinaryTime.{format_binary_time, signed_clock, micros_text, followed, byte_text}

signed_clock-sign :
    (bytes s : List ℕ) (negative : ℕ)
    → signed_clock bytes negative ≡ ok s
    → get_elem? s 0 ≡ some (if negative == 1 then b'-' else 0)
unfolding signed_clock
signed_clock-sign bytes s negative e =
    let (days, _, e1) = >>=-eq-ok (index_at bytes 1) _ e in
    let (hour, _, e2) = >>=-eq-ok (index_at bytes 5) _ e1 in
    let (minutes, _, e3) = >>=-eq-ok (byte_text bytes 6) _ e2 in
    let (seconds, _, e4) = >>=-eq-ok (byte_text bytes 7) _ e3 in
    ap (λ z. get_elem? z 0) (sym (ok-injective e4))

followed-sign :
    (bytes s : List ℕ) (negative : ℕ) (more : Result (List ℕ))
    → followed (signed_clock bytes negative) more ≡ ok s
    → get_elem? s 0 ≡ some (if negative == 1 then b'-' else 0)
followed-sign bytes s negative more e =
    let (a, first, e1) = >>=-eq-ok (signed_clock bytes negative) _ e in
    let (b, _, e2) = >>=-eq-ok more _ e1 in
    ap (λ z. get_elem? z 0) (sym (ok-injective e2))
    ∙ front a b _ (signed_clock-sign bytes a negative first)
  where
    front : (a b : List ℕ) (c : ℕ) → get_elem? a 0 ≡ some c → get_elem? (a ++ b) 0 ≡ some c
    front [] b c h = absurd (cc h)
    front (x ∷ a) b c h = h

if-ok :
    (b : Bool) (x y : Result (List ℕ)) (s : List ℕ)
    → (if b then x else y) ≡ ok s
    → ((b ≡ true) × (x ≡ ok s)) ⊎ ((b ≡ false) × (y ≡ ok s))
if-ok true x y s e = inl (refl, e)
if-ok false x y s e = inr (refl, e)

-- The text of a time that is not of length 0 starts with a minus sign if its first byte is 1, and
-- with a byte 0 otherwise.
pub format_binary_time-sign :
    (n : ℕ) (bytes s : List ℕ) (negative : ℕ)
    → n ≢ 0
    → index_at bytes 0 ≡ ok negative
    → format_binary_time n bytes ≡ ok s
    → get_elem? s 0 ≡ some (if negative == 1 then b'-' else 0)
unfolding format_binary_time
format_binary_time-sign n bytes s negative p first e = elim (if-ok (n == 0) _ _ s e) [
  | inl (z, _) ↦ absurd (p (ground (arith, z)))
  | inr (_, e1) ↦
      (let (b, got, e2) = >>=-eq-ok (index_at bytes 0) _ e1 in
        let same : b ≡ negative = ok-injective (sym got ∙ first) in
        subst (λ z. get_elem? s 0 ≡ some (if z == 1 then b'-' else 0)) same
          (elim (if-ok (n == 8) _ _ s e2) [
            | inl (_, e3) ↦ signed_clock-sign bytes s b e3
            | inr (_, e3) ↦ elim (if-ok (n == 12) _ _ s e3) [
              | inl (_, e4) ↦ followed-sign bytes s b (micros_text bytes 8) e4
              | inr (_, e4) ↦ absurd (cc e4)
            ]
          ]))
]

-- The days of a time are its second byte alone: the three bytes behind it make no difference.
pub format_binary_time-days :
    (n negative days x y z : ℕ) (bytes : List ℕ)
    → format_binary_time n (negative ∷ days ∷ x ∷ y ∷ z ∷ bytes)
      ≡ format_binary_time n (negative ∷ days ∷ 0 ∷ 0 ∷ 0 ∷ bytes)
unfolding format_binary_time signed_clock micros_text byte_text little_endian
format_binary_time-days n negative days x y z bytes = refl
