-- ===== src/Mysql/Packet/Streams.antt =====
-- mysql/packetio.go: how the bytes that `WritePacket` sends begin and go on, for the reader's cases.
use cm.Common.{
  ℕ, zero, suc, ◌+◌, ◌*◌, ◌/◌, ◌%◌, ◌^◌, ◌≤◌, ◌<◌, ◌≡◌, refl, ap, sym, ◌∙◌, List, [], ◌∷◌, ◌++◌,
  length, take, drop, leb, true, false, Bool-cases, inl, inr, length-drop, length-append,
  take-append, drop-append, IsByte, arith,
}
use mathlib.Core.List.{append-nil}
use cm.Mysql.Packet.{next}
use cm.Mysql.Packet.Wire.{wire}

-- All packets of a payload, under sequence numbers from `s` on.
abbrev pub wire_at : ℕ → ℕ → List ℕ → List ℕ
wire_at max s payload = wire max (suc (length payload)) s payload

-- The length that a header announces.
abbrev pub announced : ℕ → ℕ → ℕ → ℕ
announced a b c = a + 2 ^ 8 * b + 2 ^ 16 * c

abbrev pub IsMax : ℕ → Type 0
IsMax max = announced 255 255 255 ≡ max

pub blank : ℕ → List ℕ
blank zero = []
blank (suc n) = 0 ∷ blank n

pub length-blank : (n : ℕ) → length (blank n) ≡ n
unfolding blank
length-blank zero = refl
length-blank (suc n) = ap suc (length-blank n)

take-all : (xs : List ℕ) → take (length xs) xs ≡ xs
take-all [] = refl
take-all (x ∷ xs) = ap (◌∷◌ x) (take-all xs)

wire-fuel :
    (max f g s : ℕ) (payload : List ℕ)
    → 0 < max
    → length payload < f
    → length payload < g
    → wire max f s payload ≡ wire max g s payload
unfolding wire
wire-fuel max zero g s payload m h k = absurd (omega arith)
wire-fuel max (suc f) zero s payload m h k = absurd (omega arith)
wire-fuel max (suc f) (suc g) s payload m h k = elim (Bool-cases (leb max (length payload))) [
  | inr e ↦ rw e refl
  | inl e ↦
      let less : length (drop max payload) < length payload =
        ground (arith, length-drop max payload) in
      rw
        (
          e,
          wire-fuel max f g (next s) (drop max payload) m (omega (arith, less))
              (omega (arith, less)),
        )
        refl
]

module _ (max : ℕ) (m : IsMax max) where
  -- The one packet of a short payload.
  pub wire-last :
      (s a b c : ℕ) (payload : List ℕ)
      → IsByte a
      → IsByte b
      → IsByte c
      → length payload ≡ announced a b c
      → length payload < max
      → wire_at max s payload ≡ a ∷ b ∷ c ∷ s ∷ payload
  unfolding wire
  wire-last s a b c payload ha hb hc n small =
      let e : leb max (length payload) ≡ false = ground arith in
      let low : length payload % 256 ≡ a = omega arith in
      let mid : length payload / 2 ^ 8 % 256 ≡ b = omega arith in
      let high : length payload / 2 ^ 16 % 256 ≡ c = omega arith in rw (e, low, mid, high) refl

  -- A full packet in front of the packets of the rest.
  pub wire-full :
      (s : ℕ) (part payload : List ℕ)
      → length part ≡ max
      → wire_at max s (part ++ payload)
        ≡ 255 ∷ 255 ∷ 255 ∷ s ∷ (part ++ wire_at max (next s) payload)
  unfolding wire
  wire-full s part payload h =
      let long : length (part ++ payload) ≡ max + length payload =
        omega (arith, length-append part payload, h) in
      let e : leb max (length (part ++ payload)) ≡ true = ground (arith, long) in
      let taken : take max (part ++ payload) ≡ part =
        ap (λ k. take k (part ++ payload)) (sym h) ∙ take-append part payload in
      let left : drop max (part ++ payload) ≡ payload =
        ap (λ k. drop k (part ++ payload)) (sym h) ∙ drop-append part payload in
      let more =
        wire-fuel max (length (part ++ payload)) (suc (length payload)) (next s) payload
          (omega arith) (omega (arith, long)) (omega arith) in
      rw (e, taken, left) (ap (λ w. 255 ∷ 255 ∷ 255 ∷ s ∷ (part ++ w)) more)

  -- Under a header that announces the payload's length the packets hold the payload.
  pub wire-starts :
      (s a b c : ℕ) (payload : List ℕ)
      → IsByte a
      → IsByte b
      → IsByte c
      → length payload ≡ announced a b c
      → (tail : List ℕ) × (wire_at max s payload ≡ a ∷ b ∷ c ∷ s ∷ (payload ++ tail))
  wire-starts s a b c payload ha hb hc n = elim (Bool-cases (leb max (length payload))) [
    | inr e ↦ (
      [],
      wire-last s a b c payload ha hb hc n (ground arith)
          ∙ ap (λ w. a ∷ b ∷ c ∷ s ∷ w) (sym (append-nil payload)),
    )
    | inl e ↦
        let big : max ≤ length payload = ground arith in
        let full : length payload ≡ max = omega arith in
        let low : 255 ≡ a = omega arith in
        let mid : 255 ≡ b = omega arith in
        let high : 255 ≡ c = omega arith in
        (
          wire_at max (next s) [],
          ap (wire_at max s) (sym (append-nil payload))
              ∙ wire-full s payload [] full
              ∙ (λ i. low i ∷ mid i ∷ high i ∷ s ∷ (payload ++ wire_at max (next s) [])),
        )
  ]
