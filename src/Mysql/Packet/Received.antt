-- ===== src/Mysql/Packet/Received.antt =====
-- mysql/packetio.go: what every answer of `ReadPacket` says of the bytes that have arrived.
use cm.Common.{
  ℕ, ◌%◌, ◌≤◌, ◌≡◌, ◌≢◌, refl, ap, sym, ◌∙◌, some, List, [], ◌∷◌, ◌++◌, length, length-append, eof,
  invalid_length, invalid_sequence, Result, ok, err, arith,
}
use mathlib.Core.List.{append_assoc}
use native.Mathlib.Nat.{mod-eq-sub-mod}
use cm.Mysql.Packet.{PacketIo, Outcome, append_rest, next}
use cm.Mysql.Packet.Streams.{wire_at, announced, IsMax, wire-full}

-- The reader has stopped behind a header that stands where the empty packet would, which a payload
-- that fills its packets ends in.
abbrev pub Stopped : ℕ → PacketIo → PacketIo → List ℕ → Type 0
Stopped max p q header =
    (payload : List ℕ) × (head : List ℕ) × (length payload % max ≡ 0)
    × (wire_at max p.sequence payload ≡ head ++ 0 ∷ 0 ∷ 0 ∷ q.sequence ∷ [])
    × (p.rb ≡ head ++ (header ++ q.rb))

-- What has arrived at the reader `p`, by the answer and the reader `q` that are left.
pub data Received (max : ℕ) (p : PacketIo) : Result (List ℕ) → PacketIo → Type 0 where
  whole :
      {payload : List ℕ} {q : PacketIo}
      → length payload % max ≢ 0
      → p.rb ≡ wire_at max p.sequence payload ++ q.rb
      → Received max p (ok payload) q
  cut :
      {q : PacketIo} (payload rest : List ℕ)
      → q.rb ≡ []
      → rest ≢ []
      → p.rb ++ rest ≡ wire_at max p.sequence payload
      → Received max p (err eof) q
  no_payload :
      {q : PacketIo} (d : ℕ)
      → Stopped max p q (0 ∷ 0 ∷ 0 ∷ d ∷ [])
      → Received max p (err invalid_length) q
  stray :
      {q : PacketIo} (a b c d : ℕ)
      → announced a b c ≢ 0
      → d ≢ q.sequence
      → Stopped max p q (a ∷ b ∷ c ∷ d ∷ [])
      → Received max p (err invalid_sequence) q

abbrev pub Answered : ℕ → PacketIo → Outcome (List ℕ) → Type 0
Answered max p o = (r : Result (List ℕ)) × (q : PacketIo) × (o ≡ some (r, q)) × Received max p r q

module _ (max : ℕ) (m : IsMax max) where
  mod_part :
      (part payload : List ℕ)
      → length part ≡ max
      → length (part ++ payload) % max ≡ length payload % max
  mod_part part payload h =
      let big : max ≤ length (part ++ payload) = omega (arith, length-append part payload, h) in
      mod-eq-sub-mod big ∙ ap (λ k. k % max) (omega (arith, length-append part payload, h))

  Stopped-behind :
      (p q : PacketIo) (part rb header : List ℕ)
      → length part ≡ max
      → p.rb ≡ 255 ∷ 255 ∷ 255 ∷ p.sequence ∷ (part ++ rb)
      → Stopped max (record p { rb = rb; sequence = next p.sequence }) q header
      → Stopped max p q header
  Stopped-behind p q part rb header h e (payload, head, full, sent, arrived) = (
    part ++ payload,
    255 ∷ 255 ∷ 255 ∷ p.sequence ∷ (part ++ head),
    mod_part part payload h ∙ full,
    wire-full max m p.sequence part payload h
        ∙ ap (λ w. 255 ∷ 255 ∷ 255 ∷ p.sequence ∷ w)
            (ap (λ w. part ++ w) sent ∙ sym (append_assoc part head _)),
    e
        ∙ ap (λ w. 255 ∷ 255 ∷ 255 ∷ p.sequence ∷ w)
            (ap (λ w. part ++ w) arrived ∙ sym (append_assoc part head _)),
  )

  -- What the call for the rest says, the call before it says too.
  pub Received-behind :
      (p q : PacketIo) (part rb : List ℕ) (r : Result (List ℕ))
      → length part ≡ max
      → p.rb ≡ 255 ∷ 255 ∷ 255 ∷ p.sequence ∷ (part ++ rb)
      → Received max (record p { rb = rb; sequence = next p.sequence }) r q
      → Answered max p (append_rest part (some (r, q)))
  Received-behind p q part rb _ h e (whole {payload} n arrived) = (
    ok (part ++ payload),
    q,
    refl,
    whole (λ z. n (sym (mod_part part payload h) ∙ z))
        (e
          ∙ ap (λ w. 255 ∷ 255 ∷ 255 ∷ p.sequence ∷ w)
              (ap (λ w. part ++ w) arrived ∙ sym (append_assoc part _ q.rb))
          ∙ ap (λ w. w ++ q.rb) (sym (wire-full max m p.sequence part payload h))),
  )
  Received-behind p q part rb _ h e (cut payload rest none_left some_rest arrived) = (
    err eof,
    q,
    refl,
    cut (part ++ payload) rest none_left some_rest (
        ap (λ w. w ++ rest) e
        ∙ ap (λ w. 255 ∷ 255 ∷ 255 ∷ p.sequence ∷ w)
            (append_assoc part rb rest ∙ ap (λ w. part ++ w) arrived)
        ∙ sym (wire-full max m p.sequence part payload h)),
  )
  Received-behind p q part rb _ h e (no_payload d s) = (
    err invalid_length,
    q,
    refl,
    no_payload d (Stopped-behind p q part rb (0 ∷ 0 ∷ 0 ∷ d ∷ []) h e s),
  )
  Received-behind p q part rb _ h e (stray a b c d n other s) = (
    err invalid_sequence,
    q,
    refl,
    stray a b c d n other (Stopped-behind p q part rb (a ∷ b ∷ c ∷ d ∷ []) h e s),
  )
