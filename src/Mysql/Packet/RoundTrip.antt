-- ===== src/Mysql/Packet/RoundTrip.antt =====
-- mysql/packetio.go: what `ReadPacket` makes of the bytes that `WritePacket` sends.
use cm.Common.{
  false, ap, ◌∙◌, ℕ, zero, suc, ◌+◌, ◌-◌, ◌*◌, ◌/◌, ◌%◌, ◌^◌, ◌≤◌, ◌<◌, ◌≡◌, ◌≢◌, refl, some, List,
  [], ◌∷◌, ◌++◌, length, take, drop, leb, ◌==◌, if◌then◌else◌, Bool-cases, inl, inr, length-drop,
  length-take, length-append, take-append, drop-append, take-append-drop, IsByte, ok, err,
  invalid_length, arith,
}
use mathlib.Core.List.{append_assoc}
use native.Mathlib.Nat.{mod-eq-sub-mod, mod-eq_of_lt}
use cm.Mysql.Packet.{
  PacketIo, Outcome, append_rest, max_payload_len, next, read_loop, read_one, read_packet,
  write_packet,
}
use cm.Mysql.Packet.Wire.{wire, packets, write_loop-wire}
use cm.Mysql.Packet.Streams.{IsMax}

-- The input once `part` is read.
abbrev after_part : PacketIo → List ℕ → PacketIo
after_part p more = record p { rb = more; sequence = next p.sequence }

-- One call on a whole packet whose header announces `part`.
read_one-packet :
    (max a b c : ℕ) (k : PacketIo → Outcome (List ℕ)) (p : PacketIo) (part more : List ℕ)
    → a + 2 ^ 8 * b + 2 ^ 16 * c ≡ length part
    → read_one max k (record p { rb = a ∷ b ∷ c ∷ p.sequence ∷ (part ++ more) }) ≡ (
        if length part == 0
        then some (err invalid_length, record p { rb = part ++ more })
        else if leb max (length part)
        then append_rest part (k (after_part p more))
        else some (ok part, after_part p more))
unfolding read_one
read_one-packet max a b c k p part more h =
    rw (h, take-append, drop-append) (ground (arith, length-append part more))

-- A full packet, and the call for what follows it.
read_full :
    (max fuel r : ℕ) (p : PacketIo) (payload rest : List ℕ)
    → IsMax max
    → max ≤ length payload
    → read_loop max (suc r) (record p { rb = wire max (suc fuel) p.sequence payload ++ rest })
      ≡ append_rest (take max payload) (
          read_loop max r
            (after_part p (wire max fuel (next p.sequence) (drop max payload) ++ rest)))
unfolding read_loop wire
read_full max fuel r p payload rest m big =
    let part = take max payload in
    let more = wire max fuel (next p.sequence) (drop max payload) in
    let len : length part ≡ max = omega (arith, length-take max payload) in
    ground (
      arith,
      append_assoc part more rest,
      len,
      read_one-packet max 255 255 255 (read_loop max r) p part (more ++ rest),
    )

-- The last packet, if it is not empty, and if it is.
read_last :
    (max fuel r : ℕ) (p : PacketIo) (payload rest : List ℕ)
    → IsMax max
    → length payload < max
    → read_loop max (suc r) (record p { rb = wire max (suc fuel) p.sequence payload ++ rest }) ≡ (
        if length payload == 0
        then some (err invalid_length, record p { rb = rest })
        else some (ok payload, after_part p rest))
unfolding read_loop wire
read_last max fuel r p [] rest m small =
    ground (arith, read_one-packet max 0 0 0 (read_loop max r) p [] rest)
read_last max fuel r p (x ∷ xs) rest m small =
    let n = length (x ∷ xs) in
    let short : leb max n ≡ false = ground arith in
    let sum : n % 256 + 2 ^ 8 * (n / 2 ^ 8 % 256) + 2 ^ 16 * (n / 2 ^ 16 % 256) ≡ n = omega arith in
    rw short (read_one-packet max _ _ _ (read_loop max r) p (x ∷ xs) rest sum ∙ ground arith)

-- The reader after the packets of `payload`.
abbrev after_read : ℕ → PacketIo → List ℕ → PacketIo
after_read k p rest = record p { rb = rest; sequence = (p.sequence + k) % 256 }

packets_pos :
    (max fuel : ℕ) (payload : List ℕ) → length payload < fuel → 1 ≤ packets max fuel payload
unfolding packets
packets_pos max zero payload h = absurd (omega arith)
packets_pos max (suc fuel) payload h = ground arith

module _ (max : ℕ) (m : IsMax max) where
  read_wire :
      (fuel r : ℕ) (p : PacketIo) (payload rest : List ℕ)
      → length payload < fuel
      → packets max fuel payload ≤ r
      → length payload % max ≢ 0
      → IsByte p.sequence
      → read_loop max r (record p { rb = wire max fuel p.sequence payload ++ rest })
        ≡ some (ok payload, after_read (packets max fuel payload) p rest)
  unfolding packets
  read_wire zero r p payload rest f k h s = absurd (omega arith)
  read_wire (suc fuel) zero p payload rest f k h s = ground arith
  read_wire (suc fuel) (suc r) p payload rest f k h s =
      elim (Bool-cases (leb max (length payload))) [
        | inr e ↦
            let short : length payload < max = ground arith in
            ground (arith, read_last max fuel r p payload rest m short, mod-eq_of_lt short)
        | inl e ↦
            let big : max ≤ length payload = ground arith in
            let part = take max payload in
            let ih =
              read_wire fuel r (after_part p []) (drop max payload) rest
                (omega (arith, length-drop max payload)) (ground arith)
                (rw length-drop (rw (← mod-eq-sub-mod big) h)) (omega arith) in
            read_full max fuel r p payload rest m big
            ∙ ap (append_rest part) ih
            ∙ ground (arith, take-append-drop max payload)
      ]

  -- A payload that fills its packets ends in an empty one, which the reader refuses.
  read_wire_full :
      (fuel r : ℕ) (p : PacketIo) (payload rest : List ℕ)
      → length payload < fuel
      → packets max fuel payload ≤ r
      → length payload % max ≡ 0
      → IsByte p.sequence
      → read_loop max r (record p { rb = wire max fuel p.sequence payload ++ rest })
        ≡ some (err invalid_length, after_read (packets max fuel payload - 1) p rest)
  unfolding packets
  read_wire_full zero r p payload rest f k h s = absurd (omega arith)
  read_wire_full (suc fuel) zero p payload rest f k h s = ground arith
  read_wire_full (suc fuel) (suc r) p payload rest f k h s =
      elim (Bool-cases (leb max (length payload))) [
        | inr e ↦
            let short : length payload < max = ground arith in
            ground (arith, read_last max fuel r p payload rest m short, mod-eq_of_lt short)
        | inl e ↦
            let big : max ≤ length payload = ground arith in
            let part = take max payload in
            let ih =
              read_wire_full fuel r (after_part p []) (drop max payload) rest
                (omega (arith, length-drop max payload)) (ground arith)
                (rw length-drop (rw (← mod-eq-sub-mod big) h)) (omega arith) in
            read_full max fuel r p payload rest m big
            ∙ ap (append_rest part) ih
            ∙ ground (
              arith,
              packets_pos max fuel (drop max payload) (omega (arith, length-drop max payload)),
            )
      ]

packets-le-length :
    (max fuel s : ℕ) (payload : List ℕ)
    → packets max fuel payload ≤ length (wire max fuel s payload)
unfolding packets wire
packets-le-length max zero s payload = omega arith
packets-le-length max (suc fuel) s payload = ground (
  arith,
  length-append (take max payload) (wire max fuel (next s) (drop max payload)),
  packets-le-length max fuel (next s) (drop max payload),
)

-- The bytes of one call of `WritePacket`.
abbrev pub wire_of : PacketIo → List ℕ → List ℕ
wire_of w buf = wire max_payload_len (suc (length buf)) w.sequence (drop 4 buf)

abbrev pub packets_of : List ℕ → ℕ
packets_of buf = packets max_payload_len (suc (length buf)) (drop 4 buf)

module _ (w r : PacketIo) (buf rest : List ℕ) (header : 4 ≤ length buf)
    (seq : IsByte w.sequence) where
  -- `WritePacket` takes a slice with four bytes of room before the payload. If the connection takes
  -- all its packets, then it succeeds, and `ReadPacket` at the other end, which expects the writer's
  -- first sequence number, returns the payload, leaves what follows and ends at the writer's
  -- sequence number: whenever the payload does not fill its last packet.
  pub read_packet-write_packet :
      packets_of buf ≤ w.room
      → length (drop 4 buf) % max_payload_len ≢ 0
      → (write_packet w buf
          ≡ some (
            ok tt,
            record w {
              wb = w.wb ++ wire_of w buf;
              room = w.room - packets_of buf;
              sequence = (w.sequence + packets_of buf) % 256;
            },
          ))
        × (read_packet (record r { rb = wire_of w buf ++ rest; sequence = w.sequence })
            ≡ some (
              ok (drop 4 buf),
              record r { rb = rest; sequence = (w.sequence + packets_of buf) % 256 },
            ))
  unfolding write_packet read_packet
  read_packet-write_packet room h = (
    write_loop-wire _ _ w buf (omega arith) header (omega arith) room seq,
    read_wire _ refl _ _ (record r { sequence = w.sequence }) (drop 4 buf) rest
        (omega (arith, length-drop 4 buf))
        (omega (
          arith,
          packets-le-length _ _ w.sequence (drop 4 buf),
          length-append (wire_of w buf) rest,
        ))
        h seq,
  )

  -- A payload whose length is a multiple of `MaxPayloadLen`, the empty one among them, ends in an
  -- empty packet. `WritePacket` sends it, and `ReadPacket` refuses it: the payload is lost.
  pub read_packet-write_packet_full :
      packets_of buf ≤ w.room
      → length (drop 4 buf) % max_payload_len ≡ 0
      → (write_packet w buf
          ≡ some (
            ok tt,
            record w {
              wb = w.wb ++ wire_of w buf;
              room = w.room - packets_of buf;
              sequence = (w.sequence + packets_of buf) % 256;
            },
          ))
        × (read_packet (record r { rb = wire_of w buf ++ rest; sequence = w.sequence })
            ≡ some (
              err invalid_length,
              record r { rb = rest; sequence = (w.sequence + (packets_of buf - 1)) % 256 },
            ))
  unfolding write_packet read_packet
  read_packet-write_packet_full room h = (
    write_loop-wire _ _ w buf (omega arith) header (omega arith) room seq,
    read_wire_full _ refl _ _ (record r { sequence = w.sequence }) (drop 4 buf) rest
        (omega (arith, length-drop 4 buf))
        (omega (
          arith,
          packets-le-length _ _ w.sequence (drop 4 buf),
          length-append (wire_of w buf) rest,
        ))
        h seq,
  )
