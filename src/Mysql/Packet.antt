-- ===== src/Mysql/Packet.antt =====
-- mysql/packetio.go: payloads in packets of at most 2^24 - 1 bytes under a 4-byte header.
-- `bufio` only groups the bytes on the wire: the reader is the list of bytes that will arrive, the
-- writer the list of bytes sent. A write fails once the connection is bad, and from then on.
pub mod Wire
pub mod Faults
pub mod Answers
pub mod Reading
pub mod Received
pub mod Streams
mod Checks
pub mod RoundTrip
use cm.Common.{
  ℕ, zero, suc, ◌+◌, ◌-◌, ◌*◌, ◌/◌, ◌%◌, ◌^◌, Option, none, some, List, [], ◌∷◌, ◌++◌, length, take,
  drop, leb, ltb, ◌==◌, if◌then◌else◌, not, Error, eof, bad_conn, invalid_length, invalid_sequence,
  Result, ok, err, panic,
}

abbrev pub max_payload_len : ℕ
max_payload_len = 2 ^ 24 - 1

pub record PacketIo : Type 0 where
  -- What is still to be read.
  pub rb : List ℕ
  -- What has been written.
  pub wb : List ℕ
  -- The writes that the connection still takes.
  pub room : ℕ
  pub sequence : ℕ

-- What a call leaves: its outcome and the reader and writer. `none` means that the fuel ran out.
abbrev pub Outcome : Type 0 → Type 0
Outcome A = Option (Result A × PacketIo)

-- `p.Sequence++` on a uint8.
abbrev pub next : ℕ → ℕ
next s = (s + 1) % 256

-- The header's first three bytes.
abbrev pub payload_length : List ℕ → ℕ
payload_length (a ∷ b ∷ c ∷ r) = a + 2 ^ 8 * b + 2 ^ 16 * c
payload_length _ = 0

abbrev header_sequence : List ℕ → ℕ
header_sequence (a ∷ b ∷ c ∷ d ∷ r) = d
header_sequence _ = 0

-- What the packets after a full one give.
abbrev pub append_rest : List ℕ → Outcome (List ℕ) → Outcome (List ℕ)
append_rest part none = none
append_rest part (some (ok buf, p)) = some (ok (part ++ buf), p)
append_rest part (some (err e, p)) = some (err e, p)
append_rest part (some (panic, p)) = some (panic, p)

-- One call of `ReadPacket`: `more` is the call that it makes after a full packet, and `max` is
-- `MaxPayloadLen`.
pub read_one : ℕ → (PacketIo → Outcome (List ℕ)) → PacketIo → Outcome (List ℕ)
read_one max more p =
    let header = take 4 p.rb in
    let body = drop 4 p.rb in
    let n = payload_length header in
    let part = take n body in
    let p' = record p { rb = drop n body; sequence = next p.sequence } in
    if ltb (length p.rb) 4
    then some (err eof, record p { rb = [] })
    else if ltb n 1
    then some (err invalid_length, record p { rb = body })
    else if not (header_sequence header == p.sequence)
    then some (err invalid_sequence, record p { rb = body })
    else if ltb (length body) n
    then some (err eof, record p { rb = []; sequence = next p.sequence })
    else if ltb n max
    then some (ok part, p')
    else append_rest part (more p')

-- Each call reads a header at least.
pub read_loop : ℕ → ℕ → PacketIo → Outcome (List ℕ)
read_loop max zero p = none
read_loop max (suc fuel) p = read_one max (read_loop max fuel) p

pub read_packet : PacketIo → Outcome (List ℕ)
read_packet p = read_loop max_payload_len (suc (length p.rb)) p

-- `p.wb.Write` of a whole packet, then `p.Sequence++`.
abbrev pub sent : PacketIo → List ℕ → PacketIo
sent p packet = record p { wb = p.wb ++ packet; room = p.room - 1; sequence = next p.sequence }

-- Each round but the last takes `max` bytes off. The header of a round stands on the
-- last bytes of the packet that was sent before it.
pub write_loop : ℕ → ℕ → PacketIo → List ℕ → Outcome (Unit {0})
write_loop max zero p buf = none
write_loop max (suc fuel) p buf =
    let n = length buf - 4 in
    let full = 0xff ∷ 0xff ∷ 0xff ∷ p.sequence ∷ drop 4 buf in
    let last = n % 256 ∷ n / 2 ^ 8 % 256 ∷ n / 2 ^ 16 % 256 ∷ p.sequence ∷ drop 4 buf in
    let rest = write_loop max fuel (sent p (take (4 + max) full)) (drop max full) in
    if ltb (length buf) 4
    then some (panic, p)
    else if p.room == 0
    then some (err bad_conn, p)
    else if leb max n
    then rest
    else some (ok tt, sent p last)

-- The slice already has room for the header.
pub write_packet : PacketIo → List ℕ → Outcome (Unit {0})
write_packet p buf = write_loop max_payload_len (suc (length buf)) p buf
