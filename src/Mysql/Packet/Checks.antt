-- ===== src/Mysql/Packet/Checks.antt =====
-- Runs of the packet reader and writer, and the theorems at concrete inputs.
use cm.Common.{
  ℕ, ◌≡◌, ◌≢◌, ◌+◌, ◌-◌, ◌%◌, refl, none, some, List, [], ◌∷◌, ◌++◌, ok, err, invalid_length, arith,
}
use cm.Mysql.Packet.{PacketIo, read_packet, read_loop, read_one, write_packet, write_loop}
use cm.Mysql.Packet.Wire.{packets}
use cm.Mysql.Packet.RoundTrip.{
  wire_of, packets_of, read_packet-write_packet, read_packet-write_packet_full,
}
use cm.Mysql.Packet.Faults.{write_packet_total}

abbrev writer : PacketIo
writer = record { rb = []; wb = []; room = 5; sequence = 255 }

abbrev reader : PacketIo
reader = record { rb = []; wb = []; room = 5; sequence = 0 }

abbrev buffer : List ℕ
buffer = 0 ∷ 0 ∷ 0 ∷ 0 ∷ 7 ∷ 8 ∷ []

one_packet : packets_of buffer ≡ 1
unfolding packets
one_packet = refl

read_packet-write_packet_example :
    (write_packet writer buffer
      ≡ some (
        ok tt,
        record writer {
          wb = wire_of writer buffer;
          room = 5 - packets_of buffer;
          sequence = (255 + packets_of buffer) % 256;
        },
      ))
    × (read_packet (record reader { rb = wire_of writer buffer ++ 1 ∷ []; sequence = 255 })
        ≡ some (
          ok (7 ∷ 8 ∷ []),
          record reader { rb = 1 ∷ []; sequence = (255 + packets_of buffer) % 256 },
        ))
read_packet-write_packet_example =
    read_packet-write_packet writer reader buffer (1 ∷ []) (omega arith) (omega arith)
      (omega (arith, one_packet)) (omega arith)

abbrev empty_buffer : List ℕ
empty_buffer = 0 ∷ 0 ∷ 0 ∷ 0 ∷ []

empty_packet : packets_of empty_buffer ≡ 1
unfolding packets
empty_packet = refl

read_packet-write_packet_full_example :
    (write_packet writer empty_buffer
      ≡ some (
        ok tt,
        record writer {
          wb = wire_of writer empty_buffer;
          room = 5 - packets_of empty_buffer;
          sequence = (255 + packets_of empty_buffer) % 256;
        },
      ))
    × (read_packet (record reader { rb = wire_of writer empty_buffer ++ []; sequence = 255 })
        ≡ some (
          err invalid_length,
          record reader { rb = []; sequence = (255 + (packets_of empty_buffer - 1)) % 256 },
        ))
read_packet-write_packet_full_example =
    read_packet-write_packet_full writer reader empty_buffer [] (omega arith) (omega arith)
      (omega (arith, empty_packet)) (omega arith)

write_packet_total_example : write_packet writer buffer ≢ none
write_packet_total_example = write_packet_total writer buffer

written :
    write_packet writer buffer
    ≡ some (ok tt, record writer { wb = 2 ∷ 0 ∷ 0 ∷ 255 ∷ 7 ∷ 8 ∷ []; room = 4; sequence = 0 })
unfolding write_packet write_loop
written = refl

read_back :
    read_packet (record reader { rb = 2 ∷ 0 ∷ 0 ∷ 0 ∷ 7 ∷ 8 ∷ 9 ∷ [] })
    ≡ some (ok (7 ∷ 8 ∷ []), record reader { rb = 9 ∷ []; sequence = 1 })
unfolding read_packet read_loop read_one
read_back = refl
