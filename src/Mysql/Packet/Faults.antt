-- ===== src/Mysql/Packet/Faults.antt =====
-- mysql/packetio.go: the loop of the writer ends, also when the connection fails.
use cm.Common.{ℕ, zero, suc, ◌+◌, ◌<◌, ◌≢◌, none, List, ◌∷◌, length, take, drop, length-drop, arith}
use cm.Mysql.Packet.{PacketIo, sent, write_loop, write_packet}

write_loop-ne-none :
    (max fuel : ℕ) (p : PacketIo) (buf : List ℕ)
    → 0 < max
    → length buf < fuel
    → write_loop max fuel p buf ≢ none
unfolding write_loop
write_loop-ne-none max zero p buf m h = absurd (omega arith)
write_loop-ne-none max (suc fuel) p buf m h =
    let full = 0xff ∷ 0xff ∷ 0xff ∷ p.sequence ∷ drop 4 buf in
    ground (
      arith,
      length-drop 4 buf,
      length-drop max full,
      write_loop-ne-none max fuel (sent p (take (4 + max) full)) (drop max full) m,
    )

-- `WritePacket` ends on every buffer: the fuel that the loop is given is enough.
pub write_packet_total : (p : PacketIo) (buf : List ℕ) → write_packet p buf ≢ none
unfolding write_packet
write_packet_total p buf = write_loop-ne-none _ _ p buf (omega arith) (omega arith)
