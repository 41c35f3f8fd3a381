-- ===== src/Mysql/Packet/Wire.antt =====
-- mysql/packetio.go: the bytes that `WritePacket` sends, described without its loop.
use cm.Common.{
  ap, ◌∙◌, ℕ, zero, suc, ◌+◌, ◌-◌, ◌/◌, ◌%◌, ◌^◌, ◌≤◌, ◌<◌, ◌≡◌, some, List, [], ◌∷◌, ◌++◌, length,
  take, drop, leb, if◌then◌else◌, Bool-cases, inl, inr, drop_comm, length-drop, IsByte, ok, arith,
}
use mathlib.Core.List.{append_assoc}
use cm.Mysql.Packet.{sent, PacketIo, next, write_loop}

-- Full packets while the payload is at least `max` long, and a shorter one, maybe empty.
unfoldable pub wire : ℕ → ℕ → ℕ → List ℕ → List ℕ
wire max zero s payload = []
wire max (suc fuel) s payload =
    let n = length payload in
    let rest = take max payload ++ wire max fuel (next s) (drop max payload) in
    if leb max n
    then 0xff ∷ 0xff ∷ 0xff ∷ s ∷ rest
    else n % 256 ∷ n / 2 ^ 8 % 256 ∷ n / 2 ^ 16 % 256 ∷ s ∷ payload

-- How many packets that makes.
unfoldable pub packets : ℕ → ℕ → List ℕ → ℕ
packets max zero payload = 0
packets max (suc fuel) payload =
    let more = suc (packets max fuel (drop max payload)) in
    if leb max (length payload) then more else 1

abbrev after_write : ℕ → ℕ → PacketIo → List ℕ → PacketIo
after_write max fuel p payload = record p {
  wb = p.wb ++ wire max fuel p.sequence payload;
  room = p.room - packets max fuel payload;
  sequence = (p.sequence + packets max fuel payload) % 256;
}

take-four :
    (max : ℕ) {a b c d : ℕ} (xs : List ℕ)
    → take (4 + max) (a ∷ b ∷ c ∷ d ∷ xs) ≡ a ∷ b ∷ c ∷ d ∷ take max xs
take-four max {a} {b} {c} {d} xs =
    ap (λ n. take n (a ∷ b ∷ c ∷ d ∷ xs))
      (let e : 4 + max ≡ suc (suc (suc (suc max))) = omega arith in e)

-- What a full packet holds, and what the loop goes on with.
abbrev full_packet : ℕ → ℕ → List ℕ → List ℕ
full_packet max s payload = 0xff ∷ 0xff ∷ 0xff ∷ s ∷ take max payload

abbrev left_over : ℕ → ℕ → List ℕ → List ℕ
left_over max s payload = drop max (0xff ∷ 0xff ∷ 0xff ∷ s ∷ payload)

full_round :
    (max fuel : ℕ) (p : PacketIo) (buf : List ℕ)
    → 4 ≤ length buf
    → 0 < p.room
    → max ≤ length buf - 4
    → write_loop max (suc fuel) p buf
      ≡ write_loop max fuel
          (sent p (full_packet max p.sequence (drop 4 buf)))
          (left_over max p.sequence (drop 4 buf))
unfolding write_loop
full_round max fuel p buf h r e = ground (arith, take-four max (drop 4 buf))

after_full :
    (max fuel : ℕ) (p : PacketIo) (payload : List ℕ)
    → max ≤ length payload
    → after_write max fuel (sent p (full_packet max p.sequence payload)) (drop max payload)
      ≡ after_write max (suc fuel) p payload
unfolding wire packets
after_full max fuel p payload h = ground (
  arith,
  append_assoc p.wb (full_packet max p.sequence payload)
      (wire max fuel (next p.sequence) (drop max payload)),
)

-- With room for every packet, `write_loop` sends the packets of `wire` and counts each of them.
pub write_loop-wire :
    (max fuel : ℕ) (p : PacketIo) (buf : List ℕ)
    → 0 < max
    → 4 ≤ length buf
    → length buf ≤ fuel
    → packets max fuel (drop 4 buf) ≤ p.room
    → IsByte p.sequence
    → write_loop max fuel p buf ≡ some (ok tt, after_write max fuel p (drop 4 buf))
write_loop-wire max zero p buf pos h k r s = absurd (omega arith)
write_loop-wire max (suc fuel) p buf pos h k r s = elim (Bool-cases (leb max (length buf - 4))) [
  | inr e ↦ unfold write_loop wire packets in ground (arith, length-drop 4 buf)
  | inl e ↦
      let payload = drop 4 buf in
      let buf' = left_over max p.sequence payload in
      let same : drop 4 buf' ≡ drop max payload =
        drop_comm 4 max (0xff ∷ 0xff ∷ 0xff ∷ p.sequence ∷ payload) in
      let big : max ≤ length payload = ground (arith, length-drop 4 buf) in
      let many : packets max (suc fuel) payload ≡ suc (packets max fuel (drop max payload)) =
        unfold packets in ground arith in
      full_round max fuel p buf h (omega (arith, many)) (ground arith)
      ∙ write_loop-wire max fuel (sent p (full_packet max p.sequence payload)) buf' pos
          (omega
            (arith, length-drop max (0xff ∷ 0xff ∷ 0xff ∷ p.sequence ∷ payload), length-drop 4 buf))
          (omega
            (arith, length-drop max (0xff ∷ 0xff ∷ 0xff ∷ p.sequence ∷ payload), length-drop 4 buf))
          (rw same (omega (arith, many))) (omega arith)
      ∙ ap (λ q. some (ok tt, q)) (rw same (after_full max fuel p payload big))
]
