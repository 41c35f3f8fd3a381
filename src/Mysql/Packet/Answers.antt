-- ===== src/Mysql/Packet/Answers.antt =====
-- mysql/packetio.go: `ReadPacket` on every stream of bytes.
