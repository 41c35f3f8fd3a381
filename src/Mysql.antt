-- ===== src/Mysql.antt =====
-- Package mysql: the client/server protocol.
pub mod LenEnc
pub mod Packet
pub mod BinaryTime
pub mod Field
pub mod Resultset
pub mod Client
pub mod Charset
