-- ===== src/Proxy.antt =====
-- proxy/: the sessions of the clients.
pub mod Tx
pub mod Stmt
pub mod Packets
pub mod Rows
pub mod Cache
