-- ===== src/Router.antt =====
-- Package router: key ranges and the shard that a key belongs to.
pub mod Key
pub mod NumKey
pub mod Shard
