-- ===== src/Proxy/Cache.antt =====
-- proxy/conn_query.go: the statements that go through the row cache. What the shards answer to a
-- query is an argument, and the counters and the log are left out.
pub mod Keys
pub mod Fill
pub mod Handlers
pub mod Store
pub mod Coherence
pub mod Served
mod Checks
