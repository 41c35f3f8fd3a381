-- ===== src/Vt/Tabletserver.antt =====
-- Package tabletserver: the row cache.
pub mod RowCache
