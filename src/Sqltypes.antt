-- ===== src/Sqltypes.antt =====
-- Package sqltypes: SQL values and their text.
pub mod Escape
