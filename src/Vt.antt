-- ===== src/Vt.antt =====
-- vt/: the schema of the tables, and the plans of the statements.
pub mod Schema
pub mod Planbuilder
pub mod Tabletserver
