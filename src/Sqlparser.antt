-- ===== src/Sqlparser.antt =====
-- sqlparser/: the statements, their printing and analysis, and the tokenizer.
pub mod Ast
pub mod Keywords
pub mod Format
pub mod Tracked
pub mod Query
pub mod Analyzer
pub mod Token
