-- ===== src/Guard.antt =====
-- crates/cypher-guard: the read-only Cypher sanitizer, one child for each source file.
pub mod Reason
pub mod Unicode
pub mod Lexer
pub mod Rules
pub mod Transforms
pub mod Sanitized
pub mod Limit
pub mod Sanitizer
pub mod Oracle
pub mod Again
pub mod Plain
mod Tests
