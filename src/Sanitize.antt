-- ===== src/Sanitize.antt =====
-- internal/sanitize: SQL text with its arguments put in.
pub mod Runes
pub mod Quote
pub mod Lexer
pub mod Query
mod Tests
mod QuoteTests
