-- ===== src/Core/Guard/Parser.antt =====
-- The parser of guard.rs: the reading of single tokens and comparisons, and the grammar.
pub mod Remainder
pub mod Tokens
pub mod Fuel
pub mod Lexer
pub mod Grammar
