-- ===== src/Core/Guard.antt =====
-- rstmdb-core/src/guard.rs: guard expressions, their parser and their value in a context.
pub mod Expr
pub mod Parser
