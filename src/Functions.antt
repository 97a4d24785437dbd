-- ===== src/Functions.antt =====
-- The functions and operators of SQL expressions (engine/functions).
pub mod Wildcard
pub mod Operators
pub mod Cast
pub mod Aggregates
