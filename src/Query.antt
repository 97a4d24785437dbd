-- ===== src/Query.antt =====
-- The parts of a query that work on finished rows (engine/stmts/select).
pub mod SetOps
pub mod Paging
pub mod Groups
