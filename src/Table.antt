-- ===== src/Table.antt =====
-- engine/table.rs, engine/table/schema.rs and engine/table/row_ops.rs: a table, its keys and its rows.
pub mod Keys
pub mod Defs
pub mod Coerce
pub mod Panics
pub mod Rows
pub mod Schema
pub mod Access
pub mod Keyed
pub mod Indexed
